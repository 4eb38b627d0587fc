-- ===== src/Spiegel/Text.antt =====
-- The text segment and writes to it: np/spiegel/platform/mprotect.cxx, page_round_up and
-- page_round_down of np/util/common.cxx. An int result that is 0 or -1 is a Bool, true for 0.
-- mprotect(2), the page size, sigaction(2) and Valgrind are parameters.
pub mod Writes
use novaprova.Prelude.{
  ℕ, ◌+◌, ◌-◌, ◌*◌, ◌/◌, ◌%◌, ◌^◌, ◌≤◌, ◌<◌, ◌≡◌, ◌⊎◌, Bool, true, false, List, [], ◌∷◌, ◌==◌,
  if◌then◌else◌, length,
}

pub data Prot : Type 0 where
  read_write read_exec : Prot

-- What each address holds, and how its page is mapped.
pub record Text : Type 0 where
  pub bytes : ℕ → ℕ
  pub prot : ℕ → Prot

pub record Kernel : Type 0 where
  pub page_size : ℕ
  pub mprotect : ℕ → ℕ → Prot → Text → Bool × Text
  pub running_on_valgrind : Bool
  pub sigaction : Bool → Bool

-- What mprotect(2) documents: pages of the range get the protection, others keep theirs, and no
-- byte changes.
pub record IsKernel (k : Kernel) : Type 0 where
  pub has_pages : 0 < k.page_size
  pub keeps :
      (start len : ℕ) (p : Prot) (t : Text) (a : ℕ)
      → (k.mprotect start len p t).1.bytes a ≡ t.bytes a
  pub protects :
      (start len : ℕ) (p : Prot) (t : Text) (a : ℕ)
      → (k.mprotect start len p t).0 ≡ true
      → start ≤ a
      → a < start + len
      → (k.mprotect start len p t).1.prot a ≡ p
  pub spares :
      (start len : ℕ) (p : Prot) (t : Text) (a : ℕ)
      → (a < start) ⊎ (start + len ≤ a)
      → (k.mprotect start len p t).1.prot a ≡ t.prot a

unfoldable pub page_round_up : Kernel → ℕ → ℕ
page_round_up k x = (x + k.page_size - 1) % 2 ^ 64 / k.page_size * k.page_size

unfoldable pub page_round_down : Kernel → ℕ → ℕ
page_round_down k x = x / k.page_size * k.page_size

-- `__np_mprotect` on the pages of a range.
unfoldable pub protect_pages : Kernel → Prot → ℕ → ℕ → Text → Bool × Text
protect_pages k p addr len t =
    let start = page_round_down k addr in
    let end = page_round_up k ((addr + len) % 2 ^ 64) in k.mprotect start (end - start) p t

unfoldable pub text_map_writable : Kernel → ℕ → ℕ → Text → Bool × Text
text_map_writable k = protect_pages k read_write

unfoldable pub text_restore : Kernel → ℕ → ℕ → Text → Bool × Text
text_restore k = protect_pages k read_exec

-- `((char *)to)[i] = ((const char *)from)[i]` for each byte.
unfoldable pub poke : ℕ → List ℕ → (ℕ → ℕ) → ℕ → ℕ
poke to [] bytes a = bytes a
poke to (b ∷ from) bytes a = if a == to then b else poke (to + 1) from bytes a

unfoldable pub text_write : Kernel → ℕ → List ℕ → Text → Bool × Text
text_write k to from t =
    let mapped = text_map_writable k to (length from) t in
    if mapped.0
    then text_restore k to (length from)
        (record { bytes = poke to from mapped.1.bytes; prot = mapped.1.prot })
    else (false, mapped.1)
