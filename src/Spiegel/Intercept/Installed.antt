-- ===== src/Spiegel/Intercept/Installed.antt =====
-- The registry and the patched text as an implementation of a list: the intercepts that are
-- installed, in the order of their installation.
use novaprova.Prelude.{
  ℕ, ◌≡◌, refl, Bool, true, false, Option, none, some, List, [], ◌∷◌, ◌++◌, ◌==◌, if◌then◌else◌,
  arith,
}
use novaprova.Spiegel.Platform.{IntState, trap_byte}
use novaprova.Spiegel.Intercept.{AddrState, World, erase}

-- The intercepts at an address.
unfoldable pub at : (ℕ → ℕ) → ℕ → List ℕ → List ℕ
at addr_ a [] = []
at addr_ a (h ∷ hs) = let rest = at addr_ a hs in if addr_ h == a then h ∷ rest else rest

-- What the map and the text hold at an address with these intercepts, whose byte was `byte`.
unfoldable pub Site : Bool → ℕ → List ℕ → Option AddrState → ℕ → Type 0
Site using_int3 byte [] entry now = (entry ≡ none) × (now ≡ byte)
Site using_int3 byte (h ∷ hs) entry now =
    (state : IntState) × (entry ≡ some (record { state = state; intercepts = h ∷ hs }))
    × (state.orig ≡ byte)
    × (now ≡ trap_byte using_int3)

-- The world holds these intercepts, and the text `original` but for them.
pub record Represents (addr_ original : ℕ → ℕ) (hs : List ℕ) (w : World) : Type 0 where
  pub sites :
      (a : ℕ)
      → Site w.machine.using_int3
          (original a)
          (at addr_ a hs)
          (w.installed a)
          (w.machine.text.bytes a)
  pub handles : w.machine.installed_sigaction ≡ false → hs ≡ []

pub ==_eq : (a b : ℕ) → (a == b) ≡ true → a ≡ b
==_eq a b h = ground arith

module _ (addr_ : ℕ → ℕ) where
  pub at-append_here :
      (a : ℕ) (hs : List ℕ) (h : ℕ)
      → (addr_ h == a) ≡ true
      → at addr_ a (hs ++ h ∷ []) ≡ at addr_ a hs ++ h ∷ []
  unfolding at
  at-append_here a [] h e = rw e
  at-append_here a (x ∷ hs) h e = ground (arith, at-append_here a hs h e)

  pub at-append_there :
      (a : ℕ) (hs : List ℕ) (h : ℕ)
      → (addr_ h == a) ≡ false
      → at addr_ a (hs ++ h ∷ []) ≡ at addr_ a hs
  unfolding at
  at-append_there a [] h e = rw e
  at-append_there a (x ∷ hs) h e = ground (arith, at-append_there a hs h e)

  pub at-erase_here :
      (a : ℕ) (hs : List ℕ) (h : ℕ)
      → (addr_ h == a) ≡ true
      → at addr_ a (erase h hs) ≡ erase h (at addr_ a hs)
  unfolding at erase
  at-erase_here a [] h e = refl
  at-erase_here a (x ∷ hs) h e = ground (arith, at-erase_here a hs h e, ==_eq x h)

  pub at-erase_there :
      (a : ℕ) (hs : List ℕ) (h : ℕ)
      → (addr_ h == a) ≡ false
      → at addr_ a (erase h hs) ≡ at addr_ a hs
  unfolding at erase
  at-erase_there a [] h e = refl
  at-erase_there a (x ∷ hs) h e = ground (arith, at-erase_there a hs h e, ==_eq x h)
