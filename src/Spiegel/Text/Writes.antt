-- ===== src/Spiegel/Text/Writes.antt =====
-- What `text_write` does to the bytes and to the protection of pages.
use novaprova.Prelude.{
  ℕ, ◌+◌, ◌-◌, ◌%◌, ◌^◌, ◌≤◌, ◌<◌, ◌≡◌, ◌∙◌, ◌⊎◌, inl, inr, true, List, length, arith, [], ◌∷◌,
  Bool-cases, ltb, ltb→lt, ltb→le,
}
use native.Mathlib.Nat.{mod-add-div', mod-lt}
use novaprova.Spiegel.Text.{
  Text, Prot, Kernel, IsKernel, read_exec, read_write, page_round_up, page_round_down,
  protect_pages, text_map_writable, text_restore, poke, text_write,
}

-- The kernel grants both calls of mprotect that a write of so many bytes at an address makes.
abbrev pub Grants : Kernel → ℕ → ℕ → Type 0
Grants k to len =
    (t : Text) → ((text_map_writable k to len t).0 ≡ true) × ((text_restore k to len t).0 ≡ true)

poke_ext :
    (to : ℕ) (from : List ℕ) (a : ℕ) {f g : ℕ → ℕ}
    → ((x : ℕ) → f x ≡ g x)
    → poke to from f a ≡ poke to from g a
unfolding poke
poke_ext to [] a same = same a
poke_ext to (b ∷ from) a same = rw (poke_ext (to + 1) from a same)

module _ (k : Kernel) (law : IsKernel k) where
  pub round_down-le : (x : ℕ) → page_round_down k x ≤ x
  unfolding page_round_down
  round_down-le x = omega (arith, mod-add-div' x k.page_size)

  pub le-round_up : (x : ℕ) → x + k.page_size ≤ 2 ^ 64 → x ≤ page_round_up k x
  unfolding page_round_up
  le-round_up x h =
      let y = (x + k.page_size - 1) % 2 ^ 64 in
      omega (arith, law.has_pages, mod-add-div' y k.page_size, mod-lt y law.has_pages)

  pub round_up-lt : (x : ℕ) → x + k.page_size ≤ 2 ^ 64 → page_round_up k x < 2 ^ 64
  unfolding page_round_up
  round_up-lt x h =
      let y = (x + k.page_size - 1) % 2 ^ 64 in
      omega (arith, law.has_pages, mod-add-div' y k.page_size)

  module _ (p : Prot) (addr len : ℕ) (t : Text) where
    pub protect_pages-bytes : (a : ℕ) → (protect_pages k p addr len t).1.bytes a ≡ t.bytes a
    unfolding protect_pages
    protect_pages-bytes a = law.keeps _ _ p t a

    -- The pages that the call covers hold every byte of the range.
    pub protect_pages-prot :
        (a : ℕ)
        → addr + len + k.page_size ≤ 2 ^ 64
        → (protect_pages k p addr len t).0 ≡ true
        → addr ≤ a
        → a < addr + len
        → (protect_pages k p addr len t).1.prot a ≡ p
    unfolding protect_pages page_round_down page_round_up
    protect_pages-prot a fits granted low high =
        law.protects _ _ p t a granted (omega (arith, round_down-le addr))
          (omega (arith, round_down-le addr, law.has_pages, le-round_up ((addr + len) % 2 ^ 64)))

  -- A page keeps its protection, or is in the range of a call that sets it.
  one_or_other :
      (start n : ℕ) (p q : Prot) (t : Text) (f : (ℕ → ℕ)) (a : ℕ)
      → let mapped = (k.mprotect start n p t).1 in
        let again = k.mprotect start n q (record { bytes = f; prot = mapped.prot }) in
        again.0 ≡ true → (again.1.prot a ≡ q) ⊎ (again.1.prot a ≡ t.prot a)
  one_or_other start n p q t f a granted =
      let mapped = (k.mprotect start n p t).1 in
      let t' : Text = record { bytes = f; prot = mapped.prot } in
      elim (Bool-cases (ltb a start)) [
        | inl below ↦
            let out = inl (ltb→lt a start below) in
            inr (law.spares start n q t' a out ∙ law.spares start n p t a out)
        | inr above ↦ elim (Bool-cases (ltb a (start + n))) [
          | inl inside ↦ inl (
              law.protects start n q t' a granted (ltb→le a start above)
                (ltb→lt a (start + n) inside))
          | inr beyond ↦
              let out = inr (ltb→le a (start + n) beyond) in
              inr (law.spares start n q t' a out ∙ law.spares start n p t a out)
        ]
      ]

  module _ (to : ℕ) (from : List ℕ) (grants : Grants k to (length from)) (t : Text) where
    -- A write that the kernel grants succeeds.
    pub text_write-true : (text_write k to from t).0 ≡ true
    unfolding text_write
    text_write-true = rw ((grants t).0) ((grants _).1)

    -- It changes the bytes of the range to those given, and no others.
    pub text_write-bytes : (a : ℕ) → (text_write k to from t).1.bytes a ≡ poke to from t.bytes a
    unfolding text_write text_map_writable text_restore
    text_write-bytes a = rw ((grants t).0) (
        protect_pages-bytes read_exec to (length from) _ a
        ∙ poke_ext to from a (protect_pages-bytes read_write to (length from) t))

    -- Text that was all executable and not writable is so again after a write that the kernel grants.
    pub text_write-read_exec :
        ((a : ℕ) → t.prot a ≡ read_exec) → (a : ℕ) → (text_write k to from t).1.prot a ≡ read_exec
    unfolding text_write text_map_writable text_restore protect_pages
    text_write-read_exec before a =
        rw ((grants t).0) (elim (one_or_other _ _ read_write read_exec t _ a ((grants _).1)) [
          | inl set ↦ set
          | inr kept ↦ kept ∙ before a
        ])
