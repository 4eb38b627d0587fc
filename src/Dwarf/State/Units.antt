-- ===== src/Dwarf/State/Units.antt =====
-- References into a link object.
use novaprova.Prelude.{
  ℕ, zero, suc, ◌+◌, ◌-◌, ◌≤◌, ◌<◌, ◌≡◌, refl, sym, ◌∙◌, ap, true, false, ◌&&◌, some,
  some-injective, List, [], ◌∷◌, ◌==◌, ltb, leb, get_elem?, arith, Bool-cases, inl, inr,
}
use novaprova.Dwarf.State.{UnitPlace, resolve_from, resolve_link_object_reference}

-- The unit at a place of the list.
unfoldable pub Holds : UnitPlace → ℕ → ℕ → ℕ → Type 0
Holds cu lo off inner =
    (cu.link_object ≡ lo) × (cu.start_offset + inner ≡ off) × (off < cu.end_offset)

sub_self : (n : ℕ) → n - n ≡ 0
sub_self n = omega arith

sub_suc : (i n : ℕ) → suc n ≤ i → i - n ≡ suc (i - suc n)
sub_suc i n h = omega arith

resolve_from-Holds :
    (n : ℕ) (cus : List UnitPlace) (lo off i inner : ℕ)
    → resolve_from n cus lo off ≡ some (i, inner)
    → (cu : UnitPlace) × (n ≤ i) × (get_elem? cus (i - n) ≡ some cu) × Holds cu lo off inner
unfolding resolve_from Holds
resolve_from-Holds n [] lo off i inner h = absurd (cc h)
resolve_from-Holds n (cu ∷ cus) lo off i inner h =
    elim (Bool-cases (lo == cu.link_object && (leb cu.start_offset off && ltb off cu.end_offset))) [
      | inl e ↦
          let (at_n, inner_is, same_lo, low, high) = here e in
          (cu, omega arith, rw (sym at_n) (rw (sub_self n) refl), (sym same_lo, omega arith, high))
      | inr e ↦
          let (cu', le, held, holds) = resolve_from-Holds (suc n) cus lo off i inner (later e) in
          (cu', omega arith, rw (sub_suc i n le) held, holds)
    ]
  where
    later :
        (lo == cu.link_object && (leb cu.start_offset off && ltb off cu.end_offset)) ≡ false
        → resolve_from (suc n) cus lo off ≡ some (i, inner)
    later e = ground arith

    here :
        (lo == cu.link_object && (leb cu.start_offset off && ltb off cu.end_offset)) ≡ true
        → (n ≡ i)
          × (off - cu.start_offset ≡ inner)
          × (lo ≡ cu.link_object)
          × (cu.start_offset ≤ off)
          × (off < cu.end_offset)
    here e = ground arith

resolve_from-some :
    (n : ℕ) (cus : List UnitPlace) (lo off k inner : ℕ) (cu : UnitPlace)
    → get_elem? cus k ≡ some cu
    → Holds cu lo off inner
    → (found : ℕ × ℕ) × (resolve_from n cus lo off ≡ some found)
unfolding resolve_from Holds
resolve_from-some n [] lo off k inner cu held holds = absurd (cc held)
resolve_from-some n (c ∷ cus) lo off k inner cu held holds =
    elim (Bool-cases (lo == c.link_object && (leb c.start_offset off && ltb off c.end_offset))) [
      | inl e ↦ ((n, off - c.start_offset), rw e refl)
      | inr e ↦
          rw e (
            later k held e (λ j again. resolve_from-some (suc n) cus lo off j inner cu again holds))
    ]
  where
    here_too : (lo == cu.link_object && (leb cu.start_offset off && ltb off cu.end_offset)) ≡ true
    here_too = ground arith

    later :
        (k : ℕ)
        → get_elem? (c ∷ cus) k ≡ some cu
        → (lo == c.link_object && (leb c.start_offset off && ltb off c.end_offset)) ≡ false
        → ((j : ℕ)
            → get_elem? cus j ≡ some cu
            → (found : ℕ × ℕ) × (resolve_from (suc n) cus lo off ≡ some found))
        → (found : ℕ × ℕ) × (resolve_from (suc n) cus lo off ≡ some found)
    later zero held e again =
        let same = some-injective c cu held in
        absurd (
          cc (
            ap
                (λ (u : UnitPlace).
                  lo == u.link_object && (leb u.start_offset off && ltb off u.end_offset))
                same,
            e,
            here_too,
          ))
    later (suc k) held e again = again k held

-- A reference into a link object, to an offset that one of its units has, resolves to a unit of that
-- object that has the offset, and to the offset in that unit.
pub resolve_link_object_reference-Holds :
    (cus : List UnitPlace) (lo off k inner : ℕ) (cu : UnitPlace)
    → get_elem? cus k ≡ some cu
    → Holds cu lo off inner
    → (found : ℕ × ℕ) × (cu' : UnitPlace) × (resolve_link_object_reference cus lo off ≡ some found)
      × (get_elem? cus found.0 ≡ some cu')
      × Holds cu' lo off found.1
unfolding resolve_link_object_reference
resolve_link_object_reference-Holds cus lo off k inner cu held holds =
    let (found, e) = resolve_from-some 0 cus lo off k inner cu held holds in
    let (cu', _, held', holds') = resolve_from-Holds 0 cus lo off found.0 found.1 e in
    let from_zero : found.0 - 0 ≡ found.0 = omega arith in
    (found, cu', e, ap (get_elem? cus) (sym from_zero) ∙ held', holds')
