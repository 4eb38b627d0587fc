-- ===== src/Dwarf/LinkObject/Coalesced.antt =====
-- The mappings that are made for the sections contain them all.
use novaprova.Prelude.{
  ◌+◌, ◌^◌, ◌≤◌, ◌≡◌, refl, sym, subst, Bool, true, false, List, [], ◌∷◌, if◌then◌else◌, leb, All,
  arith, Bool-cases, inl, inr,
}
use novaprova.Spiegel.Text.{Kernel, IsKernel, page_round_up}
use novaprova.Spiegel.Mapping.{Mapping, get_end, set_end, contains}
use novaprova.Dwarf.LinkObject.{coalesce_onto}

-- The section and the pages that it touches are within 64 bits.
abbrev pub Fits : Kernel → Mapping → Type 0
Fits k m = m.offset + m.size + k.page_size ≤ 2 ^ 64

-- Sorted by their beginnings, and no section ends before one that begins before it does.
unfoldable pub Follows : Kernel → Mapping → List Mapping → Type 0
Follows k back [] = Unit
Follows k back (s ∷ sections) =
    (back.offset ≤ s.offset)
    × (back.offset + back.size ≤ s.offset + s.size)
    × Fits k s
    × Follows k s sections

unfoldable pub any_contains : List Mapping → Mapping → Bool
any_contains [] m = false
any_contains (sm ∷ mappings) m =
    let rest = any_contains mappings m in if contains sm m then true else rest

pub contains_self : (s : Mapping) → contains s s ≡ true
unfolding contains
contains_self s = ground arith

pub beyond :
    (m s : Mapping) (ms : List Mapping) → any_contains ms s ≡ true → any_contains (m ∷ ms) s ≡ true
unfolding any_contains
beyond m s ms h = ground arith

All-beyond :
    (m : Mapping) (ms sections : List Mapping)
    → All (λ s. any_contains ms s ≡ true) sections
    → All (λ s. any_contains (m ∷ ms) s ≡ true) sections
All-beyond m ms [] all = tt
All-beyond m ms (s ∷ sections) (here, all) = (beyond m s ms here, All-beyond m ms sections all)

module _ (k : Kernel) (law : IsKernel k) where
  Follows-set_end :
      (back s : Mapping) (sections : List Mapping)
      → back.offset ≤ s.offset
      → Fits k s
      → Follows k s sections
      → Follows k (set_end (get_end s) back) sections
  unfolding Follows set_end get_end
  Follows-set_end back s [] before fits follows = tt
  Follows-set_end back s (t ∷ sections) before fits (first, second, fits', rest) =
      (omega arith, omega (arith, law.has_pages), fits', rest)

  Fits-set_end :
      (back s : Mapping) → back.offset ≤ s.offset → Fits k s → Fits k (set_end (get_end s) back)
  unfolding set_end get_end
  Fits-set_end back s before fits = omega (arith, law.has_pages)

  contains-set_end :
      (back s x : Mapping)
      → back.offset ≤ s.offset
      → back.offset + back.size ≤ s.offset + s.size
      → Fits k back
      → Fits k s
      → contains back x ≡ true
      → contains (set_end (get_end s) back) x ≡ true
  unfolding contains set_end get_end
  contains-set_end back s x before behind fits fits' h = ground (arith, law.has_pages)

  set_end-contains :
      (back s : Mapping)
      → back.offset ≤ s.offset
      → Fits k s
      → contains (set_end (get_end s) back) s ≡ true
  unfolding contains set_end get_end
  set_end-contains back s before fits = ground (arith, law.has_pages)

  -- What the last mapping contains is in the mappings that come of it.
  pub kept :
      (back x : Mapping) (sections : List Mapping)
      → Fits k back
      → Follows k back sections
      → contains back x ≡ true
      → any_contains (coalesce_onto k back sections) x ≡ true
  unfolding Follows coalesce_onto any_contains
  kept back x [] fits follows h = rw h
  kept back x (s ∷ sections) fits (before, behind, fits', follows) h =
      elim (Bool-cases (leb s.offset (page_round_up k (get_end back)))) [
        | inl e ↦ rw e (
            kept (set_end (get_end s) back) x sections (Fits-set_end back s before fits')
              (Follows-set_end back s sections before fits' follows)
              (contains-set_end back s x before behind fits fits' h))
        | inr e ↦ rw (e, h)
      ]

  module _ (back s : Mapping) (sections : List Mapping) where
    merged :
        leb s.offset (page_round_up k (get_end back)) ≡ true
        → coalesce_onto k back (s ∷ sections) ≡ coalesce_onto k (set_end (get_end s) back) sections
    unfolding coalesce_onto
    merged e = rw e refl

    begun :
        leb s.offset (page_round_up k (get_end back)) ≡ false
        → coalesce_onto k back (s ∷ sections) ≡ back ∷ coalesce_onto k s sections
    unfolding coalesce_onto
    begun e = rw e refl

  -- The mappings that sorted sections are coalesced into contain each of them.
  pub coalesce_onto-contains :
      (back : Mapping) (sections : List Mapping)
      → Fits k back
      → Follows k back sections
      → All (λ s. any_contains (coalesce_onto k back sections) s ≡ true) sections
  unfolding Follows
  coalesce_onto-contains back [] fits follows = tt
  coalesce_onto-contains back (s ∷ sections) fits (before, behind, fits', follows) =
      let Contained : List Mapping → Type 0 =
        λ ms. All (λ x. any_contains ms x ≡ true) (s ∷ sections) in
      elim (Bool-cases (leb s.offset (page_round_up k (get_end back)))) [
        | inl e ↦
            let wide = set_end (get_end s) back in
            let follows' = Follows-set_end back s sections before fits' follows in
            let fits'' = Fits-set_end back s before fits' in
            subst Contained (sym (merged back s sections e)) (
              kept wide s sections fits'' follows' (set_end-contains back s before fits'),
              coalesce_onto-contains wide sections fits'' follows',
            )
        | inr e ↦
            let rest = coalesce_onto k s sections in
            subst Contained (sym (begun back s sections e)) (
              beyond back s rest (kept s s sections fits' follows (contains_self s)),
              All-beyond back rest sections (coalesce_onto-contains s sections fits' follows),
            )
      ]

  -- The mappings stay within 64 bits.
  pub coalesce_onto-Fits :
      (back : Mapping) (sections : List Mapping)
      → Fits k back
      → Follows k back sections
      → All (Fits k) (coalesce_onto k back sections)
  unfolding Follows coalesce_onto
  coalesce_onto-Fits back [] fits follows = (fits, tt)
  coalesce_onto-Fits back (s ∷ sections) fits (before, behind, fits', follows) =
      elim (Bool-cases (leb s.offset (page_round_up k (get_end back)))) [
        | inl e ↦ subst (All (Fits k)) (sym (merged back s sections e)) (
            coalesce_onto-Fits (set_end (get_end s) back) sections
              (Fits-set_end back s before fits')
              (Follows-set_end back s sections before fits' follows))
        | inr e ↦
            subst (All (Fits k)) (sym (begun back s sections e))
              (fits, coalesce_onto-Fits s sections fits' follows)
      ]
