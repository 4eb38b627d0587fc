-- ===== src/Dwarf/LinkObject/Mapped.antt =====
-- The sections are found in the mappings when these are mapped.
use novaprova.Prelude.{
  ℕ, ◌+◌, ◌%◌, ◌^◌, ◌≤◌, ◌≡◌, refl, sym, ◌∙◌, subst, true, false, Option, none, some,
  some-injective, List, [], ◌∷◌, All, arith, Bool-cases, Option-cases, inl, inr,
}
use novaprova.Spiegel.Text.{Kernel, IsKernel}
use novaprova.Spiegel.Text.Writes.{round_down-le, le-round_up, round_up-lt}
use novaprova.Spiegel.Mapping.{Mapping, get_end, contains, map_from, expand_to_pages, mmap}
use novaprova.Dwarf.LinkObject.{map_from_system, coalesce_onto, coalesce, mmap_all}
use novaprova.Dwarf.LinkObject.Coalesced.{
  Fits, Follows, any_contains, contains_self, beyond, kept, coalesce_onto-contains,
  coalesce_onto-Fits,
}

found :
    (ms : List Mapping) (x : Mapping)
    → any_contains ms x ≡ true
    → (y : Mapping) × (map_from_system ms x ≡ some y)
unfolding any_contains map_from_system
found [] x h = absurd (cc h)
found (m ∷ ms) x h = elim (Bool-cases (contains m x)) [
  | inl e ↦ (map_from m x, rw e)
  | inr e ↦ let (y, later) = found ms x (rw⁻¹ (only_rest e) h) in (y, rw e later)
]
  where
    only_rest : contains m x ≡ false → any_contains (m ∷ ms) x ≡ any_contains ms x
    only_rest e = rw e

module _ (k : Kernel) (law : IsKernel k) where
  wide :
      (m : Mapping)
      → Fits k m
      → ((expand_to_pages k m).offset ≤ m.offset) × (get_end m ≤ get_end (expand_to_pages k m))
  unfolding expand_to_pages get_end
  wide m fits =
      let x = (m.offset + m.size) % 2 ^ 64 in
      let small : x + k.page_size ≤ 2 ^ 64 = omega (arith, law.has_pages) in
      (
        round_down-le k law m.offset,
        omega (
          arith,
          law.has_pages,
          round_down-le k law m.offset,
          le-round_up k law x small,
          round_up-lt k law x small,
        ),
      )

  -- A mapping still contains what it did when it has been widened to pages and mapped.
  expand_to_pages-contains :
      (m x : Mapping) → Fits k m → contains m x ≡ true → contains (expand_to_pages k m) x ≡ true
  unfolding contains
  expand_to_pages-contains m x fits h = let (low, high) = wide m fits in ground (arith, low, high)

  module _ (mmap_file : ℕ → ℕ → Option ℕ) where
    mmap-some :
        (m : Mapping) (map : ℕ)
        → let wide = expand_to_pages k m in
          mmap_file wide.offset wide.size ≡ some map
          → mmap k mmap_file m ≡ some (record { offset = wide.offset; size = wide.size; map = map })
    unfolding mmap
    mmap-some m map e = rw (mmap, e) refl

    mmap-none :
        (m : Mapping)
        → mmap_file (expand_to_pages k m).offset (expand_to_pages k m).size ≡ none
        → mmap k mmap_file m ≡ none
    unfolding mmap
    mmap-none m e = rw (mmap, e) refl

    mmap-contains :
        (m mapped x : Mapping)
        → Fits k m
        → mmap k mmap_file m ≡ some mapped
        → contains m x ≡ true
        → contains mapped x ≡ true
    unfolding contains get_end
    mmap-contains m mapped x fits e h =
        let wide = expand_to_pages k m in
        elim (Option-cases (mmap_file wide.offset wide.size)) [
          | inl fails ↦ absurd (cc (e, mmap-none m fails))
          | inr (map, here) ↦
              let made : Mapping = record { offset = wide.offset; size = wide.size; map = map } in
              subst (λ y. contains y x ≡ true)
                (some-injective made mapped (sym (mmap-some m map here) ∙ e))
                (expand_to_pages-contains m x fits h)
        ]

    module _ (m : Mapping) (ms : List Mapping) where
      first_fails : mmap k mmap_file m ≡ none → mmap_all k mmap_file (m ∷ ms) ≡ none
      unfolding mmap_all
      first_fails e = rw (mmap_all, e) refl

      rest_fails :
          (first : Mapping)
          → mmap k mmap_file m ≡ some first
          → mmap_all k mmap_file ms ≡ none
          → mmap_all k mmap_file (m ∷ ms) ≡ none
      unfolding mmap_all
      rest_fails first e f = rw (mmap_all, e) (rw f refl)

      mapped_in_turn :
          (first : Mapping) (rest : List Mapping)
          → mmap k mmap_file m ≡ some first
          → mmap_all k mmap_file ms ≡ some rest
          → mmap_all k mmap_file (m ∷ ms) ≡ some (first ∷ rest)
      unfolding mmap_all
      mapped_in_turn first rest e f = rw (mmap_all, e) (rw f refl)

    either :
        (m first x : Mapping) (ms rest : List Mapping)
        → (contains m x ≡ true → contains first x ≡ true)
        → (any_contains ms x ≡ true → any_contains rest x ≡ true)
        → any_contains (m ∷ ms) x ≡ true
        → any_contains (first ∷ rest) x ≡ true
    unfolding any_contains
    either m first x ms rest here there h = elim (Bool-cases (contains m x)) [
      | inl e ↦ rw (here e)
      | inr e ↦ beyond first x rest (there (rw⁻¹ (only_rest e) h))
    ]
      where
        only_rest : contains m x ≡ false → any_contains (m ∷ ms) x ≡ any_contains ms x
        only_rest e = rw e

    -- Whatever the mappings contain, one of those that are mapped for them does.
    mmap_all-contains :
        (ms mapped : List Mapping) (x : Mapping)
        → All (Fits k) ms
        → mmap_all k mmap_file ms ≡ some mapped
        → any_contains ms x ≡ true
        → any_contains mapped x ≡ true
    unfolding any_contains
    mmap_all-contains [] mapped x fits e h = absurd (cc h)
    mmap_all-contains (m ∷ ms) mapped x (fits, all) e h = elim (Option-cases (mmap k mmap_file m)) [
      | inl fails ↦ absurd (cc (e, first_fails m ms fails))
      | inr (first, here) ↦ elim (Option-cases (mmap_all k mmap_file ms)) [
        | inl fails ↦ absurd (cc (e, rest_fails m ms first here fails))
        | inr (rest, there) ↦
            subst (λ l. any_contains l x ≡ true)
              (some-injective (first ∷ rest) mapped
                (sym (mapped_in_turn m ms first rest here there) ∙ e))
              (either m first x ms rest (mmap-contains m first x fits here)
                (mmap_all-contains ms rest x all there) h)
      ]
    ]

    each_found :
        (ms mapped sections : List Mapping)
        → All (Fits k) ms
        → mmap_all k mmap_file ms ≡ some mapped
        → All (λ x. any_contains ms x ≡ true) sections
        → All (λ x. (y : Mapping) × (map_from_system mapped x ≡ some y)) sections
    each_found ms mapped [] fits e contained = tt
    each_found ms mapped (x ∷ sections) fits e (here, contained) = (
      found mapped x (mmap_all-contains ms mapped x fits e here),
      each_found ms mapped sections fits e contained,
    )

    -- Sections that end a page before 2^64, are sorted, and of which none ends before one that begins
    -- before it does, are all found in the mappings that they are coalesced into, if these can be mapped.
    pub mmap_all-coalesce :
        (s : Mapping) (sections mapped : List Mapping)
        → Fits k s
        → Follows k s sections
        → mmap_all k mmap_file (coalesce k (s ∷ sections)) ≡ some mapped
        → All (λ x. (y : Mapping) × (map_from_system mapped x ≡ some y)) (s ∷ sections)
    unfolding coalesce
    mmap_all-coalesce s sections mapped fits follows e =
        each_found (coalesce_onto k s sections) mapped (s ∷ sections)
          (coalesce_onto-Fits k law s sections fits follows) e
          (
            kept k law s s sections fits follows (contains_self s),
            coalesce_onto-contains k law s sections fits follows,
          )
