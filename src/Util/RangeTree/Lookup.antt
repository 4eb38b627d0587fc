-- ===== src/Util/RangeTree/Lookup.antt =====
-- Looking up a number in a tree of ranges.
use novaprova.Prelude.{
  ℕ, ◌≤◌, ◌≡◌, ◌⊎◌, refl, Bool, true, false, ◌&&◌, ◌||◌, Option, none, some, [], ◌∷◌, ◌==◌,
  if◌then◌else◌, ltb, arith, All, Bool-cases, inl, inr,
}
use novaprova.Util.RangeTree.{Range, Tree, left_of_range, insert_range, find, find_range}

-- The numbers of a range: its low end, and those from there to before its high end.
unfoldable pub covers : Range → ℕ → Bool
covers r x = x == r.lo || (ltb r.lo x && ltb x r.hi)

-- The first pair whose range has the number.
unfoldable pub first_covering {ℓ} : {V : Type ℓ} → ℕ → Tree V → Option (Range × V)
first_covering x [] = none
first_covering x (e ∷ t) = if covers e.0 x then some e else first_covering x t

-- Every range ends before the next begins.
unfoldable pub IsOrdered {ℓ} : {V : Type ℓ} → Tree V → Type ℓ
IsOrdered [] = Unit
IsOrdered (e ∷ t) = (e.0.lo ≤ e.0.hi) × All (λ f. left_of_range e.0 f.0 ≡ true) t × IsOrdered t

-- No number in both.
abbrev pub Separate : Range → Range → Type 0
Separate a b = (left_of_range a b ≡ true) ⊎ (left_of_range b a ≡ true)

left_trans :
    (a b c : Range)
    → left_of_range a b ≡ true
    → left_of_range b c ≡ true
    → b.lo ≤ b.hi
    → left_of_range a c ≡ true
unfolding left_of_range
left_trans a b c p q h = ground arith

not_both :
    (a b : Range)
    → left_of_range a b ≡ false
    → (left_of_range b a ≡ true) ⊎ (left_of_range a b ≡ true)
    → left_of_range b a ≡ true
not_both a b p (inl q) = q
not_both a b p (inr q) = cc

pub covers_apart :
    (a b : Range) (x : ℕ)
    → a.lo ≤ a.hi
    → left_of_range a b ≡ true
    → covers b x ≡ true
    → covers a x ≡ false
unfolding covers left_of_range
covers_apart a b x h p q = ground arith

swap :
    {B : Type 0} (u v o : B) (x : ℕ) (a r : Range)
    → (covers r x ≡ true → covers a x ≡ false)
    → (if covers a x then u else (if covers r x then v else o))
      ≡ (if covers r x then v else (if covers a x then u else o))
swap u v o x a r other = elim (Bool-cases (covers r x)) [ inl e ↦ rw (other e, e) | inr e ↦ rw e ]

module _ {V : Type 0} where
  none_left :
      (x : ℕ) (e : Range × V) (t : Tree V)
      → All (λ f. left_of_range e.0 f.0 ≡ true) t
      → x ≤ e.0.lo
      → first_covering x t ≡ none
  unfolding first_covering covers left_of_range
  none_left x e [] all h = refl
  none_left x e (f ∷ t) (first, all) h = ground (arith, none_left x e t all h)

  -- In an ordered tree the comparison finds the range that has the number.
  pub find-first_covering : (x : ℕ) (t : Tree V) → IsOrdered t → find x t ≡ first_covering x t
  unfolding find find_range first_covering covers left_of_range IsOrdered
  find-first_covering x [] ordered = refl
  find-first_covering x (e ∷ t) (wide, all, ordered) =
      ground (arith, find-first_covering x t ordered, none_left x e t all)

  All-insert_range :
      (a r : Range) (val : V) (t : Tree V)
      → left_of_range a r ≡ true
      → All (λ (f : Range × V). left_of_range a f.0 ≡ true) t
      → All (λ (f : Range × V). left_of_range a f.0 ≡ true) (insert_range r val t)
  unfolding insert_range
  All-insert_range a r val [] first all = (first, tt)
  All-insert_range a r val (e ∷ t) first (here, all) = elim (Bool-cases (left_of_range e.0 r)) [
    | inl p ↦ rw p (here, All-insert_range a r val t first all)
    | inr p ↦ elim (Bool-cases (left_of_range r e.0)) [
      | inl q ↦ rw (p, q) (first, (here, all))
      | inr q ↦ rw (p, q) (here, all)
    ]
  ]

  All-left :
      (r a : Range) (t : Tree V)
      → left_of_range r a ≡ true
      → a.lo ≤ a.hi
      → All (λ (f : Range × V). left_of_range a f.0 ≡ true) t
      → All (λ (f : Range × V). left_of_range r f.0 ≡ true) t
  All-left r a [] p h all = tt
  All-left r a (f ∷ t) p h (here, all) = (left_trans r a f.0 p here h, All-left r a t p h all)

  -- An insertion away from the ranges of a tree keeps its order.
  pub insert_range-IsOrdered :
      (r : Range) (val : V) (t : Tree V)
      → r.lo ≤ r.hi
      → All (λ (e : Range × V). Separate r e.0) t
      → IsOrdered t
      → IsOrdered (insert_range r val t)
  unfolding insert_range IsOrdered
  insert_range-IsOrdered r val [] wide apart ordered = (wide, tt, tt)
  insert_range-IsOrdered r val (e ∷ t) wide (here, apart) (wide', all, ordered) =
      elim (Bool-cases (left_of_range e.0 r)) [
        | inl p ↦ rw p (
          wide',
          All-insert_range e.0 r val t p all,
          insert_range-IsOrdered r val t wide apart ordered,
        )
        | inr p ↦
            let q = not_both e.0 r p here in
            rw (p, q) (wide, (q, All-left r e.0 t q wide' all), (wide', all, ordered))
      ]

  first_covering-insert_range :
      (r : Range) (val : V) (t : Tree V) (x : ℕ)
      → All (λ (e : Range × V). Separate r e.0) t
      → IsOrdered t
      → first_covering x (insert_range r val t)
        ≡ (if covers r x then some (r, val) else first_covering x t)
  unfolding insert_range first_covering IsOrdered
  first_covering-insert_range r val [] x apart ordered = refl
  first_covering-insert_range r val (e ∷ t) x (here, apart) (wide', all, ordered) =
      elim (Bool-cases (left_of_range e.0 r)) [
        | inl p ↦
            rw (p, first_covering-insert_range r val t x apart ordered)
              (swap (some e) (some (r, val)) (first_covering x t) x e.0 r
                (covers_apart e.0 r x wide' p))
        | inr p ↦ rw (p, not_both e.0 r p here)
      ]

  -- After an insertion away from the ranges of the tree, a number of the new range is found with the
  -- new value, and the others are found as before.
  pub find-insert_range :
      (r : Range) (val : V) (t : Tree V) (x : ℕ)
      → r.lo ≤ r.hi
      → All (λ (e : Range × V). Separate r e.0) t
      → IsOrdered t
      → find x (insert_range r val t) ≡ (if covers r x then some (r, val) else find x t)
  find-insert_range r val t x wide apart ordered =
      rw
        (
          find-first_covering x t ordered,
          find-first_covering x (insert_range r val t)
              (insert_range-IsOrdered r val t wide apart ordered),
        )
        (first_covering-insert_range r val t x apart ordered)
