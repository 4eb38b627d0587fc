-- ===== src/Util/RangeTree/Filled.antt =====
-- A tree of ranges that is filled by insertions.
use novaprova.Prelude.{
  ℕ, ◌≤◌, ◌≡◌, refl, ◌∙◌, true, false, Option, none, some, List, [], ◌∷◌, All, Bool-cases, inl, inr,
}
use novaprova.Util.RangeTree.{Range, Tree, left_of_range, insert_range, find}
use novaprova.Util.RangeTree.Lookup.{
  covers, first_covering, IsOrdered, Separate, covers_apart, insert_range-IsOrdered,
  find-insert_range,
}

flip : (a b : Range) → Separate a b → Separate b a
flip a b (inl h) = inr h
flip a b (inr h) = inl h

module _ {V : Type 0} where
  -- Insertions in this order.
  unfoldable pub insert_all : List (Range × V) → Tree V → Tree V
  insert_all [] t = t
  insert_all (p ∷ ps) t = insert_all ps (insert_range p.0 p.1 t)

  -- What the first of two look-ups finds, or else the second.
  abbrev pub or_else : Option (Range × V) → Option (Range × V) → Option (Range × V)
  or_else none later = later
  or_else (some p) later = some p

  -- Ranges that are not upside down, each apart from the others.
  unfoldable pub AreSeparate : List (Range × V) → Type 0
  AreSeparate [] = Unit
  AreSeparate (p ∷ ps) =
      (p.0.lo ≤ p.0.hi) × All (λ (q : Range × V). Separate p.0 q.0) ps × AreSeparate ps

  -- Each of some ranges is apart from each of a tree.
  abbrev pub AreNew : List (Range × V) → Tree V → Type 0
  AreNew ps t = All (λ (p : Range × V). All (λ (e : Range × V). Separate p.0 e.0) t) ps

  All-insert :
      (P : Range → Type 0) (r : Range) (val : V) (t : Tree V)
      → P r
      → All (λ (e : Range × V). P e.0) t
      → All (λ (e : Range × V). P e.0) (insert_range r val t)
  unfolding insert_range
  All-insert P r val [] new all = (new, tt)
  All-insert P r val (e ∷ t) new (here, all) = elim (Bool-cases (left_of_range e.0 r)) [
    | inl p ↦ rw p (here, All-insert P r val t new all)
    | inr p ↦ elim (Bool-cases (left_of_range r e.0)) [
      | inl q ↦ rw (p, q) (new, (here, all))
      | inr q ↦ rw (p, q) (here, all)
    ]
  ]

  AreNew-insert :
      (p : Range × V) (ps : List (Range × V)) (t : Tree V)
      → All (λ (q : Range × V). Separate p.0 q.0) ps
      → AreNew ps t
      → AreNew ps (insert_range p.0 p.1 t)
  AreNew-insert p [] t apart new = tt
  AreNew-insert p (q ∷ ps) t (here, apart) (first, new) = (
    All-insert (Separate q.0) p.0 p.1 t (flip p.0 q.0 here) first,
    AreNew-insert p ps t apart new,
  )

  not_covered :
      (p : Range × V) (ps : List (Range × V)) (x : ℕ)
      → p.0.lo ≤ p.0.hi
      → All (λ (q : Range × V). Separate p.0 q.0) ps
      → AreSeparate ps
      → covers p.0 x ≡ true
      → first_covering x ps ≡ none
  unfolding first_covering AreSeparate
  not_covered p [] x wide apart separate h = refl
  not_covered p (q ∷ ps) x wide (here, apart) (wide', _, separate) h =
      rw (other here) (not_covered p ps x wide apart separate h)
    where
      other : Separate p.0 q.0 → covers q.0 x ≡ false
      other (inl left) = elim (Bool-cases (covers q.0 x)) [
        | inl e ↦ absurd (cc (covers_apart p.0 q.0 x wide left e, h))
        | inr e ↦ e
      ]
      other (inr right) = covers_apart q.0 p.0 x wide' right h

  -- The tree that ranges make, which are apart from each other and from those that it had, has for
  -- each number what a search of all of them has.
  pub find-insert_all :
      (ps : List (Range × V)) (t : Tree V) (x : ℕ)
      → AreSeparate ps
      → AreNew ps t
      → IsOrdered t
      → find x (insert_all ps t) ≡ or_else (first_covering x ps) (find x t)
  unfolding insert_all first_covering AreSeparate
  find-insert_all [] t x separate new ordered = refl
  find-insert_all (p ∷ ps) t x (wide, apart, separate) (here, new) ordered =
      find-insert_all ps (insert_range p.0 p.1 t) x separate (AreNew-insert p ps t apart new)
        (insert_range-IsOrdered p.0 p.1 t wide here ordered)
      ∙ rw (find-insert_range p.0 p.1 t x wide here ordered) (elim (Bool-cases (covers p.0 x)) [
        | inl e ↦ rw (e, not_covered p ps x wide apart separate e)
        | inr e ↦ rw e
      ])
