-- ===== src/Suite/Plan/Vectors.antt =====
-- The vectors of assignments that `bump` goes through from one of them on.
use novaprova.Prelude.{
  ℕ, zero, suc, ◌+◌, ◌-◌, ◌≤◌, ◌<◌, ◌≡◌, refl, ap, Option, none, some, List, [], ◌∷◌, ◌++◌, arith,
  ltb, length, Bool-cases, inl, inr,
}
use novaprova.Run.Assignment.{Parameter, Assignment, bump_loop, InRange}

-- The vectors with the first index at `i` and the `count` values from there on.
pub row : Parameter → ℕ → ℕ → List Assignment → List (List Assignment)
row p i zero as_ = []
row p i (suc count) as_ = (record { param = p; idx = i } ∷ as_) ∷ row p (i + 1) count as_

pub rows : Parameter → List (List Assignment) → List (List Assignment)
rows p [] = []
rows p (as_ ∷ more) = row p 0 (length p.values) as_ ++ rows p more

abbrev pub tail : {A : Type 0} → List A → List A
tail [] = []
tail (x ∷ xs) = xs

-- From a vector on: the first index counts fastest.
unfoldable pub vectors_from : List Assignment → List (List Assignment)
unfolding row rows
vectors_from [] = [] ∷ []
vectors_from (a ∷ as_) =
    row a.param a.idx (length a.param.values - a.idx) as_ ++ rows a.param (tail (vectors_from as_))

abbrev pub StandsFirst : List Assignment → Type 0
StandsFirst as_ = vectors_from as_ ≡ as_ ∷ tail (vectors_from as_)

-- What `bump` leaves to come.
abbrev pub BumpsTo : List (List Assignment) → Option (List Assignment) → Type 0
BumpsTo rest none = rest ≡ []
BumpsTo rest (some bs) = (rest ≡ vectors_from bs) × StandsFirst bs × InRange bs

row_first :
    (p : Parameter) (i : ℕ) (as_ : List Assignment)
    → i < length p.values
    → row p i (length p.values - i) as_
      ≡ (record { param = p; idx = i } ∷ as_) ∷ row p (i + 1) (length p.values - (i + 1)) as_
unfolding row
row_first p i as_ h =
    let e : length p.values - i ≡ suc (length p.values - (i + 1)) = omega arith in
    ap (λ count. row p i count as_) e

row_none :
    (p : Parameter) (i : ℕ) (as_ : List Assignment)
    → length p.values ≤ i
    → row p i (length p.values - i) as_ ≡ []
unfolding row
row_none p i as_ h =
    let e : length p.values - i ≡ 0 = omega arith in ap (λ count. row p i count as_) e

vectors_from-StandsFirst :
    (p : Parameter) (i : ℕ) (as_ : List Assignment)
    → i < length p.values
    → StandsFirst (record { param = p; idx = i } ∷ as_)
unfolding vectors_from
vectors_from-StandsFirst p i as_ h = rw (row_first p i as_ h)

reset_lem :
    (p : Parameter) (rest : List (List Assignment)) (o : Option (List Assignment))
    → 0 < length p.values
    → BumpsTo rest o
    → BumpsTo
        (rows p rest)
        (elim o [ none ↦ none | some bs ↦ some (record { param = p; idx = 0 } ∷ bs) ])
unfolding vectors_from
reset_lem p rest none h e = rw e
reset_lem p rest (some bs) h (e, first, r) = (
  rw (e, first) (ap (λ count. row p 0 count bs ++ rows p (tail (vectors_from bs))) (omega arith)),
  vectors_from-StandsFirst p 0 bs h,
  (h, r),
)

-- A vector in range stands first, and behind it the vectors from where `bump` goes.
pub vectors_from-bump :
    (as_ : List Assignment)
    → InRange as_
    → (rest : List (List Assignment)) × (vectors_from as_ ≡ as_ ∷ rest)
      × BumpsTo rest (bump_loop as_)
unfolding vectors_from bump_loop
vectors_from-bump [] r = ([], refl, refl)
vectors_from-bump (a ∷ as_) r =
    let (rest, e, b) = vectors_from-bump as_ r.1 in
    let p = a.param in
    elim (Bool-cases (ltb (a.idx + 1) (length p.values))) [
      | inl t ↦ (
        row p (a.idx + 1) (length p.values - (a.idx + 1)) as_ ++ rows p rest,
        rw (row_first p a.idx as_ r.0, e),
        rw t (rw e, vectors_from-StandsFirst p (a.idx + 1) as_ (ground arith), (ground arith, r.1)),
      )
      | inr t ↦ (
        rows p rest,
        rw (row_first p a.idx as_ r.0, row_none p (a.idx + 1) as_ (ground arith), e),
        rw t (reset_lem p rest (bump_loop as_) (omega (arith, r.0)) b),
      )
    ]
