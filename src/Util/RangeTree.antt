-- ===== src/Util/RangeTree.antt =====
-- Values by ranges of numbers: np/util/rangetree.hxx, for keys of type addr_t. The std::map is the
-- list of its pairs in its order; what it finds is equivalent by the comparison, in either order.
pub mod Lookup
pub mod Filled
use novaprova.Prelude.{
  ℕ, Bool, true, false, ◌&&◌, Option, none, some, List, [], ◌∷◌, if◌then◌else◌, ltb, leb, length,
}

pub record Range : Type 0 where
  pub lo : ℕ
  pub hi : ℕ

abbrev pub Tree {ℓ} : Type ℓ → Type ℓ
Tree V = List (Range × V)

-- `range(T x)`.
abbrev pub point : ℕ → Range
point x = record { lo = x; hi = x }

unfoldable pub left_of_range : Range → Range → Bool
left_of_range a b = ltb a.lo b.lo && leb a.hi b.lo

unfoldable pub size {ℓ} : {V : Type ℓ} → Tree V → ℕ
size t = length t

-- `map_[r] = val`: the value of an equivalent key is replaced, the key stays.
unfoldable pub insert_range {ℓ} : {V : Type ℓ} → Range → V → Tree V → Tree V
insert_range r val [] = (r, val) ∷ []
insert_range r val (e ∷ t) =
    let rest = insert_range r val t in
    if left_of_range e.0 r
    then e ∷ rest
    else (if left_of_range r e.0 then (r, val) ∷ e ∷ t else (e.0, val) ∷ t)

unfoldable pub insert {ℓ} : {V : Type ℓ} → ℕ → ℕ → V → Tree V → Tree V
unfolding insert_range
insert lo hi = insert_range (record { lo = lo; hi = hi })

unfoldable pub insert_point {ℓ} : {V : Type ℓ} → ℕ → V → Tree V → Tree V
unfolding insert_range
insert_point x = insert_range (point x)

-- What the iterator points to, none at the end.
unfoldable pub find_range {ℓ} : {V : Type ℓ} → Range → Tree V → Option (Range × V)
find_range r [] = none
find_range r (e ∷ t) =
    let rest = find_range r t in
    if left_of_range e.0 r then rest else (if left_of_range r e.0 then none else some e)

unfoldable pub find {ℓ} : {V : Type ℓ} → ℕ → Tree V → Option (Range × V)
unfolding find_range
find x = find_range (point x)
