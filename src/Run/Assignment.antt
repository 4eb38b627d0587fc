-- ===== src/Run/Assignment.antt =====
-- np/testnode.cxx and testnode.hxx: the parameters of a test and the vectors of assignments that
-- count through their values. A `char *` variable is the value last assigned, none for null. An
-- index past the values is none.
use novaprova.Prelude.{
  ℕ, zero, suc, ◌+◌, ◌*◌, ◌<◌, ◌≡◌, refl, Bool, true, false, Option, none, some, List, [], ◌∷◌,
  ◌++◌, map, arith, ltb, ◌==◌, ◌&&◌, if◌then◌else◌, length, get_elem?, All, Bool-cases, ◌⊎◌, inl,
  inr, ap,
}
use novaprova.Util.Tok.{init, parts}

pub record Parameter : Type 0 where
  pub name : List ℕ
  pub values : List (List ℕ)

pub record Assignment : Type 0 where
  pub param : Parameter
  pub idx : ℕ

-- `parameter_t(n, v, vals)`; the separators are ", \t".
unfoldable pub new_parameter : List ℕ → List ℕ → Parameter
new_parameter name vals = record {
  name = name;
  values = parts (suc (suc (length vals))) (init (some vals) (some (44 ∷ 32 ∷ 9 ∷ [])));
}

unfoldable pub values_string : ℕ → List (List ℕ) → List ℕ
values_string sep [] = []
values_string sep (v ∷ vs) = sep ∷ (v ++ values_string 44 vs)

unfoldable pub parameter_string : Parameter → List ℕ
unfolding values_string
parameter_string p = p.name ++ values_string 61 p.values

unfoldable pub new_assignment : Parameter → Assignment
new_assignment p = record { param = p; idx = 0 }

unfoldable pub apply : Assignment → Option (List ℕ)
apply a = get_elem? a.param.values a.idx

unfoldable pub unapply : Assignment → Option (List ℕ)
unapply a = none

unfoldable pub assignment_string : Assignment → Option (List ℕ)
assignment_string a = elim (get_elem? a.param.values a.idx) [
  | none ↦ none
  | some v ↦ some (a.param.name ++ (61 ∷ v))
]

-- The loop of `bump`: none when it runs off the end of the vector.
unfoldable pub bump_loop : List Assignment → Option (List Assignment)
bump_loop [] = none
bump_loop (a ∷ as_) =
    let reset : Option (List Assignment) = elim (bump_loop as_) [
      | none ↦ none
      | some bs ↦ some (record a { idx = 0 } ∷ bs)
    ] in
    if ltb (a.idx + 1) (length a.param.values)
    then some (record a { idx = a.idx + 1 } ∷ as_)
    else reset

abbrev pub answer_of : Option (List Assignment) → Bool × List Assignment
answer_of none = (true, [])
answer_of (some bs) = (false, bs)

unfoldable pub bump : List Assignment → Bool × List Assignment
bump as_ = answer_of (bump_loop as_)

unfoldable pub same_assignments : List Assignment → List Assignment → Bool
same_assignments [] [] = true
same_assignments [] (b ∷ bs) = false
same_assignments (a ∷ as_) [] = false
same_assignments (a ∷ as_) (b ∷ bs) = a.idx == b.idx && same_assignments as_ bs

-- `create_assignments`: the list is the parameters of the node and of its ancestors, from the node
-- up.
unfoldable pub create_assignments : List (List Parameter) → List Assignment
unfolding new_assignment
create_assignments [] = []
create_assignments (ps ∷ ancestors) = map new_assignment ps ++ create_assignments ancestors

-- Every index is one of a value.
abbrev pub InRange : List Assignment → Type 0
InRange = All (λ a. a.idx < length a.param.values)

-- The number of vectors that there are, and the place of one in the order of `bump`, the first
-- assignment counting fastest.
abbrev pub total : List Assignment → ℕ
total [] = 1
total (a ∷ as_) = length a.param.values * total as_

abbrev pub place : List Assignment → ℕ
place [] = 0
place (a ∷ as_) = a.idx + length a.param.values * place as_

-- What the loop leaves is the next place, or it was at the last one.
abbrev Follows : List Assignment → Option (List Assignment) → Type 0
Follows as_ none = place as_ + 1 ≡ total as_
Follows as_ (some bs) = (place bs ≡ place as_ + 1) × (total bs ≡ total as_) × InRange bs

next_multiple : (n k : ℕ) → n * (k + 1) ≡ n * k + n
next_multiple n zero = ground arith
next_multiple n (suc k) = ground (arith, next_multiple n k)

reset_step :
    (a : Assignment) (as_ : List Assignment) (o : Option (List Assignment))
    → a.idx + 1 ≡ length a.param.values
    → Follows as_ o
    → Follows (a ∷ as_) (elim o [ none ↦ none | some bs ↦ some (record a { idx = 0 } ∷ bs) ])
reset_step a as_ none e h = omega (
  arith,
  e,
  ap (λ n. length a.param.values * n) h,
  next_multiple (length a.param.values) (place as_),
)
reset_step a as_ (some bs) e (p, t, r) = (
  omega (
    arith,
    e,
    ap (λ n. length a.param.values * n) p,
    next_multiple (length a.param.values) (place as_),
  ),
  ap (λ n. length a.param.values * n) t,
  (omega arith, r),
)

bump_loop-Follows : (as_ : List Assignment) → InRange as_ → Follows as_ (bump_loop as_)
unfolding bump_loop
bump_loop-Follows [] r = refl
bump_loop-Follows (a ∷ as_) r = elim (Bool-cases (ltb (a.idx + 1) (length a.param.values))) [
  | inl e ↦ rw e (omega arith, refl, (ground arith, r.1))
  | inr e ↦
      rw e (reset_step a as_ (bump_loop as_) (ground (arith, r.0)) (bump_loop-Follows as_ r.1))
]

abbrev pub IsNext : List Assignment → Bool × List Assignment → Type 0
IsNext as_ q =
    ((q.0 ≡ true) × (place as_ + 1 ≡ total as_) × (q.1 ≡ []))
    ⊎ ((q.0 ≡ false) × (place q.1 ≡ place as_ + 1) × (total q.1 ≡ total as_) × InRange q.1)

answer :
    (as_ : List Assignment) (o : Option (List Assignment))
    → Follows as_ o
    → IsNext as_ (answer_of o)
answer as_ none h = inl (refl, h, refl)
answer as_ (some bs) (p, t, r) = inr (refl, p, t, r)

-- `bump` goes to the next of all vectors of values, and tells when it has been at the
-- last one, where it leaves the vector empty. The indices stay in range.
pub bump-IsNext : (as_ : List Assignment) → InRange as_ → IsNext as_ (bump as_)
unfolding bump
bump-IsNext as_ r = answer as_ (bump_loop as_) (bump_loop-Follows as_ r)
