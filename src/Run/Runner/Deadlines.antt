-- ===== src/Run/Runner/Deadlines.antt =====
-- The timeout that `wait` gives to `poll`.
use novaprova.Prelude.{
  ℕ, ◌-◌, ◌≡◌, refl, sym, ap, ◌∙◌, min, Option, none, some, List, [], ◌∷◌, arith, ◌==◌, ◌||◌,
  if◌then◌else◌, Bool-cases, inl, inr,
}
use novaprova.Run.Child.{is_finished}
use novaprova.Run.Runner.{Entry, nearer, poll_timeout}

-- How long each child that has not finished and has a deadline may still run.
unfoldable pub remaining : ℕ → List Entry → List ℕ
remaining start [] = []
remaining start (e ∷ es) =
    if is_finished e.child || e.child.deadline == 0
    then remaining start es
    else (e.child.deadline - start) ∷ remaining start es

abbrev pub least_of : Option ℕ → Option ℕ → Option ℕ
least_of none o = o
least_of (some u) none = some u
least_of (some u) (some m) = some (min u m)

-- The least of some numbers, none of none.
unfoldable pub least : List ℕ → Option ℕ
least [] = none
least (x ∷ xs) = least_of (some x) (least xs)

least_of_assoc : (a b c : Option ℕ) → least_of (least_of a b) c ≡ least_of a (least_of b c)
least_of_assoc none b c = refl
least_of_assoc (some u) none c = refl
least_of_assoc (some u) (some m) none = refl
least_of_assoc (some u) (some m) (some n) = ap some (omega arith)

least_of-none : (a : Option ℕ) → least_of a none ≡ a
least_of-none none = refl
least_of-none (some u) = refl

nearer-least_of :
    (start deadline : ℕ) (t : Option ℕ)
    → nearer start deadline t ≡ least_of t (some (deadline - start))
unfolding nearer
nearer-least_of start deadline none = ground arith
nearer-least_of start deadline (some u) = ground arith

poll_timeout-from :
    (start : ℕ) (es : List Entry) (t : Option ℕ)
    → poll_timeout start es t ≡ least_of t (least (remaining start es))
unfolding poll_timeout remaining least
poll_timeout-from start [] t = sym (least_of-none t)
poll_timeout-from start (e ∷ es) t =
    elim (Bool-cases (is_finished e.child || e.child.deadline == 0)) [
      | inl c ↦ rw c (poll_timeout-from start es t)
      | inr c ↦ rw c (
          poll_timeout-from start es (nearer start e.child.deadline t)
          ∙ rw (nearer-least_of start e.child.deadline t)
              (least_of_assoc t (some (e.child.deadline - start)) (least (remaining start es))))
    ]

-- The loop over the children finds the least time that is left to one of them, 0 if one is overdue,
-- and no timeout if none has a deadline.
pub poll_timeout-least :
    (start : ℕ) (es : List Entry) → poll_timeout start es none ≡ least (remaining start es)
poll_timeout-least start es = poll_timeout-from start es none
