-- ===== src/Suite/Plan/Visits.antt =====
-- The tests that a loop over a plan visits.
use novaprova.Prelude.{
  ℕ, zero, suc, ◌≤◌, ◌<◌, ◌≡◌, refl, sym, ap, ◌∙◌, subst, false, Option, none, some, List, [], ◌∷◌,
  ◌++◌, map, arith, if◌then◌else◌, length, All, Bool-cases, inl, inr,
}
use novaprova.Run.Assignment.{Assignment, bump, bump_loop, answer_of, InRange}
use novaprova.Suite.Tree.{Place, assignments_of}
use novaprova.Suite.Tree.Iterator.{Cursor, begin_at, place_of, next_node}
use novaprova.Suite.Tree.Preorder.{
  preorder, IsRest, next_node-remaining, count_nodes, length-preorder, begin-IsRest,
}
use novaprova.Suite.Plan.{
  State, at, next_subtree, has_test, find_testable_node, rounds_for, begin, next_test, step_assigns,
  step, Ending, finished, crashes, Visit, cons_visit, visits,
}
use novaprova.Suite.Plan.Vectors.{vectors_from, vectors_from-bump, BumpsTo}

abbrev pub visit : Cursor → List Assignment → Visit
visit c as_ = (some c, as_)

-- The visits to one node.
abbrev pub visits_of : Cursor → List Visit
visits_of c = map (λ as_. visit c as_) (vectors_from (assignments_of (place_of c)))

-- Every node with a test, in order, with each vector of values.
unfoldable pub tests_of : List Cursor → List Visit
tests_of [] = []
tests_of (c ∷ cs) = if has_test c then visits_of c ++ tests_of cs else tests_of cs

-- Every parameter of a test, its own or inherited, has a value.
abbrev pub HasValues : List Cursor → Type 0
HasValues = All (λ c. InRange (assignments_of (place_of c)))

-- Where the search stops.
pub data Stop : Type 0 where
  over : Stop
  found : Cursor → List Cursor → Stop

abbrev Stops : List Cursor → Stop → Type 0
Stops cs over = tests_of cs ≡ []
Stops cs (found c rest) =
    (tests_of cs ≡ visits_of c ++ tests_of rest)
    × IsRest rest (next_node c)
    × (length rest ≤ length cs)
    × InRange (assignments_of (place_of c))
    × HasValues rest

abbrev state_at : List Place → List Assignment → Stop → State
state_at vitr assigns over = next_subtree vitr assigns
state_at vitr assigns (found c rest) =
    at (record { vitr = vitr; nitr = some c; assigns = assignments_of (place_of c) })

Stops-skip :
    (c : Cursor) (cs rest : List Cursor) (s : Stop)
    → cs ≡ c ∷ rest
    → has_test c ≡ false
    → Stops rest s
    → Stops cs s
unfolding tests_of
Stops-skip c cs rest over e t k = rw (e, tests_of) (rw t k)
Stops-skip c cs rest (found c' rest') e t (x, r, n, i, v) =
    (rw (e, tests_of) (rw t x), r, omega (arith, ap length e), i, v)

search_lem :
    (rounds : ℕ) (vitr : List Place) (assigns : List Assignment) (cs : List Cursor)
    (o : Option Cursor)
    → IsRest cs o
    → HasValues cs
    → length cs < rounds
    → (s : Stop) × (find_testable_node rounds vitr assigns o ≡ state_at vitr assigns s) × Stops cs s
unfolding find_testable_node tests_of
search_lem zero vitr assigns cs o h v fits = absurd (omega arith)
search_lem (suc rounds) vitr assigns cs none h v fits = (over, refl, rw h)
search_lem (suc rounds) vitr assigns cs (some c) h v fits =
    let (rest, e, r) = next_node-remaining c.focus c.inside c.outside in
    let eq : cs ≡ c ∷ rest = h ∙ e in
    let shorter : length cs ≡ suc (length rest) = ap length eq in
    let vs : HasValues (c ∷ rest) = subst HasValues eq v in
    let (s, f, k) =
      search_lem rounds vitr assigns rest (next_node c) r vs.1 (omega (arith, shorter)) in
    elim (Bool-cases (has_test c)) [
      | inl t ↦ (
        found c rest,
        rw (t, find_testable_node),
        (rw (eq, tests_of) (rw t), r, omega (arith, shorter), vs.0, vs.1),
      )
      | inr t ↦ (s, rw (t, find_testable_node) f, Stops-skip c cs rest s eq t k)
    ]

abbrev pub ending_of : List Place → Ending
ending_of [] = finished
ending_of (w ∷ more) = crashes

-- What is still to come when the iterator is at `c` with `as_`, and `rest` is behind it.
abbrev to_come : Cursor → List Cursor → List Assignment → List Visit
to_come c rest as_ = map (λ bs. visit c bs) (vectors_from as_) ++ tests_of rest

module _ (v : Place) (more : List Place) where
  abbrev at_test : Cursor → List Assignment → State
  at_test c as_ = at (record { vitr = v ∷ more; nitr = some c; assigns = as_ })

  -- From any state at a test, and from a search that has stopped.
  abbrev Visits : ℕ → Type 0
  Visits rounds =
      (c : Cursor) (rest : List Cursor) (as_ : List Assignment)
      → IsRest rest (next_node c)
      → InRange as_
      → HasValues rest
      → length rest ≤ count_nodes v.focus
      → length (to_come c rest as_) < rounds
      → visits rounds (at_test c as_) ≡ (to_come c rest as_, ending_of more)

  over_lem :
      (rounds : ℕ) (ws : List Place)
      → 0 < rounds
      → visits rounds (next_subtree (v ∷ ws) []) ≡ ([], ending_of ws)
  unfolding visits
  over_lem zero ws h = absurd (omega arith)
  over_lem (suc rounds) [] h = refl
  over_lem (suc rounds) (w ∷ ws) h = refl

  after_search :
      (rounds : ℕ) (cs : List Cursor) (s : Stop)
      → Visits rounds
      → Stops cs s
      → length cs ≤ count_nodes v.focus
      → length (tests_of cs) < rounds
      → visits rounds (state_at (v ∷ more) [] s) ≡ (tests_of cs, ending_of more)
  after_search rounds cs over ih e n fits = rw e (over_lem rounds more (omega arith))
  after_search rounds cs (found c rest) ih (e, r, m, i, vs) n fits =
      ih c rest (assignments_of (place_of c)) r i vs (omega (arith, m, n))
        (omega (arith, fits, ap length e))
      ∙ ap (λ done. (done, ending_of more)) (sym e)

  search_visits :
      (rounds : ℕ) (cs : List Cursor) (o : Option Cursor)
      → Visits rounds
      → IsRest cs o
      → HasValues cs
      → length cs ≤ count_nodes v.focus
      → length (tests_of cs) < rounds
      → visits rounds (find_testable_node (rounds_for (v ∷ more)) (v ∷ more) [] o)
        ≡ (tests_of cs, ending_of more)
  search_visits rounds cs o ih r vs n fits =
      let (s, f, k) = search_lem (rounds_for (v ∷ more)) (v ∷ more) [] cs o r vs (omega arith) in
      rw f (after_search rounds cs s ih k n fits)

  after_bump :
      (rounds : ℕ) (c : Cursor) (rest : List Cursor) (as_ : List Assignment)
      (later : List (List Assignment)) (o : Option (List Assignment))
      → Visits rounds
      → BumpsTo later o
      → IsRest rest (next_node c)
      → HasValues rest
      → length rest ≤ count_nodes v.focus
      → length (map (λ bs. visit c bs) later ++ tests_of rest) < rounds
      → visits rounds
          (step_assigns (record { vitr = v ∷ more; nitr = some c; assigns = as_ }) (answer_of o))
        ≡ (map (λ bs. visit c bs) later ++ tests_of rest, ending_of more)
  unfolding step_assigns next_test
  after_bump rounds c rest as_ later none ih e r vs n fits = rw e (
      search_visits rounds rest (next_node c) ih r vs n
        (subst (λ l. length (map (λ bs. visit c bs) l ++ tests_of rest) < rounds) e fits))
  after_bump rounds c rest as_ later (some bs) ih (e, first, i) r vs n fits = rw e (
      ih c rest bs r i vs n
        (subst (λ l. length (map (λ bs. visit c bs) l ++ tests_of rest) < rounds) e fits))

  visits_lem : (rounds : ℕ) → Visits rounds
  unfolding visits step bump
  visits_lem zero c rest as_ r i vs n fits = absurd (omega arith)
  visits_lem (suc rounds) c rest as_ r i vs n fits =
      let (later, e, b) = vectors_from-bump as_ i in
      rw e (
        ap (cons_visit (some c, as_)) (
          after_bump rounds c rest as_ later (bump_loop as_) (visits_lem rounds) b r vs n (
            omega (
              arith,
              subst (λ l. length (map (λ bs. visit c bs) l ++ tests_of rest) < suc rounds) e fits,
            ))))

-- A loop over a plan visits each test below the plan's first node once with each vector of the values
-- of its parameters, in preorder and in the order of `bump`, and comes to its end if that is the only
-- node. If there is another, the loop then dereferences a null pointer. Each parameter has a value.
pub visits-tests_of :
    (v : Place) (more : List Place)
    → HasValues (preorder v)
    → visits (suc (length (tests_of (preorder v)))) (begin (v ∷ more))
      ≡ (tests_of (preorder v), ending_of more)
unfolding begin
visits-tests_of v more vs =
    search_visits v more (suc (length (tests_of (preorder v)))) (preorder v) (some (begin_at v))
      (visits_lem v more (suc (length (tests_of (preorder v))))) (begin-IsRest v) vs
      (omega (arith, length-preorder v)) (omega arith)
