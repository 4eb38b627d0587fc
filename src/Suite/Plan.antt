-- ===== src/Suite/Plan.antt =====
-- np/plan.hxx and plan.cxx: `plan_t`, a list of nodes, and its iterator over the tests below them.
-- A null pointer that is dereferenced ends the process. The search for the next test runs on fuel.
pub mod Vectors
pub mod Visits
use novaprova.Prelude.{
  ℕ, zero, suc, Bool, true, false, Option, none, some, List, [], ◌∷◌, ◌++◌, ◌&&◌, if◌then◌else◌,
  not,
}
use novaprova.Run.Types.{ft_test}
use novaprova.Run.Assignment.{Assignment, bump}
use novaprova.Suite.Tree.{Node, Place, get_function, is_some, is_empty, assignments_of}
use novaprova.Suite.Tree.Iterator.{Cursor, begin_at, place_of, next_node}
use novaprova.Suite.Tree.Preorder.{count_nodes}

abbrev pub Plan : Type 0
Plan = List Place

unfoldable pub add_node : Place → Plan → Plan
add_node p nodes = nodes ++ p ∷ []

-- `find_node` is `testmanager_t::find_node`. The nodes found before one that is not stay.
unfoldable pub add_specs : (List ℕ → Option Place) → List (List ℕ) → Plan → Bool × Plan
unfolding add_node
add_specs find_node [] nodes = (true, nodes)
add_specs find_node (spec ∷ specs) nodes =
    let found = λ (p : Place). add_specs find_node specs (add_node p nodes) in
    elim (find_node spec) [ none ↦ (false, nodes) | some p ↦ found p ]

-- `vitr` is the nodes from `vitr_` to `vend_`.
pub record Iterator : Type 0 where
  pub vitr : List Place
  pub nitr : Option Cursor
  pub assigns : List Assignment

pub data State : Type 0 where
  at : Iterator → State
  crashed stuck : State

-- No more nodes in this subtree: `++vitr_`, and `*nitr_`, which is null, if that is not the end.
abbrev pub next_subtree : List Place → List Assignment → State
next_subtree [] assigns = crashed
next_subtree (v ∷ []) assigns = at (record { vitr = []; nitr = none; assigns = assigns })
next_subtree (v ∷ w ∷ rest) assigns = crashed

abbrev pub has_test : Cursor → Bool
has_test c = is_some (get_function ft_test c.focus)

unfoldable pub find_testable_node : ℕ → List Place → List Assignment → Option Cursor → State
find_testable_node zero vitr assigns o = stuck
find_testable_node (suc rounds) vitr assigns none = next_subtree vitr assigns
find_testable_node (suc rounds) vitr assigns (some c) =
    let rest = find_testable_node rounds vitr assigns (next_node c) in
    if has_test c
    then at (record { vitr = vitr; nitr = some c; assigns = assignments_of (place_of c) })
    else rest

-- A subtree has no more nodes to go through than this.
abbrev pub rounds_for : List Place → ℕ
rounds_for [] = 0
rounds_for (v ∷ vitr) = suc (count_nodes v.focus)

unfoldable pub begin : Plan → State
unfolding find_testable_node
begin [] = at (record { vitr = []; nitr = none; assigns = [] })
begin (v ∷ vitr) = find_testable_node (rounds_for (v ∷ vitr)) (v ∷ vitr) [] (some (begin_at v))

-- `++nitr_`
unfoldable pub next_test : List Place → Option Cursor → State
unfolding find_testable_node
next_test vitr none = crashed
next_test vitr (some c) = find_testable_node (rounds_for vitr) vitr [] (next_node c)

unfoldable pub step_assigns : Iterator → Bool × List Assignment → State
unfolding next_test
step_assigns it (true, bs) = next_test it.vitr it.nitr
step_assigns it (false, bs) = at (record it { assigns = bs })

-- `operator++`
unfoldable pub step : Iterator → State
unfolding step_assigns
step it = step_assigns it (bump it.assigns)

-- `operator==` with `end()`
abbrev pub is_end : Iterator → Bool
is_end it = is_empty it.vitr && (not (is_some it.nitr) && is_empty it.assigns)

pub data Ending : Type 0 where
  finished crashes runs_on : Ending

abbrev pub Visit : Type 0
Visit = Option Cursor × List Assignment

abbrev pub cons_visit : Visit → List Visit × Ending → List Visit × Ending
cons_visit v (vs, e) = (v ∷ vs, e)

-- A loop from `begin()` to `end()` that looks at each node with its assignments.
unfoldable pub visits : ℕ → State → List Visit × Ending
visits zero s = ([], runs_on)
visits (suc rounds) crashed = ([], crashes)
visits (suc rounds) stuck = ([], runs_on)
visits (suc rounds) (at it) =
    let rest = cons_visit (it.nitr, it.assigns) (visits rounds (step it)) in
    if is_end it then ([], finished) else rest
