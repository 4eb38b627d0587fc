-- ===== src/Suite/Tree.antt =====
-- np/testnode.hxx and testnode.cxx: `testnode_t`, a node of the tree of tests.
-- A `testnode_t *` is a place: the node, and the nodes above it, each with its other children. So
-- `parent_` is the head of what is above, and `next_` the first of the later siblings. A
-- `function_t *` or an `intercept_t *` is a number. `dump` is left out.
pub mod Iterator
pub mod Preorder
pub mod Detach
pub mod Fixtures
pub mod Paths
use novaprova.Prelude.{
  ℕ, zero, suc, ◌+◌, Bool, true, false, Option, none, some, List, [], ◌∷◌, ◌++◌, map, ◌==◌, ◌||◌,
  ◌&&◌, if◌then◌else◌, length, not, leb,
}
use novaprova.Run.Types.{ft_before, ft_test, ft_after}
use novaprova.Run.Assignment.{Parameter, Assignment, new_parameter, create_assignments}
use novaprova.Util.Tok.{init, parts}
use novaprova.Util.FileName.{same}

pub record Intercept : Type 0 where
  pub target : ℕ
  pub target_name : Option (List ℕ)
  pub mock : ℕ

-- The members of a node but for its links. `funcs_[type]`, with null as none.
pub record Members : Type 0 where
  pub name : Option (List ℕ)
  pub funcs : ℕ → Option ℕ
  pub intercepts : List Intercept
  pub parameters : List Parameter

mutual
  pub data Node : Type 0 where
    node : Members → Nodes → Node

  -- `children_`, linked by `next_`.
  pub data Nodes : Type 0 where
    nil : Nodes
    cons : Node → Nodes → Nodes

-- A parent: its members, and its children before and behind the one that was entered, those before
-- in reverse.
pub record Above : Type 0 where
  pub parent : Members
  pub before : Nodes
  pub behind : Nodes

pub record Place : Type 0 where
  pub focus : Node
  pub above : List Above

abbrev pub members : Node → Members
members (node m children) = m

abbrev pub children : Node → Nodes
children (node m ns) = ns

-- The nodes from `this` to the root, as `for (a = this ; a ; a = a->parent_)` passes them.
abbrev pub line : Place → List Members
line p = members p.focus ∷ map (λ a. a.parent) p.above

-- `before` in reverse, in front of `ns`.
unfoldable pub put_before : Nodes → Nodes → Nodes
put_before nil ns = ns
put_before (cons n before) ns = put_before before (cons n ns)

-- The parent that a child with its siblings makes.
abbrev pub close : Node → Above → Node
close n a = node a.parent (put_before a.before (cons n a.behind))

-- `testnode_t(name)`
unfoldable pub new_node : Option (List ℕ) → Node
new_node name =
    node (record { name = name; funcs = λ ft. none; intercepts = []; parameters = [] }) nil

abbrev pub change : (Members → Members) → Place → Place
change f p = record p { focus = node (f (members p.focus)) (children p.focus) }

abbrev pub is_some : {A : Type 0} → Option A → Bool
is_some none = false
is_some (some x) = true

-- A second function for a type is dropped with a warning.
unfoldable pub set_function : ℕ → ℕ → Place → Place
set_function ft func = change λ m. record m {
  funcs = λ t. if t == ft && not (is_some (m.funcs ft)) then some func else m.funcs t;
}

unfoldable pub add_mock : ℕ → Option (List ℕ) → ℕ → Place → Place
add_mock target name mock = change λ m. record m {
  intercepts = m.intercepts ++ record { target = target; target_name = name; mock = mock } ∷ [];
}

unfoldable pub add_parameter : List ℕ → List ℕ → Place → Place
unfolding new_parameter
add_parameter name vals =
    change λ m. record m { parameters = m.parameters ++ new_parameter name vals ∷ [] }

abbrev pub get_function : ℕ → Node → Option ℕ
get_function ft n = (members n).funcs ft

-- `!strcmp(child->name_, part)`. `make_path` makes no child without a name.
abbrev pub is_called : List ℕ → Members → Bool
is_called part m = elim m.name [ none ↦ false | some name ↦ same name part ]

-- The search of `make_path` for a child, from the siblings `before` on: the child, made at the end of
-- the list where there is none.
unfoldable pub child_at : Members → List ℕ → Nodes → Nodes → List Above → Place
unfolding new_node
child_at m part before nil above = record {
  focus = new_node (some part);
  above = record { parent = m; before = before; behind = nil } ∷ above;
}
child_at m part before (cons n ns) above =
    let later = child_at m part (cons n before) ns above in
    if is_called part (members n)
    then record { focus = n; above = record { parent = m; before = before; behind = ns } ∷ above }
    else later

abbrev pub enter : List ℕ → Place → Place
enter part p = child_at (members p.focus) part nil (children p.focus) p.above

unfoldable pub make_parts : List (List ℕ) → Place → Place
make_parts [] p = p
make_parts (part ∷ rest) p = make_parts rest (enter part p)

-- The parts of a path that `make_path` goes along.
abbrev pub path_parts : List ℕ → List (List ℕ)
path_parts name = parts (suc (suc (length name))) (init (some name) (some (47 ∷ [])))

-- For a name without parts the source returns an uninitialised pointer: none.
abbrev pub lead_to : List (List ℕ) → Place → Option Place
lead_to [] p = none
lead_to (part ∷ rest) p = some (make_parts rest (enter part p))

-- The node that `name` leads to.
unfoldable pub make_path : List ℕ → Place → Option Place
unfolding make_parts
make_path name p = lead_to (path_parts name) p

-- The loop of `get_fullname`: `first` while `a == this`.
unfoldable pub fullname_loop : Bool → List ℕ → List Members → List ℕ
fullname_loop first full [] = full
fullname_loop first full (m ∷ ms) = elim m.name [
  | none ↦ fullname_loop false full ms
  | some name ↦ fullname_loop false (name ++ (if first then full else 46 ∷ full)) ms
]

unfoldable pub get_fullname : Place → List ℕ
unfolding fullname_loop
get_fullname p = fullname_loop true [] (line p)

abbrev pub is_empty : {A : Type 0} → List A → Bool
is_empty [] = true
is_empty (x ∷ xs) = false

-- `children_ && children_->next_`
abbrev pub has_two : Nodes → Bool
has_two (cons n (cons n' ns)) = true
has_two (cons n nil) = false
has_two nil = false

unfoldable pub is_elidable : Node → Bool
is_elidable n =
    is_empty (members n).intercepts
    && (is_empty (members n).parameters
        && (not (
              is_some (get_function ft_before n)
              || (is_some (get_function ft_test n) || is_some (get_function ft_after n)))
            && not (has_two (children n))))

-- The loop of `detach_common`, down to the highest node that cannot be left out.
unfoldable pub descend : Node → List Above → Place
unfolding is_elidable
descend (node m nil) above = record { focus = node m nil; above = above }
descend (node m (cons n ns)) above =
    let deeper = descend n (record { parent = m; before = nil; behind = ns } ∷ above) in
    if is_elidable (node m (cons n ns))
    then deeper
    else record { focus = node m (cons n ns); above = above }

-- One step up from a leaf, where there is one.
abbrev pub keep_two : Node → List Above → Node
keep_two (node m nil) (a ∷ above) = close (node m nil) a
keep_two n above = n

-- What is detached: a tree of its own.
unfoldable pub detach_common : Place → Node
unfolding descend
detach_common p = let q = descend p.focus p.above in keep_two q.focus q.above

-- `push_front` for FT_BEFORE, `push_back` for the others.
unfoldable pub fixtures_loop : ℕ → List ℕ → List Members → List ℕ
fixtures_loop type fixtures [] = fixtures
fixtures_loop type fixtures (m ∷ ms) = elim (m.funcs type) [
  | none ↦ fixtures_loop type fixtures ms
  | some f ↦ fixtures_loop type (if type == ft_before then f ∷ fixtures else fixtures ++ f ∷ []) ms
]

unfoldable pub get_fixtures : ℕ → Place → List ℕ
unfolding fixtures_loop
get_fixtures type p = fixtures_loop type [] (line p)

abbrev pub assignments_of : Place → List Assignment
assignments_of p = create_assignments (map (λ m. m.parameters) (line p))

pub data Patch : Type 0 where
  installs uninstalls : Intercept → Patch
  deletes : Intercept → Patch

unfoldable pub all_intercepts : List Members → List Intercept
all_intercepts [] = []
all_intercepts (m ∷ ms) = m.intercepts ++ all_intercepts ms

unfoldable pub pre_run : Place → List Patch
unfolding all_intercepts
pre_run p = map installs (all_intercepts (line p))

unfoldable pub drop_dynamic : List Intercept → List Patch
drop_dynamic [] = []
drop_dynamic (i ∷ is) = uninstalls i ∷ deletes i ∷ drop_dynamic is

-- `dynamic_intercepts` is handed in; it is empty afterwards.
unfoldable pub post_run : List Intercept → Place → List Patch × List Intercept
unfolding all_intercepts drop_dynamic
post_run dynamic p = (map uninstalls (all_intercepts (line p)) ++ drop_dynamic dynamic, [])

abbrev pub or_else : Option Place → Option Place → Option Place
or_else none later = later
or_else (some p) later = some p

-- `find`, in preorder. `above` is what stands above the node.
unfoldable mutual
  pub find_from : List ℕ → Node → List Above → Option Place
  find_from nm (node m ns) above =
      let here : Place = record { focus = node m ns; above = above } in
      let found : Option Place = find_among nm m nil ns above in
      if is_some m.name && same (get_fullname here) nm then some here else found

  pub find_among : List ℕ → Members → Nodes → Nodes → List Above → Option Place
  find_among nm m before nil above = none
  find_among nm m before (cons n ns) above =
      let later : Option Place = find_among nm m (cons n before) ns above in
      or_else (find_from nm n (record { parent = m; before = before; behind = ns } ∷ above)) later

unfoldable pub find : List ℕ → Place → Option Place
find nm p = find_from nm p.focus p.above
