-- ===== src/Suite/Tree/Preorder.antt =====
-- `preorder_iterator` goes through the nodes of a subtree in preorder, and `find` finds the first of
-- them that has the name.
use novaprova.Prelude.{
  ℕ, zero, suc, ◌+◌, ◌≡◌, refl, sym, ap, Option, none, some, List, [], ◌∷◌, ◌++◌, append-nil,
  append_assoc, arith, ◌&&◌, if◌then◌else◌, length, length-append,
}
use novaprova.Util.FileName.{same}
use novaprova.Suite.Tree.{
  Node, Nodes, node, nil, cons, Members, Above, Place, members, close, put_before, find, find_from,
  find_among, or_else, get_fullname, is_some,
}
use novaprova.Suite.Tree.Iterator.{Cursor, begin_at, place_of, climb, advance_node, next_node}

-- The nodes of a subtree in preorder, each as the iterator's state at it.
unfoldable mutual
  pub nodes_at : Node → List Above → List Above → List Cursor
  nodes_at (node m ns) inside outside =
      record { focus = node m ns; inside = inside; outside = outside }
      ∷ nodes_among m nil ns inside outside

  pub nodes_among : Members → Nodes → Nodes → List Above → List Above → List Cursor
  nodes_among m before nil inside outside = []
  nodes_among m before (cons n ns) inside outside =
      nodes_at n (record { parent = m; before = before; behind = ns } ∷ inside) outside
      ++ nodes_among m (cons n before) ns inside outside

unfoldable pub preorder : Place → List Cursor
preorder p = nodes_at p.focus [] p.above

-- What comes behind a subtree.
pub after : Node → List Above → List Above → List Cursor
after n [] outside = []
after n (a ∷ inside) outside =
    nodes_among a.parent (cons n a.before) a.behind inside outside
    ++ after (close n a) inside outside

abbrev pub remaining : Cursor → List Cursor
remaining c = nodes_at c.focus c.inside c.outside ++ after c.focus c.inside c.outside

abbrev pub IsRest : List Cursor → Option Cursor → Type 0
IsRest cs none = cs ≡ []
IsRest cs (some c) = cs ≡ remaining c

climb_step :
    (n : Node) (m : Members) (before behind : Nodes) (inside outside : List Above)
    → let a : Above = record { parent = m; before = before; behind = behind } in
      IsRest (after (close n a) inside outside) (climb (close n a) inside outside)
      → IsRest (after n (a ∷ inside) outside) (climb n (a ∷ inside) outside)
unfolding climb after nodes_among put_before
climb_step n m before nil inside outside h = h
climb_step n m before (cons next later) inside outside h =
    let a : Above = record { parent = m; before = cons n before; behind = later } in
    append_assoc (nodes_at next (a ∷ inside) outside)
      (nodes_among m (cons next (cons n before)) later inside outside)
      (after (close next a) inside outside)

climb-IsRest :
    (inside : List Above) (n : Node) (outside : List Above)
    → IsRest (after n inside outside) (climb n inside outside)
unfolding climb after
climb-IsRest [] n outside = refl
climb-IsRest (a ∷ inside) n outside =
    climb_step n a.parent a.before a.behind inside outside (climb-IsRest inside (close n a) outside)

-- The nodes that remain are this one, and those that remain at the next.
pub next_node-remaining :
    (n : Node) (inside outside : List Above)
    → let c : Cursor = record { focus = n; inside = inside; outside = outside } in
      (rest : List Cursor) × (remaining c ≡ c ∷ rest) × IsRest rest (next_node c)
unfolding next_node advance_node nodes_at after put_before
next_node-remaining (node m nil) inside outside =
    (after (node m nil) inside outside, refl, climb-IsRest inside (node m nil) outside)
next_node-remaining (node m (cons n ns)) inside outside = (
  nodes_among m nil (cons n ns) inside outside ++ after (node m (cons n ns)) inside outside,
  refl,
  append_assoc (nodes_at n (record { parent = m; before = nil; behind = ns } ∷ inside) outside)
      (nodes_among m (cons n nil) ns inside outside) (after (node m (cons n ns)) inside outside),
)

-- A loop `for (i = preorder_begin() ; i != preorder_end() ; ++i)`, of `rounds` rounds at most.
unfoldable pub walk : ℕ → Option Cursor → List Cursor
walk zero o = []
walk (suc rounds) none = []
walk (suc rounds) (some c) = c ∷ walk rounds (next_node c)

unfoldable mutual
  pub count_nodes : Node → ℕ
  count_nodes (node m ns) = suc (count_all ns)

  pub count_all : Nodes → ℕ
  count_all nil = 0
  count_all (cons n ns) = count_nodes n + count_all ns

mutual
  unfolding nodes_at count_nodes

  length-nodes_at :
      (n : Node) (inside outside : List Above) → length (nodes_at n inside outside) ≡ count_nodes n
  length-nodes_at (node m ns) inside outside = ap suc (length-nodes_among m nil ns inside outside)

  length-nodes_among :
      (m : Members) (before ns : Nodes) (inside outside : List Above)
      → length (nodes_among m before ns inside outside) ≡ count_all ns
  length-nodes_among m before nil inside outside = refl
  length-nodes_among m before (cons n ns) inside outside =
      let a : Above = record { parent = m; before = before; behind = ns } in
      omega (
        arith,
        length-append (nodes_at n (a ∷ inside) outside)
            (nodes_among m (cons n before) ns inside outside),
        length-nodes_at n (a ∷ inside) outside,
        length-nodes_among m (cons n before) ns inside outside,
      )

-- The first node of a list that `find(nm)` accepts.
unfoldable pub first_named : List ℕ → List Cursor → Option Place
first_named nm [] = none
first_named nm (c ∷ cs) =
    let rest = first_named nm cs in
    if is_some (members c.focus).name && same (get_fullname (place_of c)) nm
    then some (place_of c)
    else rest

first_named-append :
    (nm : List ℕ) (xs ys : List Cursor)
    → first_named nm (xs ++ ys) ≡ or_else (first_named nm xs) (first_named nm ys)
unfolding first_named
first_named-append nm [] ys = refl
first_named-append nm (x ∷ xs) ys = ground (arith, first_named-append nm xs ys)

mutual
  unfolding find_from nodes_at first_named

  find_from-first_named :
      (nm : List ℕ) (n : Node) (inside outside : List Above)
      → find_from nm n (inside ++ outside) ≡ first_named nm (nodes_at n inside outside)
  find_from-first_named nm (node m ns) inside outside =
      ground (arith, find_among-first_named nm m nil ns inside outside)

  find_among-first_named :
      (nm : List ℕ) (m : Members) (before ns : Nodes) (inside outside : List Above)
      → find_among nm m before ns (inside ++ outside)
        ≡ first_named nm (nodes_among m before ns inside outside)
  find_among-first_named nm m before nil inside outside = refl
  find_among-first_named nm m before (cons n ns) inside outside =
      let a : Above = record { parent = m; before = before; behind = ns } in
      rw (
        first_named-append nm (nodes_at n (a ∷ inside) outside)
            (nodes_among m (cons n before) ns inside outside),
        ← find_from-first_named nm n (a ∷ inside) outside,
        ← find_among-first_named nm m (cons n before) ns inside outside,
      )

-- `find` gives the first node of the subtree, in preorder, that has a name and the full name asked
-- for, and nothing where none has.
pub find-first_named : (nm : List ℕ) (p : Place) → find nm p ≡ first_named nm (preorder p)
unfolding find preorder
find-first_named nm p = find_from-first_named nm p.focus [] p.above

pub length-preorder : (p : Place) → length (preorder p) ≡ count_nodes p.focus
unfolding preorder
length-preorder p = length-nodes_at p.focus [] p.above

pub begin-IsRest : (p : Place) → IsRest (preorder p) (some (begin_at p))
unfolding preorder after
begin-IsRest p = sym (append-nil (nodes_at p.focus [] p.above))
