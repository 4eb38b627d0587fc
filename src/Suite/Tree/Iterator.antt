-- ===== src/Suite/Tree/Iterator.antt =====
-- np/testnode.hxx and testnode.cxx: `testnode_t::preorder_iterator`.
use novaprova.Prelude.{Option, none, some, List, [], ◌∷◌, ◌++◌}
use novaprova.Suite.Tree.{Node, node, nil, cons, Above, Place, close}

-- `preorder_iterator`: `inside` is what stands between `node_` and `base_`, so it is empty at
-- `base_`; `outside` is what stands above `base_`. A null `node_` is none.
pub record Cursor : Type 0 where
  pub focus : Node
  pub inside : List Above
  pub outside : List Above

abbrev pub begin_at : Place → Cursor
begin_at p = record { focus = p.focus; inside = []; outside = p.above }

abbrev pub place_of : Cursor → Place
place_of c = record { focus = c.focus; above = c.inside ++ c.outside }

-- The loop up and across.
unfoldable pub climb : Node → List Above → List Above → Option Cursor
climb n [] outside = none
climb n (a ∷ inside) outside =
    let up = climb (close n a) inside outside in
    elim a.behind [
      | nil ↦ up
      | cons next later ↦ some (record {
        focus = next;
        inside = record a { before = cons n a.before; behind = later } ∷ inside;
        outside = outside;
      })
    ]

unfoldable pub advance_node : Node → List Above → List Above → Option Cursor
unfolding climb
advance_node (node m nil) inside outside = climb (node m nil) inside outside
advance_node (node m (cons n ns)) inside outside = some (record {
  focus = n;
  inside = record { parent = m; before = nil; behind = ns } ∷ inside;
  outside = outside;
})

-- `operator++`
unfoldable pub next_node : Cursor → Option Cursor
unfolding advance_node
next_node c = advance_node c.focus c.inside c.outside
