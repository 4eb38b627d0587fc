-- ===== src/Suite/Tree/Detach.antt =====
-- `detach_common` leaves out nodes above the tests, and no test.
use novaprova.Prelude.{
  ℕ, ◌≡◌, refl, ◌∙◌, true, Option, none, some, List, [], ◌∷◌, ◌++◌, append-nil, arith, Bool-cases,
  inl, inr,
}
use novaprova.Run.Types.{ft_test}
use novaprova.Suite.Tree.{
  Node, Nodes, node, nil, cons, Members, Above, put_before, is_elidable, descend, keep_two,
  detach_common,
}

abbrev option_list : {A : Type 0} → Option A → List A
option_list none = []
option_list (some x) = x ∷ []

-- The test functions of a subtree, in preorder.
unfoldable mutual
  pub tests : Node → List ℕ
  tests (node m ns) = option_list (m.funcs ft_test) ++ tests_among ns

  pub tests_among : Nodes → List ℕ
  tests_among nil = []
  tests_among (cons n ns) = tests n ++ tests_among ns

-- What stands above has no test but those below it.
abbrev IsBare : List Above → Type 0
IsBare [] = Unit {0}
IsBare (a ∷ above) = (a.parent.funcs ft_test ≡ none) × (a.before ≡ nil) × (a.behind ≡ nil)

elidable_test :
    (m : Members) (n : Node) (ns : Nodes)
    → is_elidable (node m (cons n ns)) ≡ true
    → (m.funcs ft_test ≡ none) × (ns ≡ nil)
unfolding is_elidable
elidable_test m n nil h = ground arith
elidable_test m n (cons n' ns) h = ground arith

descend-tests :
    (n : Node) (above : List Above)
    → IsBare above
    → tests (keep_two (descend n above).focus (descend n above).above) ≡ tests n
unfolding descend tests put_before
descend-tests (node m nil) [] bare = refl
descend-tests (node m nil) (a ∷ above) (no_test, no_before, no_behind) =
    simp (no_test, no_before, no_behind, append-nil)
descend-tests (node m (cons n ns)) above bare =
    elim (Bool-cases (is_elidable (node m (cons n ns)))) [
      | inl e ↦
          let (no_test, alone) = elidable_test m n ns e in
          rw e (
            descend-tests n (record { parent = m; before = nil; behind = ns } ∷ above)
              (no_test, refl, alone)
            ∙ simp (no_test, alone, append-nil))
      | inr e ↦ rw e
    ]

-- Detaching the common part of the tree from its root keeps every test function, in order.
pub detach_common-tests :
    (root : Node) → tests (detach_common (record { focus = root; above = [] })) ≡ tests root
unfolding detach_common
detach_common-tests root = descend-tests root [] tt
