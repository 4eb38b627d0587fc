-- ===== src/Tests/Suite.antt =====
-- Inputs for Suite: np/testnode.cxx and plan.cxx.
use novaprova.Prelude.{suc, ◌≡◌, ◌==◌, refl, none, some, [], ◌∷◌, length, arith, if◌then◌else◌}
use novaprova.Prelude.Bytes.{codes}
use novaprova.Run.Types.{ft_before, ft_test}
use novaprova.Util.Tok.{parts, next, init, strtok_r, skip_seps, drop_run, take_run}
use novaprova.Util.FileName.{same}
use novaprova.Suite.Tree.{
  child_at, find_from, Members, node, nil, cons, Place, make_path, get_fullname, fullname_loop,
  detach_common, find, new_node,
}
use novaprova.Suite.Tree.Iterator.{next_node, advance_node, climb, begin_at}
use novaprova.Suite.Tree.Preorder.{preorder, nodes_at, walk, first_named, find-first_named}
use novaprova.Suite.Tree.Detach.{tests, detach_common-tests}
use novaprova.Run.Assignment.{create_assignments}
use novaprova.Suite.Plan.Vectors.{vectors_from}
use novaprova.Suite.Plan.{begin, visits}
use novaprova.Suite.Plan.Visits.{tests_of, ending_of, visits-tests_of}

abbrev empty_root : Place
empty_root = record { focus = new_node none; above = [] }

abbrev first_test : Place
first_test = record {
  focus =
      node
        (record {
          name = some (codes "one");
          funcs = λ ft. if ft == ft_test then some 11 else none;
          intercepts = [];
          parameters = record { name = codes "p"; values = codes "x" ∷ codes "y" ∷ [] } ∷ [];
        })
        nil;
  above = [];
}

abbrev suite : Members
suite = record {
  name = some (codes "suite");
  funcs = λ ft. if ft == ft_before then some 7 else none;
  intercepts = [];
  parameters = [];
}

abbrev second : Members
second = record {
  name = some (codes "two");
  funcs = λ ft. if ft == ft_test then some 12 else none;
  intercepts = [];
  parameters = [];
}

abbrev bare : Members
bare = record { name = none; funcs = λ ft. none; intercepts = []; parameters = [] }

-- A root, a suite below it, and two tests in the suite.
abbrev root : Place
root = record {
  focus = node bare (cons (node suite (cons first_test.focus (cons (node second nil) nil))) nil);
  above = [];
}

-- The second test of the suite.
abbrev pub second_test : Place
second_test = record {
  focus = node second nil;
  above =
      record { parent = suite; before = cons first_test.focus nil; behind = nil }
      ∷ record { parent = bare; before = nil; behind = nil }
      ∷ [];
}

four_nodes : length (walk 9 (some (begin_at root))) ≡ 4
unfolding walk next_node advance_node climb
four_nodes = refl

find-first_named_example :
    find (codes "suite.two") root ≡ first_named (codes "suite.two") (preorder root)
find-first_named_example = find-first_named (codes "suite.two") root

found_there : find (codes "suite.two") root ≡ some second_test
unfolding find find_from get_fullname fullname_loop same
found_there = refl

detach_common-tests_example : tests (detach_common root) ≡ tests root.focus
detach_common-tests_example = detach_common-tests root.focus

two_tests : tests root.focus ≡ 11 ∷ 12 ∷ []
unfolding tests
two_tests = refl

visits-tests_of_example :
    visits (suc (length (tests_of (preorder root)))) (begin (root ∷ []))
    ≡ (tests_of (preorder root), ending_of [])
unfolding preorder nodes_at create_assignments
visits-tests_of_example = visits-tests_of root [] (tt, (tt, ((omega arith, tt), (tt, tt))))

three_visits : length (tests_of (preorder root)) ≡ 3
unfolding tests_of preorder nodes_at vectors_from create_assignments
three_visits = refl

made : make_path (codes "suite/two") root ≡ some second_test
unfolding make_path parts next init strtok_r skip_seps drop_run take_run child_at same
made = refl
