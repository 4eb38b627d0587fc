-- ===== src/Suite/Tree/Fixtures.antt =====
-- The order of fixtures.
use novaprova.Prelude.{
  ℕ, ◌≡◌, sym, ◌∙◌, none, some, List, [], ◌∷◌, ◌++◌, append-nil, append_assoc, arith, ◌==◌,
  if◌then◌else◌, Option-cases, Bool-cases, inl, inr,
}
use mathlib.Core.List.{reverse, reverse-cons}
use novaprova.Run.Types.{ft_before}
use novaprova.Suite.Tree.{Members, Place, line, fixtures_loop, get_fixtures}

-- The functions of a type on the way from a node to the root.
unfoldable pub funcs_along : ℕ → List Members → List ℕ
funcs_along type [] = []
funcs_along type (m ∷ ms) = elim (m.funcs type) [
  | none ↦ funcs_along type ms
  | some f ↦ f ∷ funcs_along type ms
]

placed :
    (type f : ℕ) (done fs : List ℕ)
    → (if type == ft_before
        then reverse fs ++ (if type == ft_before then f ∷ done else done ++ f ∷ [])
        else (if type == ft_before then f ∷ done else done ++ f ∷ []) ++ fs)
      ≡ (if type == ft_before then reverse (f ∷ fs) ++ done else done ++ f ∷ fs)
placed type f done fs = elim (Bool-cases (type == ft_before)) [
  | inl e ↦ rw (e, reverse-cons) (sym (append_assoc (reverse fs) (f ∷ []) done))
  | inr e ↦ rw e (append_assoc done (f ∷ []) fs)
]

loop-funcs_along :
    (type : ℕ) (done : List ℕ) (ms : List Members)
    → fixtures_loop type done ms ≡ (
        if type == ft_before
        then reverse (funcs_along type ms) ++ done
        else done ++ funcs_along type ms)
unfolding fixtures_loop funcs_along
loop-funcs_along type done [] = ground (arith, append-nil done)
loop-funcs_along type done (m ∷ ms) = elim (Option-cases (m.funcs type)) [
  | inl e ↦ rw (e, fixtures_loop, funcs_along) (loop-funcs_along type done ms)
  | inr (f, e) ↦
      rw (e, fixtures_loop, funcs_along)
        (rw (loop-funcs_along type (if type == ft_before then f ∷ done else done ++ f ∷ []) ms)
          (placed type f done (funcs_along type ms)))
]

-- FT_BEFORE functions run from the root in to the node, the others from the node out to the root.
pub get_fixtures_order :
    (type : ℕ) (p : Place)
    → get_fixtures type p ≡ (
        if type == ft_before
        then reverse (funcs_along type (line p))
        else funcs_along type (line p))
unfolding get_fixtures
get_fixtures_order type p =
    loop-funcs_along type [] (line p)
    ∙ ground (arith, append-nil (reverse (funcs_along type (line p))))
