-- ===== src/Run/Types.antt =====
-- np/types.hxx and np/types.cxx. The enumerations are their values, since the proxy protocol sends
-- them as unsigned integers and casts back what it receives without a check.
use novaprova.Prelude.{ℕ, ◌≤◌, ◌<◌, ◌↔◌, List, [], ◌∷◌, arith, ltb, ◌==◌, if◌then◌else◌, All}
use novaprova.Prelude.Bytes.{codes}

-- enum result_t
abbrev pub r_unknown : ℕ
r_unknown = 0

abbrev pub r_pass : ℕ
r_pass = 1

abbrev pub r_notapplicable : ℕ
r_notapplicable = 2

abbrev pub r_fail : ℕ
r_fail = 3

unfoldable pub merge : ℕ → ℕ → ℕ
merge r1 r2 = if ltb r2 r1 then r1 else r2

-- enum functype_t
abbrev pub ft_unknown : ℕ
ft_unknown = 0

abbrev pub ft_before : ℕ
ft_before = 1

abbrev pub ft_test : ℕ
ft_test = 2

abbrev pub ft_after : ℕ
ft_after = 3

abbrev pub ft_mock : ℕ
ft_mock = 4

abbrev pub ft_param : ℕ
ft_param = 5

unfoldable pub as_string : ℕ → List ℕ
as_string type =
    if type == ft_unknown
    then codes "unknown"
    else if type == ft_before
    then codes "before"
    else if type == ft_test
    then codes "test"
    else if type == ft_after
    then codes "after"
    else if type == ft_mock
    then codes "mock"
    else if type == ft_param
    then codes "param"
    else codes "INTERNAL ERROR!"

-- The results of one test, merged one after the other.
unfoldable pub merge_all : ℕ → List ℕ → ℕ
merge_all r [] = r
merge_all r (s ∷ rs) = merge_all (merge r s) rs

-- A test fails exactly when one of the results that are merged is a failure or above.
pub merge_all-lt_fail :
    (r : ℕ) (rs : List ℕ) → (merge_all r rs < r_fail) ↔ ((r < r_fail) × All (λ s. s < r_fail) rs)
unfolding merge_all merge
merge_all-lt_fail r [] = ground arith
merge_all-lt_fail r (s ∷ rs) = ground (arith, merge_all-lt_fail (merge r s) rs)

-- The merged result is the greatest of the results, in whatever order they come.
pub merge_all-le : (m r : ℕ) (rs : List ℕ) → (merge_all r rs ≤ m) ↔ ((r ≤ m) × All (λ s. s ≤ m) rs)
unfolding merge_all merge
merge_all-le m r [] = ground arith
merge_all-le m r (s ∷ rs) = ground (arith, merge_all-le m (merge r s) rs)
