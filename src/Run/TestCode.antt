-- ===== src/Run/TestCode.antt =====
-- np/runner.cxx: what the child process does, `run_test_code` and the functions that it calls.
-- The functions of the test are not the library's: `invoke` runs one on the state of the process,
-- of a type of its own, and says what events it raised and how it ended. What the library does is a
-- list of steps, in order. A failed assertion, and a call through a null pointer, end the process.
pub mod Judged
pub mod Verdict
pub mod Silent
pub mod Order
use novaprova.Prelude.{
  ℕ, zero, suc, ◌+◌, ◌%◌, ◌^◌, max, Bool, true, false, Option, none, some, List, [], ◌∷◌, ◌++◌, map,
  ◌==◌, if◌then◌else◌, length, get_or, take,
}
use novaprova.Prelude.Bytes.{codes}
use novaprova.Run.Types.{merge, r_unknown, r_pass, ft_before, ft_test, ft_after}
use novaprova.Run.Event.{Event, SpiegelFunction, no_event, in_functype, in_spiegel_function}
use novaprova.Run.Proxy.{raise_event}
use novaprova.Run.Assignment.{Assignment}
use novaprova.Suite.Tree.{
  Place, Intercept, Patch, is_empty, get_function, get_fixtures, pre_run, post_run,
}
use novaprova.Util.FileName.{same}

-- How a function ends: with `np_throw`, or with a value of type void, long long or another.
pub data Outcome : Type 0 where
  threw : Event → Outcome
  void : Outcome
  signed_long_long : ℕ → Outcome
  other : Outcome

pub record Invoked : Type 0 where
  pub raised : List Event
  pub outcome : Outcome

-- `raises` hands an event to the listeners, as `raise_event` normalises it.
pub data Step : Type 0 where
  applies unapplies : Assignment → Step
  patches : Patch → Step
  calls : ℕ → Step
  raises : Event → Step

-- What a part of the code does: its steps, its answer, none if the process ended, and the state.
abbrev pub M : Type 0 → Type 0 → Type 0
M W A = W → List Step × Option A × W

abbrev pub after : {W A : Type 0} → List Step → List Step × Option A × W → List Step × Option A × W
after steps (more, o, w) = (steps ++ more, o, w)

abbrev pub and_then :
    {W A B : Type 0} → List Step × Option A × W → (A → M W B) → List Step × Option B × W
and_then (steps, none, w) f = (steps, none, w)
and_then (steps, some a, w) f = after steps (f a w)

infixl 5 ◌>>=◌
abbrev pub ◌>>=◌ : {W A B : Type 0} → M W A → (A → M W B) → M W B
◌>>=◌ m f w = and_then (m w) f

abbrev pub return : {W A : Type 0} → A → M W A
return a w = ([], some a, w)

-- The steps alone.
abbrev pub does : {W A : Type 0} → List Step → A → M W A
does steps a w = (steps, some a, w)

-- `merge(res, raise_event(j, ev))`
unfoldable pub merge_event : {W : Type 0} → ℕ → Event → M W ℕ
unfolding merge raise_event
merge_event res ev = does (raises (raise_event ev).0 ∷ []) (merge res (raise_event ev).1)

-- The end of `np_try`: an event that was thrown.
unfoldable pub catch : {W : Type 0} → ℕ → ℕ → Option Event → M W ℕ
unfolding merge_event
catch type res none = return res
catch type res (some ev) = merge_event res (in_functype type ev)

abbrev pub asks : {W A : Type 0} → (W → A) → M W A
asks f w = ([], some (f w), w)

-- What is not the library's: the functions of the test on the state of the process, the open files,
-- the counts of valgrind, none without it, the intercepts that the test installed itself, the names
-- of a function, and the printing of numbers.
pub record Process (W : Type 0) : Type 0 where
  pub invoke : ℕ → W → Invoked × W
  pub get_file_descriptors : W → List (List ℕ)
  pub valgrind : W → Option (ℕ × ℕ)
  pub dynamic_intercepts : W → List Intercept
  pub spiegel : ℕ → SpiegelFunction
  pub signed : ℕ → List ℕ
  pub unsigned : ℕ → List ℕ

abbrev pub leaked_text : List ℕ
leaked_text = codes " bytes of memory leaked"

abbrev pub error_text : List ℕ
error_text = codes " unsuppressed errors found by valgrind"

-- An event that is thrown ends a loop.
abbrev pub unless_thrown : {W : Type 0} → Option Event → M W (Option Event) → M W (Option Event)
unless_thrown none m = m
unless_thrown (some ev) m = return (some ev)

module _ {W : Type 0} (os : Process W) where
  unfoldable pub fixture_event : ℕ → ℕ → Event
  fixture_event f r =
      in_spiegel_function (os.spiegel f) (record no_event {
        which = 5;
        description = some (codes "fixture returned " ++ os.signed r);
      })

  -- `run_function` from the outcome on: the event that it throws. `int r` keeps 32 bits.
  unfoldable pub check_outcome : ℕ → ℕ → Outcome → Option (Option Event)
  unfolding fixture_event
  check_outcome type f (threw ev) = some (some ev)
  check_outcome type f void = if type == ft_test then some none else none
  check_outcome type f (signed_long_long v) =
      if type == ft_test
      then none
      else some (if v % 2 ^ 32 == 0 then none else some (fixture_event f (v % 2 ^ 32)))
  check_outcome type f other = none

  unfoldable pub run_function : ℕ → ℕ → M W (Option Event)
  unfolding check_outcome raise_event
  run_function type f w =
      let (i, w') = os.invoke f w in
      (calls f ∷ map (λ ev. raises (raise_event ev).0) i.raised, check_outcome type f i.outcome, w')

  -- The loop of `run_fixtures`, which an event that is thrown leaves.
  unfoldable pub run_functions : ℕ → List ℕ → M W (Option Event)
  unfolding run_function
  run_functions type [] = return none
  run_functions type (f ∷ fs) =
      run_function type f >>= λ thrown. unless_thrown thrown (run_functions type fs)

  unfoldable pub run_fixtures : Place → ℕ → M W (Option Event)
  unfolding run_functions
  run_fixtures p type = run_functions type (get_fixtures type p)

  -- The loop of `descriptor_leaks` from `fd` on; `rounds` are left. The message keeps 1023 bytes.
  unfoldable pub leak_event : ℕ → List ℕ → List ℕ → Event
  leak_event fd pre post = record no_event {
    which = 12;
    description = some (
        take 1023 (
          if is_empty post
          then codes "test closed file descriptor "
            ++ (os.unsigned fd ++ (codes " -> " ++ (pre ++ 10 ∷ [])))
          else if is_empty pre
          then codes "test leaked file descriptor "
            ++ (os.unsigned fd ++ (codes " -> " ++ (post ++ 10 ∷ [])))
          else codes "test reopened file descriptor "
            ++ (os.unsigned fd ++ (codes " -> " ++ (pre ++ (codes " as " ++ (post ++ 10 ∷ [])))))));
  }

  unfoldable pub leaks_loop : ℕ → ℕ → List (List ℕ) → List (List ℕ) → ℕ → M W ℕ
  unfolding leak_event merge_event
  leaks_loop zero fd prefds postfds res = return res
  leaks_loop (suc rounds) fd prefds postfds res =
      let pre = get_or prefds fd [] in
      let post = get_or postfds fd [] in
      let next = leaks_loop rounds (suc fd) prefds postfds in
      if same pre post then next res else (merge_event res (leak_event fd pre post) >>= next)

  unfoldable pub descriptor_leaks : List (List ℕ) → List (List ℕ) → ℕ → M W ℕ
  unfolding leaks_loop
  descriptor_leaks prefds postfds =
      leaks_loop (max (length prefds) (length postfds)) 0 prefds postfds

  -- Without valgrind there is no report; with it, the bytes leaked and the errors counted.
  unfoldable pub valgrind_event : List ℕ → Event
  valgrind_event text = record no_event { which = 9; description = some text }

  unfoldable pub report : ℕ → List ℕ → ℕ → M W ℕ
  unfolding valgrind_event merge_event
  report count text res =
      if count == 0
      then return res
      else merge_event res (valgrind_event (os.unsigned count ++ text))

  unfoldable pub valgrind_errors : Option (ℕ × ℕ) → ℕ → M W ℕ
  unfolding report
  valgrind_errors none res = return res
  valgrind_errors (some (leaked, nerrors)) res = do
    res ← report leaked leaked_text res
    report nerrors error_text res

  -- `run_function(FT_TEST, tn->get_function(FT_TEST))`
  unfoldable pub run_test : Option ℕ → M W (Option Event)
  unfolding run_function
  run_test none w = ([], none, w)
  run_test (some f) w = run_function ft_test f w

  -- The part of `run_test_code` under `if (res == R_UNKNOWN)`.
  unfoldable pub run_body : Place → ℕ → M W ℕ
  unfolding run_test run_fixtures catch merge
  run_body p res = do
    thrown ← run_test (get_function ft_test p.focus)
    res ← catch ft_test res thrown
    thrown ← run_fixtures p ft_after
    res ← catch ft_after res thrown
    return (merge res r_pass)

  unfoldable pub run_tries : Place → M W ℕ
  unfolding run_body
  run_tries p = do
    thrown ← run_fixtures p ft_before
    res ← catch ft_before r_unknown thrown
    if res == r_unknown then run_body p res else return res

  -- `job_t::pre_run(false)` and `post_run(false)`
  unfoldable pub job_pre_run : Place → List Assignment → M W ℕ
  unfolding pre_run
  job_pre_run p assigns = does (map applies assigns ++ map patches (pre_run p)) 0

  unfoldable pub job_post_run : Place → List Assignment → M W ℕ
  unfolding post_run
  job_post_run p assigns w =
      (map patches (post_run (os.dynamic_intercepts w) p).0 ++ map unapplies assigns, some 0, w)

  -- `run_test_code` behind the tests.
  unfoldable pub finish : Place → List Assignment → List (List ℕ) → ℕ → M W ℕ
  unfolding job_post_run descriptor_leaks valgrind_errors
  finish p assigns prefds res = do
    done ← job_post_run p assigns
    postfds ← asks os.get_file_descriptors
    res ← descriptor_leaks prefds postfds res
    counts ← asks os.valgrind
    valgrind_errors counts res

  unfoldable pub run_test_code : Place → List Assignment → M W ℕ
  unfolding run_tries job_pre_run finish
  run_test_code p assigns = do
    done ← job_pre_run p assigns
    prefds ← asks os.get_file_descriptors
    res ← run_tries p
    finish p assigns prefds res
