-- ===== src/Run/Runner/Wait.antt =====
-- np/runner.cxx: `wait`, the rounds of `poll`, and the loop of `run_tests`.
use novaprova.Prelude.{
  ℕ, zero, suc, ◌+◌, Bool, Option, none, some, List, [], ◌∷◌, ◌++◌, map, ltb, ◌==◌, ◌&&◌, not,
  if◌then◌else◌,
}
use novaprova.Run.Child.{Child, Action, is_finished, handle_input, handle_hangup, handle_timeout}
use novaprova.Run.Runner.{
  with_acts, Entry, Runner, Act, acts, polls, count_running, poll_timeout, throttle, to_msec, fill,
  Forked,
}
use novaprova.Run.Runner.Reap.{Waited, reap_children, settle}

-- What poll reports for a child, POLLIN and POLLHUP.
pub record Revents : Type 0 where
  pub pollin : Bool
  pub pollhup : Bool

unfoldable pub handle_revents : Revents → Child → Child × List Action
unfolding handle_input handle_hangup
handle_revents v c =
    let (c', as_) = (if v.pollin then handle_input c else (c, [])) in
    ((if v.pollhup then (handle_hangup c').0 else c'), as_)

abbrev pub cons_ready :
    Entry → ℕ → List Act → (List Entry × ℕ) × List Act → (List Entry × ℕ) × List Act
cons_ready e k as_ ((es, n), more) = ((e ∷ es, k + n), as_ ++ more)

-- The loop over the children when some are ready, and how many finish. A finished child has no
-- place in `pfd_`.
unfoldable pub ready_loop : List Entry → List Revents → (List Entry × ℕ) × List Act
ready_loop [] vs = (([], 0), [])
ready_loop (e ∷ es) [] = ((e ∷ es, 0), [])
ready_loop (e ∷ es) (v ∷ vs) =
    let skipped = cons_ready e 0 [] (ready_loop es (v ∷ vs)) in
    let (c, as_) = handle_revents v e.child in
    let handled =
      cons_ready (record e { child = c }) (if is_finished c then 1 else 0) (map (acts e.job) as_)
        (ready_loop es vs) in
    if is_finished e.child then skipped else handled

-- What a poll at a time returns: an interruption by SIGCHLD, another error, no event up to a time,
-- or events. With what `waitpid` returns after an interruption, and for the children that are finished.
pub data Polled : Type 0 where
  interrupted : List Waited → List Waited → Polled
  error : Polled
  timed_out : ℕ → Polled
  ready : List Revents → List Waited → Polled

-- How `wait` ends: it returns, or it still waits, or an assertion fails.
pub data Waiting : Type 0 where
  returns : Runner → Waiting
  waits : Runner → Waiting
  aborts : Waiting

-- `dec` prints a number.
module _ (dec : ℕ → List ℕ) where
  -- The loop of `handle_timeout` over the children.
  unfoldable pub timeout_loop : ℕ → List Entry → List Entry × List Act
  unfolding handle_timeout
  timeout_loop end_ [] = ([], [])
  timeout_loop end_ (e ∷ es) =
      let (es', more) = timeout_loop end_ es in
      let (c, as_) = handle_timeout dec end_ e.child in
      if is_finished e.child
      then (e ∷ es', more)
      else (record e { child = c } ∷ es', map (acts e.job) as_ ++ more)

  -- The end of a round in which `n` children finished: the loop goes on while none did.
  unfoldable pub conclude : ℕ → List Waited → Runner → Waiting × List Act → Waiting × List Act
  conclude zero ws r again = again
  conclude (suc n) ws r again = elim (settle dec (suc n) ws r) [
    | none ↦ (waits r, [])
    | some (r', as_) ↦ (returns r', as_)
  ]

  -- The loop of `wait`, for a script of polls, each with the time before it.
  unfoldable pub wait_loop : List (ℕ × Polled) → ℕ → Runner → Waiting × List Act
  wait_loop [] nzeroes r = (waits r, [])
  wait_loop ((start, polled) ∷ script) nzeroes r =
      let (t, z) = throttle nzeroes (poll_timeout start r.children none) in
      let n = count_running r.children in
      let rest = wait_loop script z in
      let round : Waiting × List Act = elim polled [
        | interrupted ws ws' ↦ elim (reap_children dec ws 0 r) [
          | none ↦ (waits r, [])
          | some ((k, r', ws2), as_) ↦ with_acts as_ (conclude k ws' r' (rest r'))
        ]
        | error ↦ (returns r, [])
        | timed_out end_ ↦
            let (es, as_) = timeout_loop end_ r.children in
            with_acts as_ (rest (record r { children = es }))
        | ready vs ws ↦
            let ((es, k), as_) = ready_loop r.children vs in
            let r' = record r { children = es } in with_acts as_ (conclude k ws r' (rest r'))
      ] in
      if n == r.nrunning && ltb 0 n
      then with_acts (polls n (to_msec t) ∷ []) round
      else (aborts, [])

  unfoldable pub wait : List (ℕ × Polled) → Runner → Waiting × List Act
  wait script r = if r.nrunning == 0 then (returns r, []) else wait_loop script 0 r

  abbrev pub follow : Waiting × List Act → (Runner → Waiting × List Act) → Waiting × List Act
  follow (returns r, as_) f = with_acts as_ (f r)
  follow (waits r, as_) f = (waits r, as_)
  follow (aborts, as_) f = (aborts, as_)

  -- The loop of `run_tests`, for a script of each call of `wait`.
  unfoldable pub run_loop : List (List (ℕ × Polled)) → List Forked → Runner → Waiting × List Act
  run_loop [] fs r =
      let ((r', fs'), as_) = fill fs r in (if r'.nrunning == 0 then returns r' else waits r', as_)
  run_loop (script ∷ scripts) fs r =
      let ((r', fs'), as_) = fill fs r in
      let waited = follow (wait script r') (run_loop scripts fs') in
      if r'.nrunning == 0 then (returns r', as_) else with_acts as_ waited

  -- The children that are left are reaped: `nfailed_`, as the answer.
  unfoldable pub run_end : List Waited → Runner → Option (Bool × Runner × List Act)
  run_end ws r =
      let reaped : Option (Bool × Runner × List Act) = elim (reap_children dec ws 0 r) [
        | none ↦ none
        | some ((n, r', ws'), as_) ↦ some (not (r'.nfailed == 0), r', as_)
      ] in
      elim r.children [ [] ↦ some (not (r.nfailed == 0), r, []) | e ∷ es ↦ reaped ]
