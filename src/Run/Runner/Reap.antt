-- ===== src/Run/Runner/Reap.antt =====
-- np/runner.cxx: `reap_children`, and the loop of `wait` that reaps the finished children.
use novaprova.Prelude.{
  ℕ, zero, suc, ◌+◌, ◌-◌, ◌%◌, ◌^◌, Bool, false, Option, none, some, List, [], ◌∷◌, ◌++◌, ◌==◌,
  ◌||◌, if◌then◌else◌, length,
}
use novaprova.Prelude.Bytes.{codes}
use novaprova.Run.Types.{r_pass, r_fail}
use novaprova.Run.Event.{Event, no_event}
use novaprova.Run.Proxy.{raise_event}
use novaprova.Run.Child.{Action, is_finished, merge_result, handle_hangup}
use novaprova.Run.Runner.{Entry, Runner, Act, acts, ends}

-- WIFEXITED with WEXITSTATUS, or WIFSIGNALED with WTERMSIG.
pub data Status : Type 0 where
  exited signaled : ℕ → Status

-- What `waitpid` returns: 0, an error, or a process that has stopped, exited or died by a signal.
pub data Waited : Type 0 where
  nothing no_child failed : Waited
  stopped : ℕ → Waited
  ended : ℕ → Status → Waited

-- The first child with the process id, and those before and behind it.
unfoldable pub find_pid : ℕ → List Entry → Option (List Entry × Entry × List Entry)
find_pid pid [] = none
find_pid pid (e ∷ es) =
    let rest : Option (List Entry × Entry × List Entry) = elim (find_pid pid es) [
      | none ↦ none
      | some (before, found, behind) ↦ some (e ∷ before, found, behind)
    ] in
    if e.child.pid == pid then some ([], e, es) else rest

-- An entry after `waitpid`, with what it adds to `num_finished`.
abbrev pub Taken : Type 0
Taken = (Entry × ℕ) × List Act

-- The end of a child: its result is merged with R_PASS and counted, and it is taken off the list.
unfoldable pub detach : List Entry → Entry → List Entry → Runner → Runner × List Act
unfolding merge_result
detach before e behind r =
    let result = (merge_result r_pass e.child).result in
    (
      record r {
        nfailed = (r.nfailed + (if result == r_fail then 1 else 0)) % 2 ^ 32;
        nrun = (r.nrun + 1) % 2 ^ 32;
        children = before ++ behind;
      },
      ends e.job result ∷ [],
    )

-- `find_finished_child() != 0`
unfoldable pub any_finished : List Entry → Bool
any_finished [] = false
any_finished (e ∷ es) = is_finished e.child || any_finished es

abbrev pub Reaped : Type 0
Reaped = (ℕ × Runner × List Waited) × List Act

abbrev pub behind_acts : {A : Type 0} → List Act → Option (A × List Act) → Option (A × List Act)
behind_acts as_ none = none
behind_acts as_ (some (a, more)) = some (a, as_ ++ more)

abbrev pub reap_rest :
    Option Reaped → (List Waited → Runner → Option (Runner × List Act)) → Option (Runner × List Act)
reap_rest none rest = none
reap_rest (some ((n, r, ws), as_)) rest = behind_acts as_ (rest ws r)

-- `dec` prints a number.
module _ (dec : ℕ → List ℕ) where
  unfoldable pub exit_event : ℕ → ℕ → Event
  exit_event pid status = record no_event {
    which = 2;
    description =
        some (codes "child process " ++ (dec pid ++ (codes " exited with " ++ dec status)));
  }

  unfoldable pub signal_event : ℕ → ℕ → Event
  signal_event pid signal = record no_event {
    which = 3;
    description =
        some (codes "child process " ++ (dec pid ++ (codes " died on signal " ++ dec signal)));
  }

  -- `child->merge_result(raise_event(child->get_job(), &ev))`
  unfoldable pub merge_event : Event → Entry → Entry × List Act
  unfolding merge_result raise_event
  merge_event ev e = (
    record e { child = merge_result (raise_event ev).1 e.child },
    acts e.job (Action.raises (raise_event ev).0) ∷ [],
  )

  -- What the status makes of a child, and what it adds to `num_finished`.
  unfoldable pub take_status : Status → Entry → Taken
  unfolding merge_event exit_event signal_event handle_hangup
  take_status (exited zero) e = ((e, 0), [])
  take_status (exited (suc status)) e =
      let (e', as_) = merge_event (exit_event e.child.pid (suc status)) e in ((e', 1), as_)
  take_status (signaled signal) e =
      let (e', as_) = merge_event (signal_event e.child.pid signal) e in
      ((record e' { child = (handle_hangup e'.child).0 }, 1), as_)

  -- The loop of `reap_children`: the number finished, and what is left of the script.
  unfoldable pub reap_children : List Waited → ℕ → Runner → Option Reaped
  unfolding take_status detach find_pid
  reap_children [] n r = none
  reap_children (nothing ∷ ws) n r = some ((n, r, ws), [])
  reap_children (no_child ∷ ws) n r = some ((n, r, ws), [])
  reap_children (failed ∷ ws) n r = some ((n, r, ws), [])
  reap_children (stopped pid ∷ ws) n r = reap_children ws n r
  reap_children (ended pid status ∷ ws) n r = elim (find_pid pid r.children) [
    | none ↦ reap_children ws n r
    | some (before, e, behind) ↦
        let ((e', k), as_) = take_status status e in
        let (r', more) = detach before e' behind r in
        behind_acts (as_ ++ more) (reap_children ws (n + k) r')
  ]

  -- `while ((child = find_finished_child()) != 0)`: each round takes something of the script.
  unfoldable pub reap_finished : ℕ → List Waited → Runner → Option (Runner × List Act)
  unfolding reap_children
  reap_finished zero ws r = none
  reap_finished (suc rounds) ws r =
      let go = reap_rest (reap_children ws 0 r) (reap_finished rounds) in
      if any_finished r.children then go else some (r, [])

  -- The end of a round of `wait`: `nrunning_ -= nfinished`, in 32 bits, and the finished are reaped.
  unfoldable pub settle : ℕ → List Waited → Runner → Option (Runner × List Act)
  settle n ws r =
      reap_finished (suc (length ws)) ws
        (record r { nrunning = (r.nrunning + (2 ^ 32 - n % 2 ^ 32)) % 2 ^ 32 })
