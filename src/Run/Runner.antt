-- ===== src/Run/Runner.antt =====
-- np/runner.hxx and runner.cxx: the parent's side of `runner_t`, which starts a child process for
-- each job, waits for them by `poll` and reaps them by `waitpid`.
-- The system is a script: what `fork` gives for a job, what each `poll` and each `waitpid` returns.
-- A job is its number. What the runner does to others is handed back in order. Where the script of
-- `waitpid` ends, the call has not returned: none.
pub mod Reap
pub mod Wait
pub mod Starting
pub mod Deadlines
pub mod Reaping
pub mod Rounds
use novaprova.Prelude.{
  ℕ, zero, suc, ◌+◌, ◌-◌, ◌*◌, ◌/◌, ◌%◌, ◌^◌, Bool, true, false, Option, none, some, List, [], ◌∷◌,
  ◌++◌, map, leb, ltb, ◌==◌, ◌||◌, not, if◌then◌else◌, length, take,
}
use novaprova.Prelude.Bytes.{codes}
use novaprova.Run.Types.{r_pass, r_fail}
use novaprova.Run.Event.{Event, no_event}
use novaprova.Run.Proxy.{Pipe, raise_event}
use novaprova.Run.Child.{
  Child, State, Signal, Action, nanosec_per_sec, new_child, set_deadline, is_finished, merge_result,
  handle_input, handle_hangup, handle_timeout,
}

-- A child with its job, as `children_` keeps them in the order of their start.
pub record Entry : Type 0 where
  pub job : ℕ
  pub child : Child

pub record Runner : Type 0 where
  pub nrun : ℕ
  pub nfailed : ℕ
  pub children : List Entry
  pub nrunning : ℕ
  pub maxchildren : ℕ
  pub timeout : ℕ

pub data Act : Type 0 where
  begins : ℕ → Act
  acts : ℕ → Action → Act
  ends : ℕ → ℕ → Act
  polls : ℕ → Option ℕ → Act

-- `set_concurrency(n)`, where n is not below 0; `online` is what sysconf gives, below 0 as 0.
unfoldable pub set_concurrency : ℕ → ℕ → Runner → Runner
set_concurrency online n r =
    let m = if n == 0 then online else n in record r { maxchildren = if ltb m 1 then 1 else m }

-- What `fork` and the clock give for a job.
pub record Forked : Type 0 where
  pub job : ℕ
  pub pid : ℕ
  pub pipe : Pipe
  pub start : ℕ

-- The parent's part of `fork_child`.
unfoldable pub fork_child : Forked → Runner → Runner
unfolding new_child set_deadline
fork_child f r =
    let c = new_child f.pid f.pipe in
    record r {
      children =
          r.children
          ++ record {
            job = f.job;
            child =
                if r.timeout == 0
                then c
                else set_deadline (f.start + r.timeout * nanosec_per_sec) c;
          }
            ∷ [];
      nrunning = (r.nrunning + 1) % 2 ^ 32;
    }

unfoldable pub begin_job : Forked → Runner → Runner × List Act
unfolding fork_child
begin_job f r = (fork_child f r, begins f.job ∷ [])

abbrev pub with_acts : {A : Type 0} → List Act → A × List Act → A × List Act
with_acts as_ (a, more) = (a, as_ ++ more)

-- The inner loop of `run_tests`: jobs are begun while there is room. What is left of them.
unfoldable pub fill : List Forked → Runner → (Runner × List Forked) × List Act
unfolding begin_job
fill [] r = ((r, []), [])
fill (f ∷ fs) r =
    let begun = with_acts (begin_job f r).1 (fill fs (begin_job f r).0) in
    if ltb r.nrunning r.maxchildren then begun else ((r, f ∷ fs), [])

-- The timeout of `poll` in nanoseconds, none for -1, as the loop over the children at `start` finds
-- it.
unfoldable pub nearer : ℕ → ℕ → Option ℕ → Option ℕ
nearer start deadline t = if leb deadline start then some 0 else elim t [
  | none ↦ some (deadline - start)
  | some u ↦ if ltb (deadline - start) u then some (deadline - start) else some u
]

unfoldable pub poll_timeout : ℕ → List Entry → Option ℕ → Option ℕ
unfolding nearer
poll_timeout start [] t = t
poll_timeout start (e ∷ es) t =
    poll_timeout start es
      (if is_finished e.child || e.child.deadline == 0 then t else nearer start e.child.deadline t)

-- `nzeroes` counts the polls without a wait; after five of them there is one of a second.
unfoldable pub throttle : ℕ → Option ℕ → Option ℕ × ℕ
throttle nzeroes none = (none, 0)
throttle nzeroes (some zero) =
    (some (if ltb 5 (nzeroes + 1) then nanosec_per_sec else 0), nzeroes + 1)
throttle nzeroes (some (suc t)) = (some (suc t), 0)

-- In milliseconds, as `poll` takes it.
unfoldable pub to_msec : Option ℕ → Option ℕ
to_msec none = none
to_msec (some t) = some ((t + 500_000) / 1_000_000)

-- The places of `pfd_`.
unfoldable pub count_running : List Entry → ℕ
count_running [] = 0
count_running (e ∷ es) = (if is_finished e.child then 0 else 1) + count_running es
