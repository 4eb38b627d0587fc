-- ===== src/Tests/Parent.antt =====
-- Inputs for Run: the parent's side of np/runner.cxx.
use novaprova.Prelude.{
  ℕ, suc, ◌≡◌, ◌⊎◌, refl, true, false, some, none, List, [], ◌∷◌, arith, length,
}
use novaprova.Run.Child.{Child, State}
use novaprova.Run.Runner.{Entry, Runner, Forked, fill, poll_timeout, count_running}
use novaprova.Run.Runner.Starting.{IsCounted, fill-IsCounted}
use novaprova.Run.Runner.Deadlines.{least, remaining, poll_timeout-least}
use novaprova.Run.Runner.Reap.{
  Status, exited, signaled, ended, nothing, reap_children, reap_finished,
}
use novaprova.Run.Runner.Reaping.{
  IsDistinct, finished_of, running_of, script, Reaps, reap_finished-Reaps,
}
use novaprova.Run.Runner.Wait.{
  Revents, interrupted, ready, aborts, wait, wait_loop, ready_loop, handle_revents, conclude,
}
use novaprova.Run.Runner.Rounds.{Returns, wait-Returns}

abbrev dec : ℕ → List ℕ
dec n = n ∷ []

abbrev first_child : Child
first_child = record { pid = 5; event_pipe = []; result = 0; state = State.running; deadline = 90 }

abbrev second_child : Child
second_child = record { pid = 6; event_pipe = []; result = 0; state = State.running; deadline = 70 }

abbrev two : List Entry
two = record { job = 1; child = first_child } ∷ record { job = 2; child = second_child } ∷ []

abbrev runner : Runner
runner = record {
  nrun = 0;
  nfailed = 0;
  children = two;
  nrunning = 2;
  maxchildren = 3;
  timeout = 30;
}

runner-IsCounted : IsCounted runner
unfolding count_running
runner-IsCounted = record { counted = refl; room = omega arith; max_fits = omega arith }

two-IsDistinct : IsDistinct two
unfolding IsDistinct
two-IsDistinct = ((λ e. absurd (omega (arith, e)), tt), (tt, tt))

abbrev third : Forked
third = record { job = 3; pid = 7; pipe = []; start = 10 }

abbrev fourth : Forked
fourth = record { job = 4; pid = 8; pipe = []; start = 11 }

fill-IsCounted_example :
    let ((r, left), as_) = fill (third ∷ fourth ∷ []) runner in
    IsCounted r × ((left ≡ []) ⊎ (r.nrunning ≡ r.maxchildren))
fill-IsCounted_example = fill-IsCounted (third ∷ fourth ∷ []) runner runner-IsCounted

one_left : (fill (third ∷ fourth ∷ []) runner).0.1 ≡ fourth ∷ []
unfolding fill
one_left = refl

poll_timeout-least_example : poll_timeout 50 two none ≡ least (remaining 50 two)
poll_timeout-least_example = poll_timeout-least 50 two

least_is_second : poll_timeout 50 two none ≡ some 20
unfolding poll_timeout
least_is_second = refl

-- The second child was killed, the first exits.
abbrev status : Entry → Status
status e = signaled 9

abbrev hung_up : List Revents
hung_up =
    record { pollin = false; pollhup = false } ∷ record { pollin = false; pollhup = true } ∷ []

one_finishes : (ready_loop two hung_up).0.1 ≡ 1
unfolding ready_loop handle_revents
one_finishes = refl

wait-Returns_example : Returns (
    wait dec
      ((50, ready hung_up (script dec status (finished_of (ready_loop two hung_up).0.0))) ∷ [])
      runner)
wait-Returns_example =
    wait-Returns dec status 50 hung_up [] runner runner-IsCounted two-IsDistinct (omega arith)
      (omega arith) (omega (arith, one_finishes))

abbrev over : Runner
over = record runner {
  children =
      record { job = 1; child = first_child }
      ∷ record { job = 2; child = record second_child { state = State.finished } }
      ∷ [];
}

over-IsDistinct : IsDistinct over.children
unfolding IsDistinct
over-IsDistinct = ((λ e. absurd (omega (arith, e)), tt), (tt, tt))

reap_finished-Reaps_example :
    Reaps dec status (running_of over.children) (finished_of over.children) over (
      reap_finished dec
        (suc (length (script dec status (finished_of over.children))))
        (script dec status (finished_of over.children))
        over)
reap_finished-Reaps_example =
    reap_finished-Reaps dec status over over-IsDistinct (omega arith) (omega arith)

-- A child that `waitpid` gives with status 0 after an interruption is not counted: the assertion
-- before the next `poll` fails.
interrupted_by_exit :
    (wait dec
      ((50, interrupted (ended 5 (exited 0) ∷ nothing ∷ []) []) ∷ (51, ready [] []) ∷ [])
      runner).0
    ≡ aborts
unfolding wait wait_loop count_running reap_children conclude
interrupted_by_exit = refl
