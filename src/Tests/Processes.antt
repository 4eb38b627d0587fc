-- ===== src/Tests/Processes.antt =====
-- Inputs for Run: np/runner.cxx.
use novaprova.Prelude.{
  ℕ, suc, ◌<◌, ◌≡◌, ◌≢◌, ◌↔◌, refl, some, none, List, [], ◌∷◌, ◌++◌, arith, ◌==◌, if◌then◌else◌,
}
use novaprova.Prelude.Bytes.{codes}
use novaprova.Run.Types.{r_fail}
use novaprova.Run.Event.{Event, no_event, normalise, get_result}
use novaprova.Run.Proxy.{Pipe, bytes, add_event}
use novaprova.Run.Proxy.Pipe.{content}
use novaprova.Run.Proxy.RoundTrip.{IsSendable}
use novaprova.Run.Child.{Child, State}
use novaprova.Run.Child.Session.{transcript, inputs}
use novaprova.Run.TestCode.{Step, calls, raises, Process, threw, signed_long_long, run_test_code}
use novaprova.Run.TestCode.Judged.{IsFine, raised}
use novaprova.Run.TestCode.Verdict.{test-verdict}
use novaprova.Run.TestCode.Silent.{called}
use novaprova.Run.TestCode.Order.{IsOrdered, run_test_code-IsOrdered}
use novaprova.Suite.Tree.{get_fixtures}
use novaprova.Util.FileName.{same}
use novaprova.Tests.Suite.{second_test}

-- The fixture 7 returns 0, and the test throws.
abbrev os : Process ℕ
os = record {
  invoke = λ f w. (
    record {
      raised = [];
      outcome =
          if f == 7
          then signed_long_long 0
          else threw (record no_event { which = 1; description = some (codes "x") });
    },
    suc w,
  );
  get_file_descriptors = λ w. codes "tty" ∷ [];
  valgrind = λ w. none;
  dynamic_intercepts = λ w. [];
  spiegel = λ f. record { absolute_path = codes "/a.c"; name = codes "f" };
  signed = λ n. codes "1";
  unsigned = λ n. codes "1";
}

abbrev thrown : Event
thrown = record no_event { which = 1; description = some (codes "x"); locflags = 32; functype = 2 }

abbrev steps : List Step
steps = calls 7 ∷ calls 12 ∷ raises thrown ∷ []

runs : run_test_code os second_test [] 0 ≡ (steps, some 3, 2)
unfolding run_test_code get_fixtures normalise same get_result
runs = refl

thrown-IsSendable : IsSendable thrown
thrown-IsSendable = record {
  which_fits = omega arith;
  locflags_fits = omega arith;
  lineno_fits = omega arith;
  functype_fits = omega arith;
  description_text = ((omega arith, _), omega arith);
  filename_text = (_, omega arith);
  function_is_text = (_, omega arith);
}

one_raised : raised steps ≡ thrown ∷ []
unfolding raised
one_raised = refl

-- The pipe with all that the child wrote.
abbrev sent : Pipe
sent = bytes (transcript (thrown ∷ []) 3) ∷ []

sent_not_empty : transcript (thrown ∷ []) 3 ≢ []
unfolding transcript add_event
sent_not_empty = cc

sent_at_once : (bs : List ℕ) → content (bytes bs ∷ []) ≡ bs ++ []
unfolding content
sent_at_once bs = refl

abbrev child : Child
child = record { pid = 42; event_pipe = sent; result = 0; state = State.running; deadline = 7 }

test-verdict_example :
    let c = (inputs 2 child).0 in
    (c.state ≡ State.finished) × (0 < c.result) × ((c.result < r_fail) ↔ IsFine (raised steps))
unfolding raised
test-verdict_example =
    test-verdict os second_test [] 0 2 steps 3 [] child runs (thrown-IsSendable, tt) refl refl
      (sent_not_empty, _) (sent_at_once (transcript (thrown ∷ []) 3))

run_test_code-IsOrdered_example :
    IsOrdered second_test 12 (called (run_test_code os second_test [] 0).0)
run_test_code-IsOrdered_example = run_test_code-IsOrdered os second_test [] 12 0 refl
