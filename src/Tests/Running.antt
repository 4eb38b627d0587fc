-- ===== src/Tests/Running.antt =====
-- Inputs for Run: np/types.cxx, np/event.cxx, np/proxy_listener.cxx, np/child.cxx.
use novaprova.Prelude.{ℕ, ◌≡◌, ◌≢◌, refl, true, some, List, [], ◌∷◌, ◌++◌, arith}
use novaprova.Prelude.Bytes.{codes}
use novaprova.Run.Types.{merge}
use novaprova.Run.Event.{Event, no_event, normalise, get_result}
use novaprova.Run.Proxy.{Pipe, bytes, add_event, end_job, handle_call}
use novaprova.Run.Proxy.Pipe.{content}
use novaprova.Run.Proxy.RoundTrip.{IsSendable, received, Yields, handle_call-add_event}
use novaprova.Run.Child.{Child, State}
use novaprova.Run.Child.Session.{transcript, inputs, TakenIn, inputs-transcript}
use novaprova.Run.Child.Signals.{Call, input, hangup, timeout, history, MaySend, history-MaySend}
use novaprova.Run.Assignment.{Assignment}

abbrev failed_assert : Event
failed_assert = record no_event { which = 1; description = some (codes "x") }

failed_assert-IsSendable : IsSendable failed_assert
failed_assert-IsSendable = record {
  which_fits = omega arith;
  locflags_fits = omega arith;
  lineno_fits = omega arith;
  functype_fits = omega arith;
  description_text = ((omega arith, _), omega arith);
  filename_text = (_, omega arith);
  function_is_text = (_, omega arith);
}

-- One event and the end of the job, in one read.
abbrev sent : Pipe
sent = bytes (transcript (failed_assert ∷ []) 3) ∷ []

sent_not_empty : transcript (failed_assert ∷ []) 3 ≢ []
unfolding transcript add_event
sent_not_empty = cc

one_read : (bs : List ℕ) → content (bytes bs ∷ []) ≡ bs ++ []
unfolding content
one_read bs = refl

abbrev child : Child
child = record { pid = 42; event_pipe = sent; result = 0; state = State.running; deadline = 7 }

inputs-transcript_example : TakenIn child (failed_assert ∷ []) 3 [] (inputs 2 child)
inputs-transcript_example =
    inputs-transcript (failed_assert ∷ []) 3 [] child (failed_assert-IsSendable, _) (omega arith)
      refl (sent_not_empty, _) (one_read (transcript (failed_assert ∷ []) 3))

abbrev an_event : Pipe
an_event = bytes (add_event failed_assert) ∷ []

abbrev the_end : Pipe
the_end = bytes (end_job 3) ∷ []

event_not_empty : add_event failed_assert ≢ []
unfolding add_event
event_not_empty = cc

end_not_empty : end_job 3 ≢ []
unfolding end_job
end_not_empty = cc

handle_call-add_event_example :
    Yields
      (handle_call 0 an_event)
      (record {
        call_again = true;
        result = merge 0 (get_result failed_assert.which);
        raised = normalise (received failed_assert) ∷ [];
      })
      []
handle_call-add_event_example =
    handle_call-add_event 0 failed_assert [] an_event failed_assert-IsSendable (event_not_empty, _)
      (one_read (add_event failed_assert))

abbrev two_reads : Pipe
two_reads = bytes (1 ∷ 2 ∷ []) ∷ bytes (3 ∷ 4 ∷ []) ∷ []

two_reads-content : content two_reads ≡ (1 ∷ 2 ∷ 3 ∷ []) ++ (4 ∷ [])
unfolding content
two_reads-content = refl

abbrev digits : ℕ → List ℕ
digits n = 63 ∷ []

abbrev calls : List Call
calls = timeout 5 ∷ timeout 9 ∷ input ∷ timeout 9 ∷ timeout 20 ∷ hangup ∷ []

history-MaySend_example : MaySend digits State.running (history digits calls child).1
history-MaySend_example = history-MaySend digits calls child

-- The second of two parameters counts on when the first has been through its values.
abbrev two_parameters : List Assignment
two_parameters =
    record { param = record { name = codes "db"; values = codes "a" ∷ codes "b" ∷ [] }; idx = 1 }
    ∷ record { param = record { name = codes "n"; values = codes "1" ∷ codes "2" ∷ [] }; idx = 0 }
    ∷ []
