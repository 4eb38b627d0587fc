-- ===== src/Run/Child.antt =====
-- np/child.hxx and np/child.cxx: the parent's view of one child process, `child_t`.
-- Times are nanoseconds from the start of the run; a deadline of 0 is none. The pipe that
-- `event_pipe_` reads is a field. What a call does to others, the events that it raises and the
-- signals that it sends, is handed back in order.
pub mod Session
pub mod Signals
use novaprova.Prelude.{
  ℕ, ◌+◌, ◌*◌, Bool, true, false, none, some, List, [], ◌∷◌, ◌++◌, map, leb, if◌then◌else◌,
}
use novaprova.Prelude.Bytes.{codes}
use novaprova.Run.Types.{merge, r_unknown}
use novaprova.Run.Event.{Event, no_event, normalise, get_result}
use novaprova.Run.Proxy.{Pipe, Handled, handle_call, raise_event}

pub data State : Type 0 where
  running timeout1 timeout2 finished : State

pub record Child : Type 0 where
  pub pid : ℕ
  pub event_pipe : Pipe
  pub result : ℕ
  pub state : State
  pub deadline : ℕ

pub data Signal : Type 0 where
  sigterm sigkill : Signal

pub data Action : Type 0 where
  raises : Event → Action
  kills : Signal → Action

abbrev pub nanosec_per_sec : ℕ
nanosec_per_sec = 1_000_000_000

-- `child_t(pid, fd, j)`
unfoldable pub new_child : ℕ → Pipe → Child
new_child pid fd = record {
  pid = pid;
  event_pipe = fd;
  result = r_unknown;
  state = State.running;
  deadline = 0;
}

abbrev pub is_finished : Child → Bool
is_finished c = elim c.state [ State.finished ↦ true | _ ↦ false ]

unfoldable pub set_deadline : ℕ → Child → Child
set_deadline d c = record c { deadline = d }

unfoldable pub merge_result : ℕ → Child → Child
unfolding merge
merge_result r c = record c { result = merge c.result r }

abbrev pub take_call : Child → Handled × Pipe → Child × List Action
take_call c (h, pipe) = (
  record c {
    event_pipe = pipe;
    result = h.result;
    state = if h.call_again then c.state else State.finished;
  },
  map raises h.raised,
)

unfoldable pub handle_input : Child → Child × List Action
handle_input c = if is_finished c then (c, []) else take_call c (handle_call c.result c.event_pipe)

unfoldable pub handle_hangup : Child → Child × List Action
handle_hangup c = (record c { state = State.finished }, [])

-- `dec` prints the process id into the event's description.
module _ (dec : ℕ → List ℕ) where
  unfoldable pub timeout_event : ℕ → Event
  timeout_event pid = record no_event {
    which = 11;
    description = some (codes "Child process " ++ (dec pid ++ codes " timed out, killing"));
  }

  -- The switch of `handle_timeout`, on the state.
  unfoldable pub timeout_in : State → ℕ → Child → Child × List Action
  unfolding merge_result raise_event timeout_event
  timeout_in State.running end_ c =
      let (ev, r) = raise_event (timeout_event c.pid) in
      if leb c.deadline end_
      then (
        record (merge_result r c) { state = State.timeout1; deadline = end_ + 3 * nanosec_per_sec },
        raises ev ∷ kills sigterm ∷ [],
      )
      else (c, [])
  timeout_in State.timeout1 end_ c =
      (record c { state = State.timeout2; deadline = 0 }, kills sigkill ∷ [])
  timeout_in State.timeout2 end_ c = (c, [])
  timeout_in State.finished end_ c = (c, [])

  unfoldable pub handle_timeout : ℕ → Child → Child × List Action
  unfolding timeout_in
  handle_timeout end_ c = timeout_in c.state end_ c
