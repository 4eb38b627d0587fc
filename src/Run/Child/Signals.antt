-- ===== src/Run/Child/Signals.antt =====
-- The life of a child as its calls drive it, in any order.
use novaprova.Prelude.{
  ℕ, ◌≤◌, ◌≡◌, ◌⊎◌, refl, inl, inr, List, [], ◌∷◌, ◌++◌, map, arith, Bool-cases, Option, none, some,
}
use novaprova.Run.Types.{merge, r_fail}
use novaprova.Run.Event.{Event, normalise, get_result}
use novaprova.Run.Proxy.{
  Handled, Pipe, handle_call, handle_which, handle_event, handle_finished, raise_event,
  deserialise_event, deserialise_uint,
}
use novaprova.Run.Child.{
  Child, State, Signal, sigterm, sigkill, Action, raises, kills, is_finished, take_call,
  handle_input, handle_hangup, handle_timeout, timeout_in, timeout_event,
}

pub data Call : Type 0 where
  input hangup : Call
  timeout : ℕ → Call

-- The signals among the actions.
abbrev pub signals : List Action → List Signal
signals [] = []
signals (raises ev ∷ as_) = signals as_
signals (kills s ∷ as_) = s ∷ signals as_

signals-raises : (evs : List Event) → signals (map raises evs) ≡ []
signals-raises [] = refl
signals-raises (ev ∷ evs) = signals-raises evs

handle_event_result-le :
    (resp : ℕ) (q : Option Event × Pipe) → resp ≤ (handle_event resp q).0.result
unfolding merge
handle_event_result-le resp (none, p) = ground arith
handle_event_result-le resp (some ev, p) = ground arith

handle_finished_result-le :
    (resp : ℕ) (q : Option ℕ × Pipe) → resp ≤ (handle_finished resp q).0.result
unfolding merge
handle_finished_result-le resp (none, p) = ground arith
handle_finished_result-le resp (some res, p) = ground arith

handle_which_result-le : (resp : ℕ) (q : Option ℕ × Pipe) → resp ≤ (handle_which resp q).0.result
unfolding merge
handle_which_result-le resp (none, p) = ground arith
handle_which_result-le resp (some which, p) = ground (
  arith,
  handle_event_result-le resp (deserialise_event p),
  handle_finished_result-le resp (deserialise_uint p),
)

handle_call_result-le : (resp : ℕ) (p : Pipe) → resp ≤ (handle_call resp p).0.result
unfolding handle_call
handle_call_result-le resp p = handle_which_result-le resp (deserialise_uint p)

module _ (dec : ℕ → List ℕ) where
  -- The event of a timeout counts as a failure.
  timeout_fails : (pid : ℕ) → (raise_event (timeout_event dec pid)).1 ≡ r_fail
  unfolding raise_event timeout_event get_result normalise
  timeout_fails pid = refl

  call : Call → Child → Child × List Action
  call input c = handle_input c
  call hangup c = handle_hangup c
  call (timeout end_) c = handle_timeout dec end_ c

  -- The child after a history of calls, and the signals that were sent.
  pub history : List Call → Child → Child × List Signal
  history [] c = (c, [])
  history (x ∷ xs) c =
      let (c', acts) = call x c in let (c'', sent) = history xs c' in (c'', signals acts ++ sent)

  -- What may still be sent to a child in a state.
  abbrev pub MaySend : State → List Signal → Type 0
  MaySend State.running sent =
      (sent ≡ []) ⊎ ((sent ≡ sigterm ∷ []) ⊎ (sent ≡ sigterm ∷ sigkill ∷ []))
  MaySend State.timeout1 sent = (sent ≡ []) ⊎ (sent ≡ sigkill ∷ [])
  MaySend State.timeout2 sent = sent ≡ []
  MaySend State.finished sent = sent ≡ []

  MaySend-nil : (s : State) → MaySend s []
  MaySend-nil State.running = inl refl
  MaySend-nil State.timeout1 = inl refl
  MaySend-nil State.timeout2 = refl
  MaySend-nil State.finished = refl

  taken-MaySend :
      (c : Child) (q : Handled × Pipe) (sent : List Signal)
      → MaySend (take_call c q).0.state sent
      → MaySend c.state (signals (take_call c q).1 ++ sent)
  taken-MaySend c (h, p) sent m = elim (Bool-cases h.call_again) [
    | inl e ↦ rw signals-raises (rw e at m)
    | inr e ↦ rw (signals-raises, (rw e at m)) (MaySend-nil c.state)
  ]

  timeout_in-MaySend :
      (s : State) (end_ : ℕ) (c : Child) (sent : List Signal)
      → c.state ≡ s
      → MaySend (timeout_in dec s end_ c).0.state sent
      → MaySend s (signals (timeout_in dec s end_ c).1 ++ sent)
  unfolding timeout_in
  timeout_in-MaySend State.running end_ c sent e m = ground arith
  timeout_in-MaySend State.timeout1 end_ c sent e m = ground arith
  timeout_in-MaySend State.timeout2 end_ c sent e m = rw e at m
  timeout_in-MaySend State.finished end_ c sent e m = rw e at m

  call-MaySend :
      (x : Call) (c : Child) (sent : List Signal)
      → MaySend (call x c).0.state sent
      → MaySend c.state (signals (call x c).1 ++ sent)
  unfolding call handle_input handle_hangup handle_timeout
  call-MaySend input c sent m = elim (Bool-cases (is_finished c)) [
    | inl e ↦ rw e (rw e at m)
    | inr e ↦ rw e (taken-MaySend c (handle_call c.result c.event_pipe) sent (rw e at m))
  ]
  call-MaySend hangup c sent m = rw m (MaySend-nil c.state)
  call-MaySend (timeout end_) c sent m = timeout_in-MaySend c.state end_ c sent refl m

  -- Whatever input, hang-ups and timeouts come, in whatever order, a running child is sent nothing,
  -- or SIGTERM, or SIGTERM and then SIGKILL, and no signal twice; one that has finished is sent
  -- nothing any more.
  pub history-MaySend : (xs : List Call) (c : Child) → MaySend c.state (history xs c).1
  unfolding history
  history-MaySend [] c = MaySend-nil c.state
  history-MaySend (x ∷ xs) c =
      call-MaySend x c (history xs (call x c).0).1 (history-MaySend xs (call x c).0)

  timeout_in_result-le :
      (s : State) (end_ : ℕ) (c : Child) → c.result ≤ (timeout_in dec s end_ c).0.result
  unfolding timeout_in merge
  timeout_in_result-le State.running end_ c = ground arith
  timeout_in_result-le State.timeout1 end_ c = omega arith
  timeout_in_result-le State.timeout2 end_ c = omega arith
  timeout_in_result-le State.finished end_ c = omega arith

  call_result-le : (x : Call) (c : Child) → c.result ≤ (call x c).0.result
  unfolding call handle_input handle_hangup handle_timeout
  call_result-le input c = ground (arith, handle_call_result-le c.result c.event_pipe)
  call_result-le hangup c = omega arith
  call_result-le (timeout end_) c = timeout_in_result-le c.state end_ c

  -- Whatever the calls are, the result of a child only rises, and so a failure stays.
  pub history_result-le : (xs : List Call) (c : Child) → c.result ≤ (history xs c).0.result
  unfolding history
  history_result-le [] c = omega arith
  history_result-le (x ∷ xs) c =
      omega (arith, call_result-le x c, history_result-le xs (call x c).0)

  -- A running child past its deadline fails and is sent SIGTERM; the next timeout that is handled
  -- sends it SIGKILL, at whatever time that is: the new deadline is not looked at.
  second_timeout :
      (end_ later : ℕ) (c : Child)
      → c.state ≡ State.running
      → c.deadline ≤ end_
      → let q = history (timeout end_ ∷ timeout later ∷ []) c in
        (q.1 ≡ sigterm ∷ sigkill ∷ []) × (q.0.state ≡ State.timeout2) × (r_fail ≤ q.0.result)
  unfolding history call handle_timeout timeout_in merge
  second_timeout end_ later c e h = ground (arith, timeout_fails c.pid)
