-- ===== src/Run/Child/Session.antt =====
-- The whole of what a child process sends, as the parent takes it in.
use novaprova.Prelude.{
  ℕ, zero, suc, ◌^◌, ◌<◌, ◌≡◌, refl, sym, ap, ◌∙◌, List, [], ◌∷◌, ◌++◌, map, All, append_assoc,
  length, false, subst,
}
use novaprova.Run.Types.{merge, merge_all}
use novaprova.Run.Event.{Event, normalise, get_result}
use novaprova.Run.Proxy.{Pipe, Handled, add_event, end_job, handle_call}
use novaprova.Run.Proxy.Pipe.{content, IsFlowing}
use novaprova.Run.Proxy.RoundTrip.{
  IsSendable, received, handle_call-add_event, handle_call-end_job, Yields,
}
use novaprova.Run.Child.{Child, State, Action, raises, is_finished, take_call, handle_input}

-- What `proxy_listener_t` writes for a test that raises `evs` and ends with `res`.
unfoldable pub transcript : List Event → ℕ → List ℕ
transcript [] res = end_job res
transcript (ev ∷ evs) res = add_event ev ++ transcript evs res

-- `n` calls of `handle_input`, and what they raise.
unfoldable pub inputs : ℕ → Child → Child × List Action
inputs zero c = (c, [])
inputs (suc n) c =
    let (c', acts) = handle_input c in let (c'', more) = inputs n c' in (c'', acts ++ more)

running-open : (c : Child) → c.state ≡ State.running → is_finished c ≡ false
running-open c e = rw e

-- A call of a running child, once `handle_call` is known.
input_step :
    (c : Child) (h : Handled) (more : List ℕ)
    → c.state ≡ State.running
    → Yields (handle_call c.result c.event_pipe) h more
    → (p : Pipe) × (handle_input c ≡ take_call c (h, p)) × (content p ≡ more) × IsFlowing p
unfolding handle_input
input_step c h more e (x, f, g) =
    let pipe = (handle_call c.result c.event_pipe).1 in
    (pipe, rw (running-open c e) (ap (λ t. take_call c (t, pipe)) x), f, g)

inputs-suc :
    (n : ℕ) (c c' : Child) (acts : List Action)
    → handle_input c ≡ (c', acts)
    → ((inputs n c').0, acts ++ (inputs n c').1) ≡ inputs (suc n) c
unfolding inputs
inputs-suc n c c' acts e = ap (λ q. ((inputs n q.0).0, q.1 ++ (inputs n q.0).1)) (sym e)

-- What the parent has once the transcript is taken in: a finished child, with all results merged in
-- the order in which they came, every event raised, and the rest of the pipe untouched.
abbrev pub TakenIn : Child → List Event → ℕ → List ℕ → Child × List Action → Type 0
TakenIn c evs res more q =
    (q.0.state ≡ State.finished)
    × (q.0.result ≡ merge (merge_all c.result (map (λ ev. get_result ev.which) evs)) res)
    × (q.1 ≡ map (λ ev. raises (normalise (received ev))) evs)
    × (content q.0.event_pipe ≡ more)

-- A child that raises events and ends its job is taken in by one call of `handle_input` for each
-- message, however the pipe cuts the stream.
pub inputs-transcript :
    (evs : List Event) (res : ℕ) (more : List ℕ) (c : Child)
    → All IsSendable evs
    → res < 2 ^ 32
    → c.state ≡ State.running
    → IsFlowing c.event_pipe
    → content c.event_pipe ≡ transcript evs res ++ more
    → TakenIn c evs res more (inputs (suc (length evs)) c)
unfolding transcript merge_all
inputs-transcript [] res more c hs hr e g f =
    let (p, step, f', g') =
      input_step c _ more e (handle_call-end_job c.result res more c.event_pipe hr g f) in
    subst (TakenIn c [] res more) (inputs-suc 0 c _ _ step)
      (unfold inputs in (refl, refl, refl, f'))
inputs-transcript (ev ∷ evs) res more c hs hr e g f =
    let (p, step, f', g') = input_step c _ (transcript evs res ++ more) e (
      handle_call-add_event c.result ev (transcript evs res ++ more) c.event_pipe hs.0 g
        (f ∙ append_assoc (add_event ev) (transcript evs res) more)) in
    let c' : Child = record c { event_pipe = p; result = merge c.result (get_result ev.which) } in
    let (a, b, d, k) = inputs-transcript evs res more c' hs.1 hr e g' f' in
    subst (TakenIn c (ev ∷ evs) res more) (inputs-suc (suc (length evs)) c c' _ step)
      (a, b, ap (◌∷◌ (raises (normalise (received ev)))) d, k)
