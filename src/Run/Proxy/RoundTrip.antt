-- ===== src/Run/Proxy/RoundTrip.antt =====
-- What the child sends is what the parent's `handle_call` gets.
use novaprova.Prelude.{
  ℕ, suc, ◌+◌, ◌%◌, ◌^◌, ◌<◌, ◌≡◌, ◌≢◌, refl, ap, ◌∙◌, Option, none, some, List, [], ◌∷◌, ◌++◌,
  arith, length, length-append, All, append_assoc, true, false, ◌==◌, subst,
}
use novaprova.Prelude.Bytes.{le_bytes, le_value-le_bytes}
use novaprova.Run.Types.{merge}
use novaprova.Run.Event.{Event, Function, function_text, normalise, get_result, xstr}
use novaprova.Run.Event.Normal.{normalise_plain}
use novaprova.Run.Proxy.{
  Pipe, serialise_uint, serialise_string, serialise_event, add_event, end_job, deserialise_bytes,
  deserialise_uint, deserialise_string, deserialise_event, c_string, handle_call, handle_which,
  handle_event, handle_finished, raise_event, Handled, proxy_event, proxy_finished,
}
use novaprova.Run.Proxy.Pipe.{content, IsFlowing, Reads, and_then-Reads, deserialise_bytes-Reads}

pub deserialise_uint-Reads :
    (v : ℕ) (more : List ℕ) (p : Pipe)
    → v < 2 ^ 32
    → IsFlowing p
    → content p ≡ serialise_uint v ++ more
    → Reads (deserialise_uint p) v more
unfolding deserialise_uint serialise_uint
deserialise_uint-Reads v more p h g e =
    and_then-Reads (deserialise_bytes 4 p) _ (deserialise_bytes-Reads (le_bytes 4 v) more p g e)
      λ p' f g'. (ap some (le_value-le_bytes v h), f, g')

-- A C string that the protocol can count.
abbrev pub IsText : List ℕ → Type 0
IsText s = All (λ c. c ≢ 0) s × (length s + 1 < 2 ^ 32)

c_string-terminated : (s : List ℕ) → All (λ c. c ≢ 0) s → c_string (s ++ (0 ∷ [])) ≡ s
unfolding c_string
c_string-terminated [] h = refl
c_string-terminated (c ∷ s) h = ground (arith, c_string-terminated s h.1)

suc_not_zero : (n : ℕ) → (suc n == 0) ≡ false
suc_not_zero n = ground arith

pub deserialise_string-Reads :
    (s more : List ℕ) (p : Pipe)
    → IsText s
    → IsFlowing p
    → content p ≡ serialise_string s ++ more
    → Reads (deserialise_string p) s more
unfolding deserialise_string serialise_string
deserialise_string-Reads [] more p (h, fits) g e =
    and_then-Reads (deserialise_uint p) _ (deserialise_uint-Reads 0 more p (omega arith) g e)
      λ p' f g'. (refl, f, g')
deserialise_string-Reads (c ∷ s) more p (h, fits) g e =
    let body : List ℕ = (c ∷ s) ++ (0 ∷ []) in
    let counted : (length (c ∷ s) + 1) % 2 ^ 32 ≡ length body =
      omega (arith, length-append (c ∷ s) (0 ∷ [])) in
    and_then-Reads (deserialise_uint p) _
      (deserialise_uint-Reads (length (c ∷ s)) (body ++ more) p (omega arith) g (
        e
        ∙ rw (suc_not_zero (length s)) (append_assoc (serialise_uint (length (c ∷ s))) body more)))
      λ p' f g'. rw (suc_not_zero (length s)) (
        and_then-Reads (deserialise_bytes ((length (c ∷ s) + 1) % 2 ^ 32) p') _
          (rw counted (deserialise_bytes-Reads body more p' g' f))
          λ p'' f' g''. (ap some (c_string-terminated (c ∷ s) h), f', g''))

-- An event whose fields the protocol can carry.
pub record IsSendable (ev : Event) : Type 0 where
  pub which_fits : ev.which < 2 ^ 32
  pub locflags_fits : ev.locflags < 2 ^ 32
  pub lineno_fits : ev.lineno < 2 ^ 32
  pub functype_fits : ev.functype < 2 ^ 32
  pub description_text : IsText (xstr ev.description)
  pub filename_text : IsText (xstr ev.filename)
  pub function_is_text : IsText (function_text ev.function)

-- What arrives of an event: a null text has become an empty one.
abbrev pub received : Event → Event
received ev = record ev {
  description = some (xstr ev.description);
  filename = some (xstr ev.filename);
  function = Function.text (function_text ev.function);
}

pub deserialise_event-Reads :
    (ev : Event) (more : List ℕ) (p : Pipe)
    → IsSendable ev
    → IsFlowing p
    → content p ≡ serialise_event ev ++ more
    → Reads (deserialise_event p) (received ev) more
unfolding deserialise_event serialise_event
deserialise_event-Reads ev more p v g e =
    let t6 : List ℕ = serialise_uint ev.functype ++ more in
    let t5 : List ℕ = serialise_string (function_text ev.function) ++ t6 in
    let t4 : List ℕ = serialise_uint ev.lineno ++ t5 in
    let t3 : List ℕ = serialise_string (xstr ev.filename) ++ t4 in
    let t2 : List ℕ = serialise_uint ev.locflags ++ t3 in
    let t1 : List ℕ = serialise_string (xstr ev.description) ++ t2 in
    let flat : content p ≡ serialise_uint ev.which ++ t1 = e ∙ simp append_assoc in
    and_then-Reads (deserialise_uint p) _ (deserialise_uint-Reads ev.which t1 p v.which_fits g flat)
      λ p1 e1 g1.
        and_then-Reads (deserialise_string p1) _
          (deserialise_string-Reads (xstr ev.description) t2 p1 v.description_text g1 e1)
          λ p2 e2 g2.
            and_then-Reads (deserialise_uint p2) _
              (deserialise_uint-Reads ev.locflags t3 p2 v.locflags_fits g2 e2)
              λ p3 e3 g3.
                and_then-Reads (deserialise_string p3) _
                  (deserialise_string-Reads (xstr ev.filename) t4 p3 v.filename_text g3 e3)
                  λ p4 e4 g4.
                    and_then-Reads (deserialise_uint p4) _
                      (deserialise_uint-Reads ev.lineno t5 p4 v.lineno_fits g4 e4)
                      λ p5 e5 g5.
                        and_then-Reads (deserialise_string p5) _
                          (deserialise_string-Reads (function_text ev.function) t6 p5
                            v.function_is_text g5 e5)
                          λ p6 e6 g6.
                            and_then-Reads (deserialise_uint p6) _
                              (deserialise_uint-Reads ev.functype more p6 v.functype_fits g6 e6)
                              λ p7 e7 g7. (refl, e7, g7)

-- A handler that comes to `h`, and leaves `more` in a pipe that flows on.
abbrev pub Yields : Handled × Pipe → Handled → List ℕ → Type 0
Yields q h more = (q.0 ≡ h) × (content q.1 ≡ more) × IsFlowing q.1

raised_result :
    (resp : ℕ) (ev : Event)
    → ◌≡◌ {A = Handled}
        (record {
          call_again = true;
          result = merge resp (raise_event (received ev)).1;
          raised = (raise_event (received ev)).0 ∷ [];
        })
        (record {
          call_again = true;
          result = merge resp (get_result ev.which);
          raised = normalise (received ev) ∷ [];
        })
unfolding raise_event
raised_result resp ev = rw (normalise_plain (received ev)).0

-- A handler of a read that gives `a`.
read_then :
    {A : Type 0} (a : A) (mid : List ℕ) (h : Handled) (more : List ℕ)
    (f : Option A × Pipe → Handled × Pipe) (q : Option A × Pipe)
    → Reads q a mid
    → ((p : Pipe) → content p ≡ mid → IsFlowing p → Yields (f (some a, p)) h more)
    → Yields (f q) h more
read_then a mid h more f (none, p) (x, y, z) k = cc
read_then a mid h more f (some a', p) (x, y, z) k =
    let e : a ≡ a' = cc in subst (λ t. Yields (f (some t, p)) h more) e (k p y z)

-- One `handle_call` on a pipe that carries one `add_event`: the event that the child sent is raised,
-- its result is merged into the test's, the call asks to be made again, and the pipe is left at
-- what follows.
pub handle_call-add_event :
    (resp : ℕ) (ev : Event) (more : List ℕ) (p : Pipe)
    → IsSendable ev
    → IsFlowing p
    → content p ≡ add_event ev ++ more
    → Yields
        (handle_call resp p)
        (record {
          call_again = true;
          result = merge resp (get_result ev.which);
          raised = normalise (received ev) ∷ [];
        })
        more
unfolding handle_call add_event
handle_call-add_event resp ev more p v g e =
    read_then proxy_event (serialise_event ev ++ more) _ more (handle_which resp)
      (deserialise_uint p)
      (deserialise_uint-Reads proxy_event _ p (omega arith) g
        (e ∙ append_assoc (serialise_uint proxy_event) (serialise_event ev) more))
      λ p1 e1 g1.
        read_then (received ev) more _ more (handle_event resp) (deserialise_event p1)
          (deserialise_event-Reads ev more p1 v g1 e1) λ p2 e2 g2. (raised_result resp ev, e2, g2)

-- One `handle_call` on a pipe that carries `end_job`: the result is merged, and no call is to
-- follow.
pub handle_call-end_job :
    (resp res : ℕ) (more : List ℕ) (p : Pipe)
    → res < 2 ^ 32
    → IsFlowing p
    → content p ≡ end_job res ++ more
    → Yields
        (handle_call resp p)
        (record { call_again = false; result = merge resp res; raised = [] })
        more
unfolding handle_call end_job
handle_call-end_job resp res more p h g e =
    read_then proxy_finished (serialise_uint res ++ more) _ more (handle_which resp)
      (deserialise_uint p)
      (deserialise_uint-Reads proxy_finished _ p (omega arith) g
        (e ∙ append_assoc (serialise_uint proxy_finished) (serialise_uint res) more))
      λ p1 e1 g1.
        read_then res more _ more (handle_finished resp) (deserialise_uint p1)
          (deserialise_uint-Reads res more p1 h g1 e1) λ p2 e2 g2. (refl, e2, g2)
