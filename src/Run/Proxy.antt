-- ===== src/Run/Proxy.antt =====
-- np/proxy_listener.cxx: the events and the result of a test, sent by the child through a pipe as
-- native (little-endian) unsigned integers and counted strings, and read back by the parent.
-- A write to the pipe is complete, and `malloc` does not fail.
pub mod Pipe
pub mod RoundTrip
use novaprova.Prelude.{
  ℕ, zero, suc, ◌+◌, ◌-◌, ◌%◌, ◌^◌, Bool, true, false, Option, none, some, List, [], ◌∷◌, ◌++◌, ltb,
  leb, ◌==◌, if◌then◌else◌, length, take, drop,
}
use novaprova.Prelude.Bytes.{le_bytes, le_value}
use novaprova.Run.Types.{merge, r_fail}
use novaprova.Run.Event.{Event, Function, function_text, normalise, get_result, no_event, xstr}

-- enum proxy_call
abbrev pub proxy_event : ℕ
proxy_event = 1

abbrev pub proxy_finished : ℕ
proxy_finished = 2

-- What each function writes.
unfoldable pub serialise_uint : ℕ → List ℕ
serialise_uint i = le_bytes 4 i

unfoldable pub serialise_string : List ℕ → List ℕ
unfolding serialise_uint
serialise_string s = serialise_uint (length s) ++ (if length s == 0 then [] else s ++ (0 ∷ []))

unfoldable pub serialise_event : Event → List ℕ
unfolding serialise_uint serialise_string
serialise_event ev =
    serialise_uint ev.which
    ++ (serialise_string (xstr ev.description)
        ++ (serialise_uint ev.locflags
            ++ (serialise_string (xstr ev.filename)
                ++ (serialise_uint ev.lineno
                    ++ (serialise_string (function_text ev.function)
                        ++ serialise_uint ev.functype)))))

unfoldable pub add_event : Event → List ℕ
unfolding serialise_uint serialise_event
add_event ev = serialise_uint proxy_event ++ serialise_event ev

unfoldable pub end_job : ℕ → List ℕ
unfolding serialise_uint
end_job res = serialise_uint proxy_finished ++ serialise_uint res

-- What the reads from the pipe will find: each chunk is there for one `read`, or for several if
-- they ask for less. `failure` is a read that returns a negative number. At the end, or at an
-- empty chunk, `read` returns 0.
pub data Chunk : Type 0 where
  bytes : List ℕ → Chunk
  failure : Chunk

abbrev pub Pipe : Type 0
Pipe = List Chunk

-- `read(fd, p, len)`: what it puts at `p`, or `none` on an error, and the pipe after it.
unfoldable pub read_fd : ℕ → Pipe → Option (List ℕ) × Pipe
read_fd len [] = (some [], [])
read_fd len (failure ∷ pipe) = (none, pipe)
read_fd len (bytes bs ∷ pipe) =
    if leb (length bs) len
    then (some bs, pipe)
    else (some (take len bs), bytes (drop len bs) ∷ pipe)

abbrev pub M : Type 0 → Type 0
M A = Pipe → Option A × Pipe

abbrev pub and_then : {A B : Type 0} → Option A × Pipe → (A → M B) → Option B × Pipe
and_then (none, p) f = (none, p)
and_then (some a, p) f = f a p

infixl 5 ◌>>=◌
abbrev pub ◌>>=◌ : {A B : Type 0} → M A → (A → M B) → M B
◌>>=◌ m f p = and_then (m p) f

abbrev pub return : {A : Type 0} → A → M A
return a p = (some a, p)

-- `deserialise_bytes`. A round takes a byte at least, so more fuel than `len` is never used up.
unfoldable pub read_loop : ℕ → ℕ → M (List ℕ)
read_loop zero len pipe = (none, pipe)
read_loop (suc fuel) zero pipe = (some [], pipe)
read_loop (suc fuel) (suc len) pipe = and_then (read_fd (suc len) pipe) λ got rest. elim got [
  | [] ↦ (none, rest)
  | b ∷ bs ↦
      and_then (read_loop fuel (suc len - length (b ∷ bs)) rest)
        λ more rest'. (some ((b ∷ bs) ++ more), rest')
]

unfoldable pub deserialise_bytes : ℕ → M (List ℕ)
deserialise_bytes len = read_loop (suc len) len

unfoldable pub deserialise_uint : M ℕ
deserialise_uint = deserialise_bytes 4 >>= λ bs. return (le_value bs)

-- The text that a `char *` shows: the bytes before the first NUL.
unfoldable pub c_string : List ℕ → List ℕ
c_string [] = []
c_string (b ∷ bs) = if b == 0 then [] else b ∷ c_string bs

-- `len + 1` is computed in 32 bits.
unfoldable pub deserialise_string : M (List ℕ)
deserialise_string = deserialise_uint >>= λ len.
    if len == 0
    then return []
    else (deserialise_bytes ((len + 1) % 2 ^ 32) >>= λ buf. return (c_string buf))

unfoldable pub deserialise_event : M Event
deserialise_event = do
  which ← deserialise_uint
  description ← deserialise_string
  locflags ← deserialise_uint
  filename ← deserialise_string
  lineno ← deserialise_uint
  function ← deserialise_string
  functype ← deserialise_uint
  return (record {
    which = which;
    description = some description;
    locflags = locflags;
    filename = some filename;
    lineno = lineno;
    function = Function.text function;
    functype = functype;
  })

-- `runner_t::raise_event`: the event that the listeners are given, and the result.
unfoldable pub raise_event : Event → Event × ℕ
raise_event ev = (normalise ev, get_result (normalise ev).which)

-- What a call of `handle_call` does: what it returns, `*resp`, and the event that it raised.
pub record Handled : Type 0 where
  pub call_again : Bool
  pub result : ℕ
  pub raised : List Event

abbrev pub cannot_decode : ℕ → Handled
cannot_decode resp = record { call_again = false; result = merge resp r_fail; raised = [] }

abbrev pub handle_event : ℕ → Option Event × Pipe → Handled × Pipe
handle_event resp (none, p) = (cannot_decode resp, p)
handle_event resp (some ev, p) = (
  record {
    call_again = true;
    result = merge resp (raise_event ev).1;
    raised = (raise_event ev).0 ∷ [];
  },
  p,
)

abbrev pub handle_finished : ℕ → Option ℕ × Pipe → Handled × Pipe
handle_finished resp (none, p) = (cannot_decode resp, p)
handle_finished resp (some res, p) =
    (record { call_again = false; result = merge resp res; raised = [] }, p)

abbrev pub handle_which : ℕ → Option ℕ × Pipe → Handled × Pipe
handle_which resp (none, p) = (cannot_decode resp, p)
handle_which resp (some which, p) =
    if which == proxy_event
    then handle_event resp (deserialise_event p)
    else if which == proxy_finished
    then handle_finished resp (deserialise_uint p)
    else (cannot_decode resp, p)

unfoldable pub handle_call : ℕ → Pipe → Handled × Pipe
handle_call resp pipe = handle_which resp (deserialise_uint pipe)
