-- ===== src/Run/Event.antt =====
-- np/event.hxx and np/event.cxx: the events that a test raises.
-- A `const char *` is an `Option`, with `none` for null. `event_t::function` points at a text or,
-- under LT_SPIEGELFUNC, at a `function_t`, of which only the two names that are read are kept.
-- Not modelled: `with_stack` (it unwinds the stack) and the copying of `clone` and `save_strings`.
pub mod Normal
use novaprova.Prelude.{
  ℕ, Bool, Option, none, some, List, [], ◌∷◌, ◌++◌, ltb, ◌==◌, if◌then◌else◌, bit_and, bit_or,
  get_or, length, not, ◌||◌,
}
use novaprova.Prelude.Bytes.{codes}
use novaprova.Run.Types.{r_unknown, r_pass, r_notapplicable, r_fail, ft_unknown, as_string}

pub record SpiegelFunction : Type 0 where
  pub absolute_path : List ℕ
  pub name : List ℕ

pub data Function : Type 0 where
  null : Function
  text : List ℕ → Function
  spiegel : SpiegelFunction → Function

pub record Event : Type 0 where
  pub which : ℕ
  pub description : Option (List ℕ)
  pub locflags : ℕ
  pub filename : Option (List ℕ)
  pub lineno : ℕ
  pub function : Function
  pub functype : ℕ

-- enum locflags_t
abbrev pub lt_filename : ℕ
lt_filename = 1

abbrev pub lt_lineno : ℕ
lt_lineno = 2

abbrev pub lt_funcname : ℕ
lt_funcname = 4

abbrev pub lt_spiegelfunc : ℕ
lt_spiegelfunc = 8

abbrev pub lt_stack : ℕ
lt_stack = 16

abbrev pub lt_functype : ℕ
lt_functype = 32

-- `flags & mask`, as a condition.
abbrev pub has : ℕ → ℕ → Bool
has flags mask = not (bit_and flags mask == 0)

-- `event_t()`
abbrev pub no_event : Event
no_event = record {
  which = 0;
  description = none;
  locflags = 0;
  filename = none;
  lineno = 0;
  function = Function.null;
  functype = ft_unknown;
}

-- `xstr(s)`
abbrev pub xstr : Option (List ℕ) → List ℕ
xstr none = []
xstr (some s) = s

abbrev pub function_text : Function → List ℕ
function_text Function.null = []
function_text (Function.text s) = s
function_text (Function.spiegel f) = []

unfoldable pub at_line : List ℕ → ℕ → Event → Event
at_line f l e = record e {
  locflags = bit_or e.locflags (bit_or lt_filename lt_lineno);
  filename = some f;
  lineno = l;
}

unfoldable pub in_file : List ℕ → Event → Event
in_file f e = record e { locflags = bit_or e.locflags lt_filename; filename = some f }

-- `locflags &= ~LT__function`, in 32 bits.
abbrev pub clear_function : ℕ → ℕ
clear_function flags = bit_and flags 0xffffffe3

unfoldable pub in_function : List ℕ → Event → Event
in_function fn e = record e {
  locflags = bit_or (clear_function e.locflags) lt_funcname;
  function = Function.text fn;
}

unfoldable pub in_spiegel_function : SpiegelFunction → Event → Event
in_spiegel_function fn e = record e {
  locflags = bit_or (clear_function e.locflags) lt_spiegelfunc;
  function = Function.spiegel fn;
}

unfoldable pub in_functype : ℕ → Event → Event
in_functype ft e = record e { locflags = bit_or e.locflags lt_functype; functype = ft }

-- The steps of `normalise`, in its order. `this` comes in from `event_t()`.
unfoldable pub copy_functype : Event → Event → Event
unfolding in_functype
copy_functype orig e = if has orig.locflags lt_functype then in_functype orig.functype e else e

unfoldable pub copy_position : Event → Event → Event
unfolding at_line in_file
copy_position orig e =
    if bit_and orig.locflags 3 == 3
    then at_line (xstr orig.filename) orig.lineno e
    else if has orig.locflags lt_filename
    then in_file (xstr orig.filename) e
    else e

unfoldable pub copy_function : Event → Event → Event
unfolding in_function
copy_function orig e =
    if has orig.locflags lt_funcname then in_function (function_text orig.function) e else e

unfoldable pub copy_stack : Event → Event → Event
copy_stack orig e =
    if has orig.locflags lt_stack
    then record e {
      locflags = bit_or e.locflags lt_stack;
      function = Function.text (function_text orig.function);
    }
    else e

-- The function that the cast of `orig->function` gives under LT_SPIEGELFUNC. Anything else there
-- breaks the event's own rule.
abbrev pub spiegel_or : Function → SpiegelFunction
spiegel_or (Function.spiegel f) = f
spiegel_or _ = record { absolute_path = []; name = [] }

unfoldable pub copy_spiegel : Event → Event → Event
unfolding in_file in_function
copy_spiegel orig e =
    let f = spiegel_or orig.function in in_function f.name (in_file f.absolute_path e)

-- `n_ev.normalise(orig)` on a fresh event.
unfoldable pub normalise : Event → Event
unfolding copy_functype copy_position copy_function copy_stack copy_spiegel
normalise orig =
    let e =
      copy_functype orig
        (record no_event { which = orig.which; description = some (xstr orig.description) }) in
    if has orig.locflags lt_spiegelfunc
    then copy_spiegel orig e
    else copy_stack orig (copy_function orig (copy_position orig e))

-- enum events_t: EV_ASSERT, EV_EXIT, EV_SIGNAL, EV_SYSLOG, EV_FIXTURE, EV_EXPASS, EV_EXFAIL,
-- EV_EXNA, EV_VALGRIND, EV_SLMATCH, EV_TIMEOUT, EV_FDLEAK and EV_EXCEPTION are 1 to 13.
unfoldable pub get_result : ℕ → ℕ
get_result which =
    if which == 1
      || which == 2
      || which == 3
      || which == 5
      || which == 9
      || which == 10
      || which == 11
      || which == 12
      || which == 13
    then r_fail
    else if which == 6
    then r_pass
    else if which == 7
    then r_fail
    else if which == 8
    then r_notapplicable
    else r_unknown

abbrev pub whichstrs : List (List ℕ)
whichstrs =
    codes "NONE"
    ∷ codes "ASSERT"
    ∷ codes "EXIT"
    ∷ codes "SIGNAL"
    ∷ codes "SYSLOG"
    ∷ codes "FIXTURE"
    ∷ codes "EXPASS"
    ∷ codes "EXFAIL"
    ∷ codes "EXNA"
    ∷ codes "VALGRIND"
    ∷ codes "SLMATCH"
    ∷ codes "TIMEOUT"
    ∷ codes "FDLEAK"
    ∷ codes "EXCEPTION"
    ∷ []

unfoldable pub which_as_string : ℕ → List ℕ
which_as_string which =
    if ltb which (length whichstrs) then get_or whichstrs which [] else codes "unknown"

-- The two reports of a location. `dec` prints an unsigned number.
module _ (dec : ℕ → List ℕ) where
  unfoldable pub get_short_location : Event → List ℕ
  unfolding as_string
  get_short_location e =
      (if has e.locflags lt_filename
        then codes " at "
          ++ (xstr e.filename
              ++ (codes ":" ++ (if has e.locflags lt_lineno then dec e.lineno else codes "???")))
        else [])
      ++ (if has e.locflags lt_funcname
          then codes " in "
            ++ ((if has e.locflags lt_functype
                  then codes "(" ++ (as_string e.functype ++ codes ") ")
                  else [])
                ++ function_text e.function)
          else [])

  unfoldable pub get_long_location : Event → List ℕ
  unfolding get_short_location
  get_long_location e =
      if has e.locflags lt_stack
      then ((if bit_and e.locflags 3 == 3 then get_short_location e ++ (10 ∷ []) else [])
          ++ function_text e.function)
      else get_short_location e ++ (10 ∷ [])
