-- ===== src/Run/Event/Normal.antt =====
-- What `event_t::normalise` keeps.
use novaprova.Prelude.{◌≡◌, false, arith}
use novaprova.Run.Event.{Event, normalise, has, lt_spiegelfunc}

-- Normalising is done in the child and again in the parent: the second time changes nothing.
pub normalise-normalise : (e : Event) → normalise (normalise e) ≡ normalise e
unfolding normalise
normalise-normalise e = ground arith

-- Normalising leaves the outcome as it is, and what is left refers to no `function_t` any more.
pub normalise_plain :
    (e : Event)
    → ((normalise e).which ≡ e.which) × (has (normalise e).locflags lt_spiegelfunc ≡ false)
unfolding normalise
normalise_plain e = ground arith
