-- ===== src/Run/TestCode/Judged.antt =====
-- What a part of the child's code makes of the result, against the events that it raises.
use novaprova.Prelude.{ℕ, ◌≤◌, ◌<◌, Option, none, some, List, [], ◌∷◌, ◌++◌, arith, All}
use novaprova.Run.Types.{merge, r_fail}
use novaprova.Run.Event.{Event, get_result, normalise, in_functype}
use novaprova.Run.Proxy.{raise_event}
use novaprova.Run.TestCode.{
  Step, applies, unapplies, patches, calls, raises, M, after, and_then, merge_event, catch,
}

-- The events among the steps.
unfoldable pub raised : List Step → List Event
raised [] = []
raised (applies a ∷ steps) = raised steps
raised (unapplies a ∷ steps) = raised steps
raised (patches i ∷ steps) = raised steps
raised (calls f ∷ steps) = raised steps
raised (raises ev ∷ steps) = ev ∷ raised steps

-- No event is a failure.
abbrev pub IsFine : List Event → Type 0
IsFine = All (λ ev. get_result ev.which < r_fail)

get_result-le : (which : ℕ) → get_result which ≤ r_fail
unfolding get_result
get_result-le which = ground arith

-- What code that has been given the result `r0` makes of it.
unfoldable pub Judged : {W : Type 0} → ℕ → List Step × Option ℕ × W → Type 0
Judged r0 (steps, none, w) = Unit {0}
Judged r0 (steps, some r, w) =
    (r0 ≤ r) × (r0 ≤ r_fail → r ≤ r_fail) × (r0 < r_fail → IsFine (raised steps) → r < r_fail)

IsFine-behind : (steps more : List Step) → IsFine (raised (steps ++ more)) → IsFine (raised more)
unfolding raised
IsFine-behind [] more h = h
IsFine-behind (applies a ∷ steps) more h = IsFine-behind steps more h
IsFine-behind (unapplies a ∷ steps) more h = IsFine-behind steps more h
IsFine-behind (patches i ∷ steps) more h = IsFine-behind steps more h
IsFine-behind (calls f ∷ steps) more h = IsFine-behind steps more h
IsFine-behind (raises ev ∷ steps) more h = IsFine-behind steps more h.1

IsFine-before : (steps more : List Step) → IsFine (raised (steps ++ more)) → IsFine (raised steps)
unfolding raised
IsFine-before [] more h = tt
IsFine-before (applies a ∷ steps) more h = IsFine-before steps more h
IsFine-before (unapplies a ∷ steps) more h = IsFine-before steps more h
IsFine-before (patches i ∷ steps) more h = IsFine-before steps more h
IsFine-before (calls f ∷ steps) more h = IsFine-before steps more h
IsFine-before (raises ev ∷ steps) more h = (h.0, IsFine-before steps more h.1)

module _ {W : Type 0} where
  after-Judged :
      (r0 : ℕ) (steps : List Step) (q : List Step × Option ℕ × W)
      → Judged r0 q
      → Judged r0 (after steps q)
  unfolding Judged
  after-Judged r0 steps (more, none, w) h = tt
  after-Judged r0 steps (more, some r, w) (a, b, c) =
      (a, b, λ low fine. c low (IsFine-behind steps more fine))

  -- Code whose answer is not the result stands in front.
  pub then-Judged :
      {A : Type 0} (r0 : ℕ) (q : List Step × Option A × W) (f : A → M W ℕ)
      → ((a : A) (w : W) → Judged r0 (f a w))
      → Judged r0 (and_then q f)
  unfolding Judged
  then-Judged r0 (steps, none, w) f h = tt
  then-Judged r0 (steps, some a, w) f h = after-Judged r0 steps (f a w) (h a w)

  joins :
      (r0 r : ℕ) (steps : List Step) (q : List Step × Option ℕ × W)
      → Judged {W = W} r0 (steps, some r, q.2)
      → Judged r q
      → Judged r0 (after steps q)
  unfolding Judged
  joins r0 r steps (more, none, w) h k = tt
  joins r0 r steps (more, some s, w) (a, b, c) (a', b', c') = (
    omega arith,
    λ le. b' (b le),
    λ low fine. c' (c low (IsFine-before steps more fine)) (IsFine-behind steps more fine),
  )

  -- Code whose answer is the result.
  pub with-Judged :
      (r0 : ℕ) (q : List Step × Option ℕ × W) (f : ℕ → M W ℕ)
      → Judged r0 q
      → ((r : ℕ) (w : W) → Judged r (f r w))
      → Judged r0 (and_then q f)
  unfolding Judged
  with-Judged r0 (steps, none, w) f h k = tt
  with-Judged r0 (steps, some r, w) f h k = joins r0 r steps (f r w) h (k r w)

  pub keeps-Judged : (r : ℕ) (w : W) → Judged {W = W} r ([], some r, w)
  unfolding Judged
  keeps-Judged r w = (omega arith, λ le. le, λ low fine. low)

  pub merge_event-Judged :
      (res : ℕ) (ev : Event) (w : W) → Judged {W = W} res (merge_event res ev w)
  unfolding merge_event merge raise_event raised Judged
  merge_event-Judged res ev w =
      let le = get_result-le (normalise ev).which in
      (ground (arith, le), λ b. ground (arith, le), λ low fine. ground (arith, fine.0))

  pub catch-Judged :
      (type res : ℕ) (thrown : Option Event) (w : W) → Judged {W = W} res (catch type res thrown w)
  unfolding catch
  catch-Judged type res none w = keeps-Judged res w
  catch-Judged type res (some ev) w = merge_event-Judged res (in_functype type ev) w

  -- The result, if there is one, is not R_UNKNOWN.
  unfoldable pub IsPositive : List Step × Option ℕ × W → Type 0
  IsPositive (steps, none, w) = Unit {0}
  IsPositive (steps, some r, w) = 0 < r

  after-IsPositive :
      (steps : List Step) (q : List Step × Option ℕ × W) → IsPositive q → IsPositive (after steps q)
  unfolding IsPositive
  after-IsPositive steps (more, none, w) h = tt
  after-IsPositive steps (more, some r, w) h = h

  pub then-IsPositive :
      {A : Type 0} (q : List Step × Option A × W) (f : A → M W ℕ)
      → ((a : A) (w : W) → IsPositive (f a w))
      → IsPositive (and_then q f)
  unfolding IsPositive
  then-IsPositive (steps, none, w) f h = tt
  then-IsPositive (steps, some a, w) f h = after-IsPositive steps (f a w) (h a w)

  higher-IsPositive : (r : ℕ) (q : List Step × Option ℕ × W) → 0 < r → Judged r q → IsPositive q
  unfolding IsPositive Judged
  higher-IsPositive r (steps, none, w) h j = tt
  higher-IsPositive r (steps, some s, w) h j = omega (arith, j.0)

  pub stays-IsPositive :
      (q : List Step × Option ℕ × W) (f : ℕ → M W ℕ)
      → IsPositive q
      → ((r : ℕ) (w : W) → Judged r (f r w))
      → IsPositive (and_then q f)
  unfolding IsPositive
  stays-IsPositive (steps, none, w) f h k = tt
  stays-IsPositive (steps, some r, w) f h k =
      after-IsPositive steps (f r w) (higher-IsPositive r (f r w) h (k r w))
