-- ===== src/Run/TestCode/Silent.antt =====
-- The functions that a part of the child's code calls, and the parts that call none.
use novaprova.Prelude.{
  ℕ, zero, suc, ◌≡◌, refl, sym, ap, ◌∙◌, subst, Option, none, some, List, [], ◌∷◌, ◌++◌, map, ◌==◌,
  Bool-cases, inl, inr, get_or, append-nil,
}
use novaprova.Run.Event.{Event}
use novaprova.Run.Assignment.{Assignment}
use novaprova.Suite.Tree.{Place, Patch, pre_run, post_run}
use novaprova.Util.FileName.{same}
use novaprova.Run.TestCode.{
  Step, applies, unapplies, patches, calls, raises, M, after, and_then, merge_event, catch, Process,
  leaks_loop, leak_event, report, valgrind_errors, leaked_text, error_text, job_pre_run,
  job_post_run,
}

-- The functions that are called.
unfoldable pub called : List Step → List ℕ
called [] = []
called (applies a ∷ steps) = called steps
called (unapplies a ∷ steps) = called steps
called (patches i ∷ steps) = called steps
called (calls f ∷ steps) = f ∷ called steps
called (raises ev ∷ steps) = called steps

pub called-append : (xs ys : List Step) → called (xs ++ ys) ≡ called xs ++ called ys
unfolding called
called-append [] ys = refl
called-append (applies a ∷ xs) ys = called-append xs ys
called-append (unapplies a ∷ xs) ys = called-append xs ys
called-append (patches i ∷ xs) ys = called-append xs ys
called-append (calls f ∷ xs) ys = ap (◌∷◌ f) (called-append xs ys)
called-append (raises ev ∷ xs) ys = called-append xs ys

module _ {X : Type 0} (f : X → Event) where
  pub called-raises : (xs : List X) → called (map (λ x. raises (f x)) xs) ≡ []
  unfolding called
  called-raises [] = refl
  called-raises (x ∷ xs) = called-raises xs

called-applies : (as_ : List Assignment) → called (map applies as_) ≡ []
unfolding called
called-applies [] = refl
called-applies (a ∷ as_) = called-applies as_

called-unapplies : (as_ : List Assignment) → called (map unapplies as_) ≡ []
unfolding called
called-unapplies [] = refl
called-unapplies (a ∷ as_) = called-unapplies as_

called-patches : (is : List Patch) → called (map patches is) ≡ []
unfolding called
called-patches [] = refl
called-patches (i ∷ is) = called-patches is

module _ {W : Type 0} where
  abbrev pub IsSilent : {A : Type 0} → List Step × Option A × W → Type 0
  IsSilent q = called q.0 ≡ []

  pub called-after :
      {A : Type 0} (steps : List Step) (q : List Step × Option A × W)
      → called (after steps q).0 ≡ called steps ++ called q.0
  called-after steps (more, o, w) = called-append steps more

  -- Silent code in front, and behind.
  pub silent_then :
      {A B : Type 0} (P : List ℕ → Type 0) (q : List Step × Option A × W) (f : A → M W B)
      → IsSilent q
      → P []
      → ((a : A) (w : W) → P (called (f a w).0))
      → P (called (and_then q f).0)
  silent_then P (steps, none, w) f e p h = subst P (sym e) p
  silent_then P (steps, some a, w) f e p h =
      subst P (sym (called-after steps (f a w) ∙ ap (λ l. l ++ called (f a w).0) e)) (h a w)

  pub then_silent :
      {A B : Type 0} (q : List Step × Option A × W) (f : A → M W B)
      → ((a : A) (w : W) → IsSilent (f a w))
      → called (and_then q f).0 ≡ called q.0
  then_silent (steps, none, w) f h = refl
  then_silent (steps, some a, w) f h =
      called-after steps (f a w) ∙ rw (h a w) (append-nil (called steps))

  pub both-IsSilent :
      {A B : Type 0} (q : List Step × Option A × W) (f : A → M W B)
      → IsSilent q
      → ((a : A) (w : W) → IsSilent (f a w))
      → IsSilent (and_then q f)
  both-IsSilent q f e h = then_silent q f h ∙ e

  pub catch-IsSilent :
      (type res : ℕ) (thrown : Option Event) (w : W) → IsSilent (catch {W = W} type res thrown w)
  unfolding catch merge_event called
  catch-IsSilent type res none w = refl
  catch-IsSilent type res (some ev) w = refl

module _ {W : Type 0} (os : Process W) where
  pub leaks-IsSilent :
      (rounds fd : ℕ) (prefds postfds : List (List ℕ)) (res : ℕ) (w : W)
      → IsSilent (leaks_loop os rounds fd prefds postfds res w)
  unfolding leaks_loop merge_event called
  leaks-IsSilent zero fd prefds postfds res w = refl
  leaks-IsSilent (suc rounds) fd prefds postfds res w =
      elim (Bool-cases (same (get_or prefds fd []) (get_or postfds fd []))) [
        | inl e ↦ rw e (leaks-IsSilent rounds (suc fd) prefds postfds res w)
        | inr e ↦ rw e (
            both-IsSilent
              (merge_event res (leak_event os fd (get_or prefds fd []) (get_or postfds fd [])) w)
              (leaks_loop os rounds (suc fd) prefds postfds) refl
              (leaks-IsSilent rounds (suc fd) prefds postfds))
      ]

  report-IsSilent :
      (count : ℕ) (text : List ℕ) (res : ℕ) (w : W) → IsSilent (report os count text res w)
  unfolding report merge_event called
  report-IsSilent count text res w = elim (Bool-cases (count == 0)) [ inl e ↦ rw e | inr e ↦ rw e ]

  pub valgrind-IsSilent :
      (counts : Option (ℕ × ℕ)) (res : ℕ) (w : W) → IsSilent (valgrind_errors os counts res w)
  unfolding valgrind_errors called
  valgrind-IsSilent none res w = refl
  valgrind-IsSilent (some (leaked, nerrors)) res w =
      both-IsSilent (report os leaked leaked_text res w) (report os nerrors error_text)
        (report-IsSilent leaked leaked_text res w) (report-IsSilent nerrors error_text)

  pub pre_run-IsSilent :
      (p : Place) (assigns : List Assignment) (w : W) → IsSilent (job_pre_run os p assigns w)
  unfolding job_pre_run
  pre_run-IsSilent p assigns w =
      called-append (map applies assigns) (map patches (pre_run p))
      ∙ rw (called-applies assigns, called-patches (pre_run p))

  pub post_run-IsSilent :
      (p : Place) (assigns : List Assignment) (w : W) → IsSilent (job_post_run os p assigns w)
  unfolding job_post_run
  post_run-IsSilent p assigns w =
      let uninstalled = (post_run (os.dynamic_intercepts w) p).0 in
      called-append (map patches uninstalled) (map unapplies assigns)
      ∙ rw (called-unapplies assigns, called-patches uninstalled)
