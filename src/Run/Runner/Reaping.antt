-- ===== src/Run/Runner/Reaping.antt =====
-- The children that are finished are reaped in the order of their start.
use novaprova.Prelude.{
  ℕ, zero, suc, ◌+◌, ◌%◌, ◌^◌, ◌≤◌, ◌<◌, ◌≡◌, ◌≢◌, refl, sym, ap, ◌∙◌, subst, true, false, Option,
  some, List, [], ◌∷◌, ◌++◌, append-nil, append_assoc, arith, ◌==◌, ==_iff, if◌then◌else◌, length,
  All, All-append, Bool-cases, inl, inr,
}
use novaprova.Run.Types.{r_pass, r_fail}
use novaprova.Run.Child.{is_finished, merge_result}
use novaprova.Run.Runner.{Entry, Runner, Act, ends}
use novaprova.Run.Runner.Reap.{
  Waited, ended, no_child, Status, take_status, detach, find_pid, any_finished, reap_children,
  reap_finished, behind_acts,
}

-- No two of the children have one process id.
unfoldable pub IsDistinct : List Entry → Type 0
IsDistinct [] = Unit {0}
IsDistinct (e ∷ es) = All (λ x. e.child.pid ≢ x.child.pid) es × IsDistinct es

unfoldable pub finished_of : List Entry → List Entry
finished_of [] = []
finished_of (e ∷ es) = if is_finished e.child then e ∷ finished_of es else finished_of es

unfoldable pub running_of : List Entry → List Entry
running_of [] = []
running_of (e ∷ es) = if is_finished e.child then running_of es else e ∷ running_of es

differs : (a b : ℕ) → a ≢ b → (a == b) ≡ false
differs a b h = elim (Bool-cases (a == b)) [ inl e ↦ absurd (h ((==_iff a b).0 e)) | inr e ↦ e ]

find_pid-first :
    (kept es : List Entry) (e : Entry)
    → All (λ k. k.child.pid ≢ e.child.pid) kept
    → find_pid e.child.pid (kept ++ e ∷ es) ≡ some (kept, e, es)
unfolding find_pid
find_pid-first [] es e h = rw ((==_iff e.child.pid e.child.pid).1 refl)
find_pid-first (k ∷ kept) es e h =
    rw (differs k.child.pid e.child.pid h.0) (rw (find_pid-first kept es e h.1))

apart :
    (kept : List Entry) (e : Entry) (es : List Entry)
    → All (λ x. All (λ k. k.child.pid ≢ x.child.pid) kept) es
    → All (λ x. e.child.pid ≢ x.child.pid) es
    → All (λ x. All (λ k. k.child.pid ≢ x.child.pid) (kept ++ e ∷ [])) es
apart kept e [] d h = tt
apart kept e (x ∷ es) d h = (
  All-append (λ k. k.child.pid ≢ x.child.pid) kept (e ∷ []) d.0 (h.0, tt),
  apart kept e es d.1 h.1,
)

All-apart : (es : List Entry) → All (λ x. All (λ (k : Entry). k.child.pid ≢ x.child.pid) []) es
All-apart [] = tt
All-apart (e ∷ es) = (tt, All-apart es)

module _ (dec : ℕ → List ℕ) (status : Entry → Status) where
  -- What `waitpid` returns for the finished children: each with its status, and then no more.
  unfoldable pub script : List Entry → List Waited
  script [] = []
  script (e ∷ es) = ended e.child.pid (status e) ∷ no_child ∷ script es

  abbrev last_of : Entry → Entry
  last_of e = (take_status dec (status e) e).0.0

  -- What the listeners are told of a child, and whether it counts as a failure.
  abbrev pub ending : Entry → List Act
  ending e =
      (take_status dec (status e) e).1
      ++ ends (last_of e).job (merge_result r_pass (last_of e).child).result ∷ []

  unfoldable pub endings : List Entry → List Act
  endings [] = []
  endings (e ∷ es) = ending e ++ endings es

  unfoldable pub failures : List Entry → ℕ
  failures [] = 0
  failures (e ∷ es) =
      (if (merge_result r_pass (last_of e).child).result == r_fail then 1 else 0) + failures es

  -- What is left when these have been reaped.
  pub record Reaps (kept done : List Entry) (r : Runner) (o : Option (Runner × List Act))
      : Type 0 where
    pub left : Runner
    pub told : o ≡ some (left, endings done)
    pub children : left.children ≡ kept
    pub nrunning : left.nrunning ≡ r.nrunning
    pub maxchildren : left.maxchildren ≡ r.maxchildren
    pub nrun : left.nrun ≡ (r.nrun + length done) % 2 ^ 32
    pub nfailed : left.nfailed ≡ (r.nfailed + failures done) % 2 ^ 32

  -- One round.
  reap_one :
      (kept es : List Entry) (e : Entry) (ws : List Waited) (r : Runner)
      → All (λ k. k.child.pid ≢ e.child.pid) kept
      → r.children ≡ kept ++ e ∷ es
      → reap_children dec (ended e.child.pid (status e) ∷ no_child ∷ ws) 0 r
        ≡ some (
          (0 + (take_status dec (status e) e).0.1, (detach kept (last_of e) es r).0, ws),
          ending e ++ [],
        )
  unfolding reap_children detach
  reap_one kept es e ws r h c =
      let found : find_pid e.child.pid r.children ≡ some (kept, e, es) =
        ap (find_pid e.child.pid) c ∙ find_pid-first kept es e h in
      rw (found, reap_children) refl

  any_finished-kept :
      (kept es : List Entry)
      → All (λ k. is_finished k.child ≡ false) kept
      → any_finished (kept ++ es) ≡ any_finished es
  unfolding any_finished
  any_finished-kept [] es h = refl
  any_finished-kept (k ∷ kept) es h = rw (h.0) (any_finished-kept kept es h.1)

  Reaps-ending :
      (kept done before behind : List Entry) (e : Entry) (r : Runner)
      (o : Option (Runner × List Act))
      → Reaps kept done (detach before (last_of e) behind r).0 o
      → Reaps kept (e ∷ done) r (behind_acts (ending e ++ []) o)
  unfolding detach endings failures
  Reaps-ending kept done before behind e r o k = record {
    left = k.left;
    told = rw (k.told) (ap (λ l. some (k.left, l ++ endings done)) (append-nil (ending e)));
    children = k.children;
    nrunning = k.nrunning;
    maxchildren = k.maxchildren;
    nrun = omega (arith, k.nrun);
    nfailed = omega (arith, k.nfailed);
  }

  Reaps-from :
      (es kept : List Entry) (rounds : ℕ) (r : Runner)
      → All (λ k. is_finished k.child ≡ false) kept
      → All (λ e. All (λ k. k.child.pid ≢ e.child.pid) kept) es
      → IsDistinct es
      → r.children ≡ kept ++ es
      → r.nrun < 2 ^ 32
      → r.nfailed < 2 ^ 32
      → length (finished_of es) < rounds
      → Reaps
          (kept ++ running_of es)
          (finished_of es)
          r
          (reap_finished dec rounds (script (finished_of es)) r)
  unfolding reap_finished script finished_of running_of IsDistinct detach endings failures
      any_finished
  Reaps-from [] kept zero r f d i c a b fits = absurd (omega arith)
  Reaps-from [] kept (suc rounds) r f d i c a b fits =
      let over : any_finished r.children ≡ false =
        ap any_finished c ∙ any_finished-kept kept [] f in
      record {
        left = r;
        told = rw over;
        children = c;
        nrunning = refl;
        maxchildren = refl;
        nrun = omega arith;
        nfailed = omega arith;
      }
  Reaps-from (e ∷ es) kept zero r f d i c a b fits = absurd (omega arith)
  Reaps-from (e ∷ es) kept (suc rounds) r f d i c a b fits =
      elim (Bool-cases (is_finished e.child)) [
        | inl t ↦
            let going : any_finished r.children ≡ true =
              ap any_finished c ∙ any_finished-kept kept (e ∷ es) f ∙ rw t in
            let fewer : length (finished_of es) < rounds = ground (arith, t) in
            let r' = (detach kept (last_of e) es r).0 in
            rw t (
              rw going (
                rw (reap_one kept es e (script (finished_of es)) r d.0 c) (
                  Reaps-ending (kept ++ running_of es) (finished_of es) kept es e r
                    (reap_finished dec rounds (script (finished_of es)) r')
                    (Reaps-from es kept rounds r' f d.1 i.1 refl (omega arith) (omega arith)
                      fewer))))
        | inr t ↦
            let same_fits : length (finished_of es) < suc rounds = ground (arith, t) in
            rw t (
              subst
                (λ l.
                  Reaps l (finished_of es) r
                    (reap_finished dec (suc rounds) (script (finished_of es)) r))
                (append_assoc kept (e ∷ []) (running_of es))
                (Reaps-from es (kept ++ e ∷ []) (suc rounds) r
                  (All-append (λ k. is_finished k.child ≡ false) kept (e ∷ []) f (t, tt))
                  (apart kept e es d.1 i.0) i.1 (c ∙ sym (append_assoc kept (e ∷ []) es)) a b
                  same_fits))
      ]

  length-script : (es : List Entry) → length es ≤ length (script es)
  unfolding script
  length-script [] = omega arith
  length-script (e ∷ es) = omega (arith, length-script es)

  -- If `waitpid` gives each finished child, with whatever status, when asked for it, the loop that
  -- reaps them comes to its end. It has taken exactly the finished children off the list, has told
  -- the listeners of them in the order of their start, and has counted each of them and the failures.
  pub reap_finished-Reaps :
      (r : Runner)
      → IsDistinct r.children
      → r.nrun < 2 ^ 32
      → r.nfailed < 2 ^ 32
      → let done = finished_of r.children in
        Reaps
          (running_of r.children)
          done
          r
          (reap_finished dec (suc (length (script done))) (script done) r)
  reap_finished-Reaps r i a b =
      Reaps-from r.children [] (suc (length (script (finished_of r.children)))) r tt
        (All-apart r.children) i refl a b (omega (arith, length-script (finished_of r.children)))
