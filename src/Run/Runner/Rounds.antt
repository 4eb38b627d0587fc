-- ===== src/Run/Runner/Rounds.antt =====
-- A round of `wait` in which children finish.
use novaprova.Prelude.{
  ℕ, zero, suc, ◌+◌, ◌-◌, ◌%◌, ◌^◌, ◌<◌, ◌≡◌, ◌≢◌, refl, sym, ap, ◌∙◌, subst, true, false, none,
  List, [], ◌∷◌, ◌++◌, arith, ◌==◌, ◌&&◌, ltb, All, Bool-cases, inl, inr,
}
use novaprova.Run.Child.{Child, is_finished, handle_input, handle_hangup}
use novaprova.Run.Runner.{
  polls, to_msec, with_acts, poll_timeout, throttle, Entry, Runner, Act, count_running,
}
use novaprova.Run.Runner.Starting.{IsCounted}
use novaprova.Run.Runner.Reap.{Status, settle}
use novaprova.Run.Runner.Reaping.{
  IsDistinct, finished_of, running_of, endings, script, reap_finished-Reaps,
}
use novaprova.Run.Runner.Wait.{
  Revents, Polled, ready, Waiting, returns, handle_revents, ready_loop, conclude, wait_loop, wait,
}

handle_input-pid : (c : Child) → (handle_input c).0.pid ≡ c.pid
unfolding handle_input
handle_input-pid c = elim (Bool-cases (is_finished c)) [ inl e ↦ rw e | inr e ↦ rw e ]

handle_revents-pid : (v : Revents) (c : Child) → (handle_revents v c).0.pid ≡ c.pid
unfolding handle_revents handle_hangup
handle_revents-pid v c = ground (arith, handle_input-pid c)

ready_apart :
    (pid : ℕ) (es : List Entry) (vs : List Revents)
    → All (λ x. pid ≢ x.child.pid) es
    → All (λ x. pid ≢ x.child.pid) (ready_loop es vs).0.0
unfolding ready_loop
ready_apart pid [] vs h = tt
ready_apart pid (e ∷ es) [] h = h
ready_apart pid (e ∷ es) (v ∷ vs) h = elim (Bool-cases (is_finished e.child)) [
  | inl t ↦ rw t (h.0, ready_apart pid es (v ∷ vs) h.1)
  | inr t ↦ rw t (λ same. h.0 (same ∙ handle_revents-pid v e.child), ready_apart pid es vs h.1)
]

ready-IsDistinct :
    (es : List Entry) (vs : List Revents) → IsDistinct es → IsDistinct (ready_loop es vs).0.0
unfolding ready_loop IsDistinct
ready-IsDistinct [] vs h = tt
ready-IsDistinct (e ∷ es) [] h = h
ready-IsDistinct (e ∷ es) (v ∷ vs) h = elim (Bool-cases (is_finished e.child)) [
  | inl t ↦ rw t (ready_apart e.child.pid es (v ∷ vs) h.0, ready-IsDistinct es (v ∷ vs) h.1)
  | inr t ↦ rw t (
    subst (λ pid. All (λ x. pid ≢ x.child.pid) (ready_loop es vs).0.0)
        (sym (handle_revents-pid v e.child)) (ready_apart e.child.pid es vs h.0),
    ready-IsDistinct es vs h.1,
  )
]

-- Every child that finishes is counted.
pub ready_loop-count :
    (es : List Entry) (vs : List Revents)
    → count_running (ready_loop es vs).0.0 + (ready_loop es vs).0.1 ≡ count_running es
unfolding ready_loop count_running
ready_loop-count [] vs = omega arith
ready_loop-count (e ∷ es) [] = omega arith
ready_loop-count (e ∷ es) (v ∷ vs) =
    let skipped = ready_loop-count es (v ∷ vs) in
    let handled = ready_loop-count es vs in
    elim (Bool-cases (is_finished e.child)) [
      | inl t ↦ rw t (rw t (omega (arith, skipped)))
      | inr t ↦ elim (Bool-cases (is_finished (handle_revents v e.child).0)) [
        | inl u ↦ rw t (rw u (omega (arith, handled)))
        | inr u ↦ rw t (rw u (omega (arith, handled)))
      ]
    ]

count_running-running_of : (es : List Entry) → count_running (running_of es) ≡ count_running es
unfolding count_running running_of
count_running-running_of [] = refl
count_running-running_of (e ∷ es) = elim (Bool-cases (is_finished e.child)) [
  | inl t ↦ rw t (omega (arith, count_running-running_of es))
  | inr t ↦ rw t (rw t (omega (arith, count_running-running_of es)))
]

pub running_of-running : (es : List Entry) → All (λ e. is_finished e.child ≡ false) (running_of es)
unfolding running_of
running_of-running [] = tt
running_of-running (e ∷ es) = elim (Bool-cases (is_finished e.child)) [
  | inl t ↦ rw t (running_of-running es)
  | inr t ↦ rw t (t, running_of-running es)
]

-- `wait` has returned, with the count right, and with no finished child left on the list.
pub record Returns (o : Waiting × List Act) : Type 0 where
  pub left : Runner
  pub told : List Act
  pub returned : o ≡ (returns left, told)
  pub still : IsCounted left
  pub all_running : All (λ e. is_finished e.child ≡ false) left.children

with_acts-Returns :
    (as_ : List Act) (o : Waiting × List Act) → Returns o → Returns (with_acts as_ o)
with_acts-Returns as_ o h = record {
  left = h.left;
  told = as_ ++ h.told;
  returned = rw (h.returned) refl;
  still = h.still;
  all_running = h.all_running;
}

module _ (dec : ℕ → List ℕ) (status : Entry → Status) where
  settled :
      (r left : Runner) (es : List Entry) (k : ℕ)
      → IsCounted r
      → count_running es + k ≡ count_running r.children
      → left.children ≡ running_of es
      → left.nrunning ≡ (r.nrunning + (2 ^ 32 - k % 2 ^ 32)) % 2 ^ 32
      → left.maxchildren ≡ r.maxchildren
      → IsCounted left
  settled r left es k h n c m x =
      let same_count : count_running left.children ≡ count_running es =
        ap count_running c ∙ count_running-running_of es in
      record {
        counted = omega (arith, same_count, n, m, h.counted, h.room, h.max_fits);
        room = omega (arith, same_count, n, m, x, h.counted, h.room, h.max_fits);
        max_fits = omega (arith, x, h.max_fits);
      }

  conclude-Returns :
      (r : Runner) (es : List Entry) (k : ℕ) (again : Waiting × List Act)
      → IsCounted r
      → IsDistinct es
      → r.nrun < 2 ^ 32
      → r.nfailed < 2 ^ 32
      → count_running es + suc k ≡ count_running r.children
      → Returns (
          conclude dec
            (suc k)
            (script dec status (finished_of es))
            (record r { children = es })
            again)
  unfolding conclude settle
  conclude-Returns r es k again h i a b n =
      let r' : Runner = record r {
        children = es;
        nrunning = (r.nrunning + (2 ^ 32 - suc k % 2 ^ 32)) % 2 ^ 32;
      } in
      let reaped = reap_finished-Reaps dec status r' i a b in
      record {
        left = reaped.left;
        told = endings dec status (finished_of es);
        returned = rw (reaped.told, conclude) refl;
        still =
            settled r reaped.left es (suc k) h n reaped.children reaped.nrunning reaped.maxchildren;
        all_running =
            subst (All (λ e. is_finished e.child ≡ false)) (sym reaped.children)
              (running_of-running es);
      }

  conclude-Returns_pos :
      (r : Runner) (es : List Entry) (k : ℕ) (again : Waiting × List Act)
      → IsCounted r
      → IsDistinct es
      → r.nrun < 2 ^ 32
      → r.nfailed < 2 ^ 32
      → 0 < k
      → count_running es + k ≡ count_running r.children
      → Returns
          (conclude dec k (script dec status (finished_of es)) (record r { children = es }) again)
  conclude-Returns_pos r es zero again h i a b pos n = absurd (omega arith)
  conclude-Returns_pos r es (suc k) again h i a b pos n = conclude-Returns r es k again h i a b n

  -- A round of `wait` in which a child finishes, be it by the end of its job or as its pipe is hung
  -- up, is the last: if `waitpid` gives each finished child, the assertions hold, `wait` returns, all
  -- finished children have been reaped, and `nrunning_` is the number of the others.
  pub wait-Returns :
      (start : ℕ) (vs : List Revents) (rest : List (ℕ × Polled)) (r : Runner)
      → IsCounted r
      → IsDistinct r.children
      → r.nrun < 2 ^ 32
      → r.nfailed < 2 ^ 32
      → 0 < (ready_loop r.children vs).0.1
      → Returns (
          wait dec
            ((start, ready vs (script dec status (finished_of (ready_loop r.children vs).0.0)))
              ∷ rest)
            r)
  unfolding wait wait_loop
  wait-Returns start vs rest r h i a b n =
      let es = (ready_loop r.children vs).0.0 in
      let k = (ready_loop r.children vs).0.1 in
      let sum = ready_loop-count r.children vs in
      let some_run : (r.nrunning == 0) ≡ false = ground (arith, sum, h.counted, n) in
      let holds : (count_running r.children == r.nrunning && ltb 0 (count_running r.children))
          ≡ true =
        ground (arith, sum, h.counted, n) in
      let t = throttle 0 (poll_timeout start r.children none) in
      rw some_run (
        rw holds (
          with_acts-Returns (polls (count_running r.children) (to_msec t.0) ∷ []) _ (
            with_acts-Returns (ready_loop r.children vs).1 _ (
              conclude-Returns_pos r es k (wait_loop dec rest t.1 (record r { children = es })) h
                (ready-IsDistinct r.children vs i) a b n sum))))
