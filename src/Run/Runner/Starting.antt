-- ===== src/Run/Runner/Starting.antt =====
-- Jobs are begun while there is room.
use novaprova.Prelude.{
  ℕ, ◌+◌, ◌*◌, ◌^◌, ◌≤◌, ◌<◌, ◌≡◌, refl, ◌∙◌, List, [], ◌∷◌, ◌++◌, arith, ltb, ◌==◌, if◌then◌else◌,
  Bool-cases, inl, inr, ◌⊎◌,
}
use novaprova.Run.Child.{Child, State, nanosec_per_sec, new_child, set_deadline}
use novaprova.Run.Runner.{Entry, Runner, Forked, count_running, fork_child, begin_job, fill}

pub count_running-append :
    (xs ys : List Entry) → count_running (xs ++ ys) ≡ count_running xs + count_running ys
unfolding count_running
count_running-append [] ys = omega arith
count_running-append (x ∷ xs) ys = omega (arith, count_running-append xs ys)

-- `nrunning_` is the number of children that are not finished, none of which is lost to 32 bits, and
-- there are no more of them than `maxchildren_`.
pub record IsCounted (r : Runner) : Type 0 where
  pub counted : r.nrunning ≡ count_running r.children
  pub room : r.nrunning ≤ r.maxchildren
  pub max_fits : r.maxchildren < 2 ^ 32

count_running-running :
    (es : List Entry) (job : ℕ) (c : Child)
    → c.state ≡ State.running
    → count_running (es ++ record { job = job; child = c } ∷ []) ≡ count_running es + 1
unfolding count_running
count_running-running es job c e =
    count_running-append es (record { job = job; child = c } ∷ []) ∙ rw e (omega arith)

fork_child-IsCounted :
    (f : Forked) (r : Runner)
    → r.nrunning < r.maxchildren
    → IsCounted r
    → IsCounted (fork_child f r)
unfolding fork_child new_child set_deadline count_running
fork_child-IsCounted f r lt h =
    let plain = new_child f.pid f.pipe in
    let c =
      if r.timeout == 0
      then plain
      else set_deadline (f.start + r.timeout * nanosec_per_sec) plain in
    let one = count_running-running r.children f.job c (ground arith) in
    record {
      counted = omega (arith, one, h.counted, h.max_fits);
      room = omega (arith, h.max_fits);
      max_fits = h.max_fits;
    }

-- The loop that begins jobs keeps the count, and comes to its end with as many children running as
-- there may be, or with no job left.
pub fill-IsCounted :
    (fs : List Forked) (r : Runner)
    → IsCounted r
    → let ((r', left), as_) = fill fs r in
      IsCounted r' × ((left ≡ []) ⊎ (r'.nrunning ≡ r'.maxchildren))
unfolding fill begin_job
fill-IsCounted [] r h = (h, inl refl)
fill-IsCounted (f ∷ fs) r h = elim (Bool-cases (ltb r.nrunning r.maxchildren)) [
  | inl e ↦ rw e (fill-IsCounted fs (fork_child f r) (fork_child-IsCounted f r (ground arith) h))
  | inr e ↦ rw e (h, inr (ground (arith, h.room)))
]
