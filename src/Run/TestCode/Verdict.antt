-- ===== src/Run/TestCode/Verdict.antt =====
-- What `run_test_code` answers, from the events that it raised, and what the parent makes of it.
use novaprova.Prelude.{
  map, length, ℕ, zero, suc, ◌≤◌, ◌<◌, ◌≡◌, Option, none, some, List, [], ◌∷◌, ◌++◌, arith, ◌==◌,
  All, subst, Bool-cases, inl, inr, ◌↔◌, get_or,
}
use novaprova.Run.Types.{merge, r_unknown, r_pass, r_fail, ft_before, ft_test, ft_after}
use novaprova.Run.Event.{Event, get_result}
use novaprova.Run.Assignment.{Assignment}
use novaprova.Suite.Tree.{Place, get_function}
use novaprova.Util.FileName.{same}
use novaprova.Run.TestCode.{
  Step, merge_event, catch, Process, leaks_loop, leak_event, valgrind_event, descriptor_leaks,
  run_test, run_fixtures, job_pre_run, job_post_run, report, valgrind_errors, leaked_text,
  error_text, run_body, run_tries, finish, run_test_code,
}
use novaprova.Run.TestCode.Judged.{
  raised, IsFine, Judged, then-Judged, with-Judged, keeps-Judged, merge_event-Judged, catch-Judged,
  IsPositive, then-IsPositive, stays-IsPositive,
}
use novaprova.Run.Types.{merge_all, merge_all-lt_fail}
use novaprova.Run.Proxy.Pipe.{content, IsFlowing}
use novaprova.Run.Proxy.RoundTrip.{IsSendable}
use novaprova.Run.Child.{Child, State}
use novaprova.Run.Child.Session.{transcript, inputs, inputs-transcript}

module _ {W : Type 0} (os : Process W) where
  leaks-Judged :
      (rounds fd : ℕ) (prefds postfds : List (List ℕ)) (res : ℕ) (w : W)
      → Judged res (leaks_loop os rounds fd prefds postfds res w)
  unfolding leaks_loop
  leaks-Judged zero fd prefds postfds res w = keeps-Judged res w
  leaks-Judged (suc rounds) fd prefds postfds res w =
      let pre = get_or prefds fd [] in
      let post = get_or postfds fd [] in
      elim (Bool-cases (same pre post)) [
        | inl e ↦ rw e (leaks-Judged rounds (suc fd) prefds postfds res w)
        | inr e ↦ rw e (
            with-Judged res (merge_event res (leak_event os fd pre post) w)
              (leaks_loop os rounds (suc fd) prefds postfds)
              (merge_event-Judged res (leak_event os fd pre post) w)
              (leaks-Judged rounds (suc fd) prefds postfds))
      ]

  report-Judged :
      (count : ℕ) (text : List ℕ) (res : ℕ) (w : W) → Judged res (report os count text res w)
  unfolding report
  report-Judged count text res w = elim (Bool-cases (count == 0)) [
    | inl e ↦ rw e (keeps-Judged res w)
    | inr e ↦ rw e (merge_event-Judged res (valgrind_event os (os.unsigned count ++ text)) w)
  ]

  valgrind-Judged :
      (counts : Option (ℕ × ℕ)) (res : ℕ) (w : W) → Judged res (valgrind_errors os counts res w)
  unfolding valgrind_errors
  valgrind-Judged none res w = keeps-Judged res w
  valgrind-Judged (some (leaked, nerrors)) res w =
      with-Judged res (report os leaked leaked_text res w) (report os nerrors error_text)
        (report-Judged leaked leaked_text res w) (report-Judged nerrors error_text)

  pass-Judged : (res : ℕ) (w : W) → Judged {W = W} res ([], some (merge res r_pass), w)
  unfolding merge Judged
  pass-Judged res w = (ground arith, λ b. ground arith, λ low fine. ground arith)

  body-Judged : (p : Place) (res : ℕ) (w : W) → Judged res (run_body os p res w)
  unfolding run_body
  body-Judged p res w = then-Judged res (run_test os (get_function ft_test p.focus) w) _ λ thrown w.
      with-Judged res (catch ft_test res thrown w) _ (catch-Judged ft_test res thrown w) λ res w.
        then-Judged res (run_fixtures os p ft_after w) _ λ thrown w.
          with-Judged res (catch ft_after res thrown w) _ (catch-Judged ft_after res thrown w)
            pass-Judged

  tries-Judged : (p : Place) (w : W) → Judged r_unknown (run_tries os p w)
  unfolding run_tries
  tries-Judged p w = then-Judged r_unknown (run_fixtures os p ft_before w) _ λ thrown w.
      with-Judged r_unknown (catch ft_before r_unknown thrown w) _
        (catch-Judged ft_before r_unknown thrown w)
        λ res w. elim (Bool-cases (res == r_unknown)) [
          | inl e ↦ rw e (body-Judged p res w)
          | inr e ↦ rw e (keeps-Judged res w)
        ]

  finish-Judged :
      (p : Place) (assigns : List Assignment) (prefds : List (List ℕ)) (res : ℕ) (w : W)
      → Judged res (finish os p assigns prefds res w)
  unfolding finish
  finish-Judged p assigns prefds res w = then-Judged res (job_post_run os p assigns w) _ λ done w.
      with-Judged res (descriptor_leaks os prefds (os.get_file_descriptors w) res w) _
        (leaks-Judged _ 0 _ _ res w) λ res w. valgrind-Judged (os.valgrind w) res w

  code-Judged :
      (p : Place) (assigns : List Assignment) (w : W)
      → Judged r_unknown (run_test_code os p assigns w)
  unfolding run_test_code
  code-Judged p assigns w = then-Judged r_unknown (job_pre_run os p assigns w) _ λ done w.
      with-Judged r_unknown (run_tries os p w) _ (tries-Judged p w)
        (finish-Judged p assigns (os.get_file_descriptors w))

  body-IsPositive : (p : Place) (res : ℕ) (w : W) → IsPositive (run_body os p res w)
  unfolding run_body merge IsPositive
  body-IsPositive p res w =
      then-IsPositive (run_test os (get_function ft_test p.focus) w) _ λ thrown w.
        then-IsPositive (catch ft_test res thrown w) _ λ res w.
          then-IsPositive (run_fixtures os p ft_after w) _
            λ thrown w. then-IsPositive (catch ft_after res thrown w) _ λ res w. ground arith

  tries-IsPositive : (p : Place) (w : W) → IsPositive (run_tries os p w)
  unfolding run_tries IsPositive
  tries-IsPositive p w = then-IsPositive (run_fixtures os p ft_before w) _ λ thrown w.
      then-IsPositive (catch ft_before r_unknown thrown w) _ λ res w.
        elim (Bool-cases (res == r_unknown)) [
          | inl e ↦ rw e (body-IsPositive p res w)
          | inr e ↦ rw e (ground arith)
        ]

  -- What comes behind does not lower the result.
  code-IsPositive :
      (p : Place) (assigns : List Assignment) (w : W) → IsPositive (run_test_code os p assigns w)
  unfolding run_test_code
  code-IsPositive p assigns w = then-IsPositive (job_pre_run os p assigns w) _ λ done w.
      stays-IsPositive (run_tries os p w) _ (tries-IsPositive p w)
        (finish-Judged p assigns (os.get_file_descriptors w))

  -- The result of a test is one of R_PASS, R_NOTAPPLICABLE and R_FAIL, and it is R_FAIL only if an
  -- event was raised that is a failure.
  pub run_test_code-verdict :
      (p : Place) (assigns : List Assignment) (w w' : W) (steps : List Step) (res : ℕ)
      → run_test_code os p assigns w ≡ (steps, some res, w')
      → (0 < res) × (res ≤ r_fail) × (IsFine (raised steps) → res < r_fail)
  unfolding Judged IsPositive
  run_test_code-verdict p assigns w w' steps res e =
      let (a, b, c) = subst (Judged r_unknown) e (code-Judged p assigns w) in
      (subst IsPositive e (code-IsPositive p assigns w), b (omega arith), c (omega arith))

module _ {A B : Type 0} (P : B → Type 0) (f : A → B) where
  All-map : (xs : List A) → All (λ x. P (f x)) xs ↔ All P (map f xs)
  All-map [] = (λ h. h, λ h. h)
  All-map (x ∷ xs) = (λ h. (h.0, (All-map xs).0 h.1), λ h. (h.0, (All-map xs).1 h.1))

-- What the parent has merged for the events and the result.
merged_iff :
    (evs : List Event) (res : ℕ)
    → (IsFine evs → res < r_fail)
    → (merge (merge_all r_unknown (map (λ ev. get_result ev.which) evs)) res < r_fail) ↔ IsFine evs
unfolding merge
merged_iff evs res h =
    let results = map (λ ev. get_result ev.which) evs in
    let each = All-map (λ r. r < r_fail) (λ ev. get_result ev.which) evs in
    let all = merge_all-lt_fail r_unknown results in
    (
      λ low. each.1 (all.0 (ground arith)).1,
      λ fine. let r = h fine in let m = all.1 (omega arith, each.0 fine) in ground arith,
    )

module _ {W : Type 0} (os : Process W) where
  -- A test that runs to its end in a child process, and whose messages the parent takes in: the
  -- parent's record is finished, it is never R_UNKNOWN, and it fails exactly if an event that was
  -- raised in the child is a failure.
  pub test-verdict :
      (p : Place) (assigns : List Assignment) (w w' : W) (steps : List Step) (res : ℕ)
      (more : List ℕ) (c : Child)
      → run_test_code os p assigns w ≡ (steps, some res, w')
      → All IsSendable (raised steps)
      → c.state ≡ State.running
      → c.result ≡ r_unknown
      → IsFlowing c.event_pipe
      → content c.event_pipe ≡ transcript (raised steps) res ++ more
      → let c' = (inputs (suc (length (raised steps))) c).0 in
        (c'.state ≡ State.finished)
        × (0 < c'.result)
        × ((c'.result < r_fail) ↔ IsFine (raised steps))
  unfolding merge
  test-verdict p assigns w w' steps res more c e sendable running unknown flowing sent =
      let evs = raised steps in
      let (pos, le, fine) = run_test_code-verdict os p assigns w w' steps res e in
      let (done, merged, acts, rest) =
        inputs-transcript evs res more c sendable (omega (arith, le)) running flowing sent in
      (done, rw merged (ground (arith, pos)), rw (merged, unknown) (merged_iff evs res fine))
