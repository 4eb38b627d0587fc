-- ===== src/Run/TestCode/Order.antt =====
-- The order in which `run_test_code` calls the functions of a test.
use novaprova.Prelude.{
  ℕ, suc, ◌≡◌, refl, sym, ap, ◌∙◌, subst, Option, none, some, List, [], ◌∷◌, ◌++◌, ◌==◌, Bool-cases,
  inl, inr, ◌⊎◌, take, append-nil,
}
use novaprova.Run.Types.{r_unknown, ft_before, ft_test, ft_after}
use novaprova.Run.Proxy.{raise_event}
use novaprova.Run.Assignment.{Assignment}
use novaprova.Suite.Tree.{Place, get_function, get_fixtures}
use novaprova.Run.TestCode.{
  Step, M, and_then, catch, Process, run_function, run_functions, run_fixtures, run_test,
  descriptor_leaks, valgrind_errors, run_body, run_tries, finish, unless_thrown, job_pre_run,
  job_post_run, run_test_code,
}
use novaprova.Run.TestCode.Silent.{
  called, called-raises, IsSilent, called-after, silent_then, then_silent, both-IsSilent,
  catch-IsSilent, leaks-IsSilent, valgrind-IsSilent, pre_run-IsSilent, post_run-IsSilent,
}

-- Code that calls `l` stands in front.
call_then :
    {W A B : Type 0} (P : List ℕ → Type 0) (l : List ℕ) (q : List Step × Option A × W)
    (f : A → M W B)
    → called q.0 ≡ l
    → P l
    → ((a : A) (w : W) → P (l ++ called (f a w).0))
    → P (called (and_then q f).0)
call_then P l (steps, none, w) f e p h = subst P (sym e) p
call_then P l (steps, some a, w) f e p h =
    subst P (sym (called-after steps (f a w) ∙ ap (λ x. x ++ called (f a w).0) e)) (h a w)

-- The first of the functions, in order.
abbrev pub CallsFirst : List ℕ → List ℕ → Type 0
CallsFirst fs l = (n : ℕ) × (l ≡ take n fs)

-- Fixtures to set up, then the test and fixtures to tear down, or not.
abbrev pub IsOrdered : Place → ℕ → List ℕ → Type 0
IsOrdered p f l =
    CallsFirst (get_fixtures ft_before p) l
    ⊎ ((m : ℕ) × (n : ℕ) × (l
          ≡ take m (get_fixtures ft_before p) ++ f ∷ take n (get_fixtures ft_after p)))

module _ {W : Type 0} (os : Process W) where
  run_function-called : (type f : ℕ) (w : W) → called (run_function os type f w).0 ≡ f ∷ []
  unfolding run_function called
  run_function-called type f w =
      ap (◌∷◌ f) (called-raises (λ ev. (raise_event ev).0) (os.invoke f w).0.raised)

  -- A loop over fixtures calls them from the first on.
  functions-called :
      (type : ℕ) (fs : List ℕ) (w : W) → CallsFirst fs (called (run_functions os type fs w).0)
  unfolding run_functions called
  functions-called type [] w = (0, refl)
  functions-called type (f ∷ fs) w =
      call_then (CallsFirst (f ∷ fs)) (f ∷ []) (run_function os type f w) _
        (run_function-called type f w) (1, refl)
        λ thrown w.
          elim thrown
            as (λ t.
              CallsFirst (f ∷ fs) (f ∷ called (unless_thrown t (run_functions os type fs) w).0)) [
                | none ↦ let (n, e) = functions-called type fs w in (suc n, ap (◌∷◌ f) e)
                | some ev ↦ (1, refl)
              ]

  -- The test, and the fixtures behind it.
  body-called :
      (p : Place) (f res : ℕ) (w : W)
      → get_function ft_test p.focus ≡ some f
      → (n : ℕ) × (called (run_body os p res w).0 ≡ f ∷ take n (get_fixtures ft_after p))
  unfolding run_body run_test run_fixtures called
  body-called p f res w e =
      let afters = get_fixtures ft_after p in
      let P = λ (l : List ℕ). (n : ℕ) × (l ≡ f ∷ take n afters) in
      rw e (
        call_then P (f ∷ []) (run_function os ft_test f w) _ (run_function-called ft_test f w)
          (0, refl)
          λ thrown w.
            silent_then (λ l. P (f ∷ l)) (catch ft_test res thrown w) _
              (catch-IsSilent ft_test res thrown w) (0, refl)
              λ res w.
                let (n, c) = functions-called ft_after afters w in
                (
                  n,
                  ap (◌∷◌ f) (
                      then_silent (run_functions os ft_after afters w) _ (λ thrown w.
                        then_silent (catch ft_after res thrown w) _ (λ res w. refl)
                        ∙ catch-IsSilent ft_after res thrown w)
                      ∙ c),
                ))

  tries-called :
      (p : Place) (f : ℕ) (w : W)
      → get_function ft_test p.focus ≡ some f
      → IsOrdered p f (called (run_tries os p w).0)
  unfolding run_tries run_fixtures called
  tries-called p f w e =
      let befores = get_fixtures ft_before p in
      let (m, c) = functions-called ft_before befores w in
      let so_far = take m befores in
      call_then (IsOrdered p f) so_far (run_functions os ft_before befores w) _ c (inl (m, refl))
        λ thrown w.
          silent_then (λ l. IsOrdered p f (so_far ++ l)) (catch ft_before r_unknown thrown w) _
            (catch-IsSilent ft_before r_unknown thrown w) (inl (m, append-nil so_far))
            λ res w. elim (Bool-cases (res == r_unknown)) [
              | inl t ↦
                  let (n, b) = body-called p f res w e in rw t (inr (m, n, ap (λ l. so_far ++ l) b))
              | inr t ↦ rw t (inl (m, append-nil so_far))
            ]

  finish-IsSilent :
      (p : Place) (assigns : List Assignment) (prefds : List (List ℕ)) (res : ℕ) (w : W)
      → IsSilent (finish os p assigns prefds res w)
  unfolding finish
  finish-IsSilent p assigns prefds res w =
      let counted = λ (res : ℕ) (w : W). valgrind_errors os (os.valgrind w) res w in
      let leaked = λ (done : ℕ) (w : W).
        and_then (descriptor_leaks os prefds (os.get_file_descriptors w) res w) counted in
      both-IsSilent (job_post_run os p assigns w) leaked (post_run-IsSilent os p assigns w)
        λ done w.
          both-IsSilent (descriptor_leaks os prefds (os.get_file_descriptors w) res w) counted
            (leaks-IsSilent os _ 0 _ _ res w) λ res w. valgrind-IsSilent os (os.valgrind w) res w

  -- Whatever the functions of a test do, they are called in order: fixtures of FT_BEFORE from the
  -- first on; and then, if at all, the test, once, and behind it those of FT_AFTER from the first on.
  pub run_test_code-IsOrdered :
      (p : Place) (assigns : List Assignment) (f : ℕ) (w : W)
      → get_function ft_test p.focus ≡ some f
      → IsOrdered p f (called (run_test_code os p assigns w).0)
  unfolding run_test_code called
  run_test_code-IsOrdered p assigns f w e =
      silent_then (IsOrdered p f) (job_pre_run os p assigns w)
        (λ done w. and_then (run_tries os p w) (finish os p assigns (os.get_file_descriptors w)))
        (pre_run-IsSilent os p assigns w) (inl (0, refl))
        λ done w.
          subst (IsOrdered p f)
            (sym (
              then_silent (run_tries os p w) (finish os p assigns (os.get_file_descriptors w))
                (finish-IsSilent p assigns (os.get_file_descriptors w))))
            (tries-called p f w e)
