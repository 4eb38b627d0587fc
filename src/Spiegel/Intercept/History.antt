-- ===== src/Spiegel/Intercept/History.antt =====
-- The life of intercepts: what the operations mean for those that are installed, and a test's run
-- from job_t::pre_run to job_t::post_run.
use novaprova.Prelude.{
  ℕ, ◌≡◌, ◌≢◌, refl, sym, Bool, true, false, not, ◌⊎◌, Option, List, [], ◌∷◌, ◌++◌, ◌==◌, map,
  subst, arith, All, append_assoc, append-nil, inl, inr,
}
use novaprova.Spiegel.Text.{Kernel, IsKernel}
use novaprova.Spiegel.Platform.{trap_byte, is_intercept_installed}
use novaprova.Spiegel.Platform.Patching.{Permits}
use novaprova.Spiegel.Intercept.{
  AddrState, World, erase, install, uninstall, is_installed, get_addrstate, dispatch, dispatch_loop,
}
use novaprova.Spiegel.Intercept.Installed.{at, Site, Represents}
use novaprova.Spiegel.Intercept.Cases.{==_refl}
use novaprova.Spiegel.Intercept.Refines.{install_from, uninstall_from, uninstall-none}
use novaprova.Suite.Tree.{
  Intercept, Patch, installs, uninstalls, deletes, Place, line, all_intercepts, pre_run,
  drop_dynamic, post_run,
}

unfoldable pub is_nil : List ℕ → Bool
is_nil [] = true
is_nil (x ∷ xs) = false

ne→== : {a b : ℕ} → a ≢ b → (a == b) ≡ false
ne→== n = ground arith

untouched :
    (u : Bool) (byte : ℕ) {here : List ℕ} (entry : Option AddrState) (now : ℕ)
    → here ≡ []
    → Site u byte here entry now
    → now ≡ byte
unfolding Site
untouched u byte {here = []} entry now e (_, same) = same
untouched u byte {here = x ∷ xs} entry now e site = absurd (cc e)

-- The patches of a test on the world; `new` gives an object's pointer. `delete` frees the object.
unfoldable pub run_patches : Kernel → (ℕ → ℕ) → (Intercept → ℕ) → List Patch → World → World
run_patches k addr_ new [] w = w
run_patches k addr_ new (installs i ∷ ps) w =
    run_patches k addr_ new ps (install k addr_ (new i) w).1
run_patches k addr_ new (uninstalls i ∷ ps) w =
    run_patches k addr_ new ps (uninstall k addr_ (new i) w).1
run_patches k addr_ new (deletes i ∷ ps) w = run_patches k addr_ new ps w

dispatch_from :
    {S : Type 0} (method : ℕ → S → S) (a : ℕ) (w : World) (s : S) (u : Bool) (byte now : ℕ)
    (here : List ℕ)
    → Site u byte here (w.installed a) now
    → dispatch method a w s ≡ dispatch_loop method here s
unfolding dispatch get_addrstate Site dispatch_loop
dispatch_from method a w s u byte now [] (absent, _) = rw (dispatch, absent)
dispatch_from method a w s u byte now (x ∷ xs) (state, there, _, _) = rw (dispatch, there)

is_installed_from :
    (k : Kernel) (addr_ : ℕ → ℕ) (h : ℕ) (w : World) (byte : ℕ) (here : List ℕ)
    → (addr_ h == 0) ≡ false
    → Site w.machine.using_int3 byte here (w.installed (addr_ h)) (w.machine.text.bytes (addr_ h))
    → is_installed k addr_ h w ≡ not (is_nil here)
unfolding is_installed get_addrstate Site is_intercept_installed is_nil
is_installed_from k addr_ h w byte [] real (absent, _) = rw (is_installed, absent)
is_installed_from k addr_ h w byte (x ∷ xs) real (state, there, orig, trapped) =
    rw (is_installed, there, real, trapped, ==_refl (trap_byte w.machine.using_int3))

module _ (addr_ original : ℕ → ℕ) (hs : List ℕ) (w : World)
    (rep : Represents addr_ original hs w) where
  -- before() and after() are called for the intercepts at the address, in the order of installation.
  pub dispatch-at :
      {S : Type 0} (method : ℕ → S → S) (a : ℕ) (s : S)
      → dispatch method a w s ≡ dispatch_loop method (at addr_ a hs) s
  dispatch-at method a s = dispatch_from method a w s _ _ _ (at addr_ a hs) (rep.sites a)

  -- An address that no intercept has reads as in the program.
  pub bytes-original : (a : ℕ) → at addr_ a hs ≡ [] → w.machine.text.bytes a ≡ original a
  bytes-original a e = untouched _ _ _ _ e (rep.sites a)

  module _ (k : Kernel) (law : IsKernel k) (h : ℕ) (permits : Permits k (addr_ h)) where
    -- Installing an intercept at an address that may be patched succeeds and appends it to the list
    -- that the registry and the text implement.
    pub install-Represents :
        ((install k addr_ h w).0 ≡ true)
        × Represents addr_ original (hs ++ h ∷ []) (install k addr_ h w).1
    install-Represents =
        install_from k law addr_ original h permits hs w _ refl (rep.sites (addr_ h)) rep

    pub uninstall-Represents :
        (at addr_ (addr_ h) hs ≢ []) ⊎ (original (addr_ h) ≢ trap_byte w.machine.using_int3)
        → ((uninstall k addr_ h w).0 ≡ not (is_nil (at addr_ (addr_ h) hs)))
          × Represents addr_ original (erase h hs) (uninstall k addr_ h w).1
    unfolding Site is_nil
    uninstall-Represents code =
        let here = at addr_ (addr_ h) hs in from here refl (rep.sites (addr_ h)) code
      where
        from :
            (here : List ℕ)
            → at addr_ (addr_ h) hs ≡ here
            → Site w.machine.using_int3
                (original (addr_ h))
                here
                (w.installed (addr_ h))
                (w.machine.text.bytes (addr_ h))
            → (here ≢ []) ⊎ (original (addr_ h) ≢ trap_byte w.machine.using_int3)
            → ((uninstall k addr_ h w).0 ≡ not (is_nil here))
              × Represents addr_ original (erase h hs) (uninstall k addr_ h w).1
        from [] e site (inl some_here) = absurd (some_here refl)
        from [] e (absent, same) (inr code) =
            uninstall-none k law addr_ original h permits hs w e absent same (ne→== code) rep
        from (x ∷ xs) e (state, there, orig, trapped) code =
            uninstall_from k law addr_ original h permits hs w state x xs _ e refl there orig
              trapped rep

module _ (k : Kernel) (law : IsKernel k) (addr_ original : ℕ → ℕ) (new : Intercept → ℕ) where
  abbrev run : List Patch → World → World
  run = run_patches k addr_ new

  abbrev Permitted : List Intercept → Type 0
  Permitted = All (λ i. Permits k (addr_ (new i)))

  run-append :
      (ps qs : List Patch) (w : World)
      → run_patches k addr_ new (ps ++ qs) w
        ≡ run_patches k addr_ new qs (run_patches k addr_ new ps w)
  unfolding run_patches
  run-append [] qs w = refl
  run-append (installs i ∷ ps) qs w = run-append ps qs _
  run-append (uninstalls i ∷ ps) qs w = run-append ps qs _
  run-append (deletes i ∷ ps) qs w = run-append ps qs w

  -- Installing a list of intercepts appends them.
  installs-Represents :
      (is : List Intercept) (hs : List ℕ) (w : World)
      → Permitted is
      → Represents addr_ original hs w
      → Represents addr_ original (hs ++ map new is) (run (map installs is) w)
  unfolding run_patches
  installs-Represents [] hs w permitted rep =
      subst (λ l. Represents addr_ original l w) (sym (append-nil hs)) rep
  installs-Represents (i ∷ is) hs w (permits, permitted) rep =
      let installed = install-Represents addr_ original hs w rep k law (new i) permits in
      subst (λ l. Represents addr_ original l (run (map installs (i ∷ is)) w))
        (append_assoc hs (new i ∷ []) (map new is))
        (installs-Represents is (hs ++ new i ∷ []) _ permitted installed.1)

  -- Uninstalling the one that was installed first.
  uninstall_oldest :
      (h : ℕ) (hs : List ℕ) (w : World)
      → Permits k (addr_ h)
      → Represents addr_ original (h ∷ hs) w
      → Represents addr_ original hs (uninstall k addr_ h w).1
  unfolding at erase
  uninstall_oldest h hs w permits rep =
      let some_here : at addr_ (addr_ h) (h ∷ hs) ≢ [] = rw (==_refl (addr_ h)) (λ e. cc e) in
      let erased : erase h (h ∷ hs) ≡ hs = rw (==_refl h) in
      subst (λ l. Represents addr_ original l (uninstall k addr_ h w).1) erased
        ((uninstall-Represents addr_ original (h ∷ hs) w rep k law h permits (inl some_here)).1)

  uninstalls-Represents :
      (is : List Intercept) (hs : List ℕ) (w : World)
      → Permitted is
      → Represents addr_ original (map new is ++ hs) w
      → Represents addr_ original hs (run (map uninstalls is) w)
  unfolding run_patches
  uninstalls-Represents [] hs w permitted rep = rep
  uninstalls-Represents (i ∷ is) hs w (permits, permitted) rep =
      uninstalls-Represents is hs _ permitted
        (uninstall_oldest (new i) (map new is ++ hs) w permits rep)

  drop_dynamic-Represents :
      (is : List Intercept) (w : World)
      → Permitted is
      → Represents addr_ original (map new is) w
      → Represents addr_ original [] (run (drop_dynamic is) w)
  unfolding run_patches drop_dynamic
  drop_dynamic-Represents [] w permitted rep = rep
  drop_dynamic-Represents (i ∷ is) w (permits, permitted) rep =
      drop_dynamic-Represents is _ permitted (uninstall_oldest (new i) (map new is) w permits rep)

  module _ (p : Place) (dynamic : List Intercept) (w : World) where
    -- A test that begins with none installed installs the intercepts of its node and of those above,
    -- in this order, and then dynamic ones, all at addresses that may be patched; post_run leaves
    -- none installed, and at every address the byte that the program had.
    pub post_run-restores :
        Permitted (all_intercepts (line p))
        → Permitted dynamic
        → Represents addr_ original [] w
        → let running = run_patches k addr_ new (pre_run p ++ map installs dynamic) w in
          let after = run_patches k addr_ new (post_run dynamic p).0 running in
          Represents addr_ original (map new (all_intercepts (line p)) ++ map new dynamic) running
          × Represents addr_ original [] after
          × ((a : ℕ) → after.machine.text.bytes a ≡ original a)
    unfolding pre_run post_run at
    post_run-restores permitted permitted' rep =
        let fixed = all_intercepts (line p) in
        let started = installs-Represents fixed [] w permitted rep in
        let during =
          subst (Represents addr_ original (map new fixed ++ map new dynamic))
            (sym (run-append (map installs fixed) (map installs dynamic) w))
            (installs-Represents dynamic (map new fixed) _ permitted' started) in
        let after =
          subst (Represents addr_ original [])
            (sym (run-append (map uninstalls fixed) (drop_dynamic dynamic) _))
            (drop_dynamic-Represents dynamic _ permitted'
              (uninstalls-Represents fixed (map new dynamic) _ permitted during)) in
        (during, after, λ a. bytes-original addr_ original [] _ after a refl)
