-- ===== src/Spiegel/Intercept/Refines.antt =====
-- `install` and `uninstall` as an append and an erasure on the list of installed intercepts.
use novaprova.Prelude.{
  ℕ, ◌≡◌, ◌≢◌, ◌⊎◌, refl, sym, ◌∙◌, ap, subst, Bool, true, false, Option, none, some, List, [], ◌∷◌,
  ◌++◌, ◌==◌, Bool-cases, inl, inr,
}
use novaprova.Spiegel.Text.{Kernel, IsKernel}
use novaprova.Spiegel.Platform.{
  IntState, new_intstate, trap_byte, install_intercept, uninstall_intercept,
}
use novaprova.Spiegel.Platform.Patching.{
  Permits, not_null, install_intercept-Patched, uninstall_intercept-Patched,
}
use novaprova.Spiegel.Intercept.{AddrState, World, set_addrstate, erase, install, uninstall}
use novaprova.Spiegel.Intercept.Installed.{
  at, Site, Represents, at-append_here, at-append_there, at-erase_here, at-erase_there, ==_eq,
}
use novaprova.Spiegel.Intercept.Cases.{
  ==_refl, set_here, set_there, ne_of, at_still, at_some, Site-kept, create_none, create_some,
  install_first, install_again, uninstall_last, uninstall_more,
}

erase-nil : (h : ℕ) {hs : List ℕ} → hs ≡ [] → erase h hs ≡ []
unfolding erase
erase-nil h e = rw e

module _ (k : Kernel) (law : IsKernel k) (addr_ original : ℕ → ℕ) where
  module _ (h : ℕ) (permits : Permits k (addr_ h)) (hs : List ℕ) (w : World) where
    -- The sites after a change at the intercept's address alone.
    sites_of :
        (hs' : List ℕ) (w' : World) (entry : Option AddrState)
        → w'.installed ≡ set_addrstate (addr_ h) entry w.installed
        → Site w'.machine.using_int3
            (original (addr_ h))
            (at addr_ (addr_ h) hs')
            entry
            (w'.machine.text.bytes (addr_ h))
        → ((a : ℕ) → a ≢ addr_ h → w'.machine.text.bytes a ≡ w.machine.text.bytes a)
        → ((a : ℕ) → (addr_ h == a) ≡ false → at addr_ a hs' ≡ at addr_ a hs)
        → (hs ≡ []) ⊎ (w'.machine.using_int3 ≡ w.machine.using_int3)
        → Represents addr_ original hs w
        → (a : ℕ)
        → Site w'.machine.using_int3
            (original a)
            (at addr_ a hs')
            (w'.installed a)
            (w'.machine.text.bytes a)
    sites_of hs' w' entry put here there others trap rep a = elim (Bool-cases (addr_ h == a)) [
      | inl e ↦
          let put_here = ap (λ f. f (addr_ h)) put ∙ set_here (addr_ h) entry w.installed in
          subst
            (λ x.
              Site w'.machine.using_int3 (original x) (at addr_ x hs') (w'.installed x)
                (w'.machine.text.bytes x))
            (==_eq (addr_ h) a e) (Site-kept _ _ _ _ put_here refl (inr refl) here)
      | inr n ↦
          let kept = ap (λ f. f a) put ∙ set_there (addr_ h) a entry w.installed n in
          rw (others a n) (
            Site-kept w.machine.using_int3 w'.machine.using_int3 (original a) (at addr_ a hs) kept
              (there a (ne_of (addr_ h) a n)) (at_still addr_ a hs trap) (rep.sites a))
    ]

    first_or_same :
        {u' : Bool}
        → (w.machine.installed_sigaction ≡ true → u' ≡ w.machine.using_int3)
        → Represents addr_ original hs w
        → (hs ≡ []) ⊎ (u' ≡ w.machine.using_int3)
    first_or_same keeps rep = elim (Bool-cases w.machine.installed_sigaction) [
      | inl on ↦ inr (keeps on)
      | inr off ↦ inl (rep.handles off)
    ]

    -- The intercept becomes the last of those installed, at an address where there is none or not.
    pub install_from :
        (here : List ℕ)
        → at addr_ (addr_ h) hs ≡ here
        → Site w.machine.using_int3
            (original (addr_ h))
            here
            (w.installed (addr_ h))
            (w.machine.text.bytes (addr_ h))
        → Represents addr_ original hs w
        → let r = install k addr_ h w in (r.0 ≡ true) × Represents addr_ original (hs ++ h ∷ []) r.1
    unfolding Site
    install_from [] e (absent, same) rep =
        let (works, orig, handled, patched) =
          install_intercept-Patched k law (addr_ h) permits new_intstate w.machine in
        let r = install_intercept k (addr_ h) new_intstate w.machine in
        let entry : AddrState = record { state = r.1; intercepts = h ∷ [] } in
        let w' : World = record {
          installed = set_addrstate (addr_ h) (some entry) w.installed;
          machine = r.2;
        } in
        rw (install_first k addr_ h w absent) (
          works,
          record {
            sites =
                sites_of (hs ++ h ∷ []) w' (some entry) refl
                  (rw (at-append_here addr_ (addr_ h) hs h (==_refl (addr_ h)), e)
                    (r.1, refl, orig ∙ same, patched.here))
                  patched.there (λ a n. at-append_there addr_ a hs h n)
                  (first_or_same patched.keeps_trap rep) rep;
            handles = λ off. cc;
          },
        )
    install_from (x ∷ xs) e (state, there, orig, trapped) rep =
        let entry : AddrState = record { state = state; intercepts = x ∷ xs ++ h ∷ [] } in
        let w' : World = record {
          installed = set_addrstate (addr_ h) (some entry) w.installed;
          machine = w.machine;
        } in
        rw (install_again k addr_ h w state x xs there) (
          refl,
          record {
            sites =
                sites_of (hs ++ h ∷ []) w' (some entry) refl
                  (rw (at-append_here addr_ (addr_ h) hs h (==_refl (addr_ h)), e)
                    (state, refl, orig, trapped))
                  (λ a n. refl) (λ a n. at-append_there addr_ a hs h n) (inr refl) rep;
            handles = λ off. at_some addr_ (addr_ h) e (rep.handles off);
          },
        )

    -- The first of those equal to the intercept goes, and with the last at an address the trap.
    pub uninstall_from :
        (state : IntState) (x : ℕ) (xs left : List ℕ)
        → at addr_ (addr_ h) hs ≡ x ∷ xs
        → erase h (x ∷ xs) ≡ left
        → w.installed (addr_ h) ≡ some (record { state = state; intercepts = x ∷ xs })
        → state.orig ≡ original (addr_ h)
        → w.machine.text.bytes (addr_ h) ≡ trap_byte w.machine.using_int3
        → Represents addr_ original hs w
        → let r = uninstall k addr_ h w in (r.0 ≡ true) × Represents addr_ original (erase h hs) r.1
    unfolding Site
    uninstall_from state x xs [] e gone there orig trapped rep =
        let (works, handled, same, patched) =
          uninstall_intercept-Patched k law (addr_ h) permits state w.machine trapped in
        let r = uninstall_intercept k (addr_ h) state w.machine in
        let w' : World = record {
          installed = set_addrstate (addr_ h) none w.installed;
          machine = r.1;
        } in
        let entry : AddrState = record { state = state; intercepts = x ∷ xs } in
        rw (uninstall_last k addr_ h w entry (create_some k addr_ h w entry there) gone) (
          works,
          record {
            sites =
                sites_of (erase h hs) w' none refl
                  (rw (at-erase_here addr_ (addr_ h) hs h (==_refl (addr_ h)), e, gone)
                    (refl, patched.here ∙ orig))
                  patched.there (λ a n. at-erase_there addr_ a hs h n) (inr same) rep;
            handles = λ off. at_some addr_ (addr_ h) e (rep.handles (sym handled ∙ off));
          },
        )
    uninstall_from state x xs (y ∷ ys) e gone there orig trapped rep =
        let entry : AddrState = record { state = state; intercepts = x ∷ xs } in
        let rest : AddrState = record { state = state; intercepts = y ∷ ys } in
        let w' : World = record {
          installed = set_addrstate (addr_ h) (some rest) w.installed;
          machine = w.machine;
        } in
        rw (uninstall_more k addr_ h w entry y ys (create_some k addr_ h w entry there) gone) (
          refl,
          record {
            sites =
                sites_of (erase h hs) w' (some rest) refl
                  (rw (at-erase_here addr_ (addr_ h) hs h (==_refl (addr_ h)), e, gone)
                    (state, refl, orig, trapped))
                  (λ a n. refl) (λ a n. at-erase_there addr_ a hs h n) (inr refl) rep;
            handles = λ off. at_some addr_ (addr_ h) e (rep.handles off);
          },
        )

    -- Where none is installed the call fails and the list loses none.
    pub uninstall-none :
        at addr_ (addr_ h) hs ≡ []
        → w.installed (addr_ h) ≡ none
        → w.machine.text.bytes (addr_ h) ≡ original (addr_ h)
        → (original (addr_ h) == trap_byte w.machine.using_int3) ≡ false
        → Represents addr_ original hs w
        → let r = uninstall k addr_ h w in
          (r.0 ≡ false) × Represents addr_ original (erase h hs) r.1
    unfolding Site uninstall_intercept erase
    uninstall-none e absent same code rep =
        let entry : AddrState = record { state = new_intstate; intercepts = [] } in
        let w' : World = record {
          installed = set_addrstate (addr_ h) none w.installed;
          machine = w.machine;
        } in
        let closed : uninstall_intercept k (addr_ h) new_intstate w.machine ≡ (false, w.machine) =
          rw (not_null k law (addr_ h) permits, same, code) refl in
        rw (uninstall_last k addr_ h w entry (create_none k addr_ h w absent) refl, closed)
          (
            refl,
            record {
              sites =
                  sites_of (erase h hs) w' none refl
                    (rw (at-erase_here addr_ (addr_ h) hs h (==_refl (addr_ h)), e) (refl, same))
                    (λ a n. refl) (λ a n. at-erase_there addr_ a hs h n) (inr refl) rep;
              handles = λ off. erase-nil h (rep.handles off);
            },
          )
