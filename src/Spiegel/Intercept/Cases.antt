-- ===== src/Spiegel/Intercept/Cases.antt =====
-- The registry's operations, case by case, as equations.
use novaprova.Prelude.{
  ℕ, ◌≡◌, ◌≢◌, ◌⊎◌, refl, sym, ◌∙◌, ap, Bool, true, false, Option, none, some, List, [], ◌∷◌, ◌++◌,
  ◌==◌, length, arith, inl, inr,
}
use novaprova.Spiegel.Text.{Kernel}
use novaprova.Spiegel.Platform.{
  IntState, new_intstate, trap_byte, install_intercept, uninstall_intercept,
}
use novaprova.Spiegel.Intercept.{
  AddrState, World, set_addrstate, create_addrstate, erase, install, uninstall,
}
use novaprova.Spiegel.Intercept.Installed.{at, Site}

pub ==_refl : (n : ℕ) → (n == n) ≡ true
==_refl n = ground arith

pub set_here : (a : ℕ) (e : Option AddrState) (f : ℕ → Option AddrState) → set_addrstate a e f a ≡ e
unfolding set_addrstate
set_here a e f = ground arith

pub set_there :
    (a b : ℕ) (e : Option AddrState) (f : ℕ → Option AddrState)
    → (a == b) ≡ false
    → set_addrstate a e f b ≡ f b
unfolding set_addrstate
set_there a b e f n = ground arith

pub ne_of : (a b : ℕ) → (a == b) ≡ false → b ≢ a
ne_of a b n = ground arith

pub at_still :
    {P : Type 0} (addr_ : ℕ → ℕ) (a : ℕ) (hs : List ℕ) → (hs ≡ []) ⊎ P → (at addr_ a hs ≡ []) ⊎ P
unfolding at
at_still addr_ a hs (inl none_yet) = inl (rw none_yet)
at_still addr_ a hs (inr same) = inr same

pub at_some :
    {P : Type 0} (addr_ : ℕ → ℕ) (a : ℕ) {hs : List ℕ} {x : ℕ} {xs : List ℕ}
    → at addr_ a hs ≡ x ∷ xs
    → hs ≡ []
    → P
unfolding at
at_some addr_ a {hs = []} e none_yet = absurd (cc e)
at_some addr_ a {hs = h ∷ hs} e none_yet = absurd (cc none_yet)

-- A site where nothing changes, but perhaps the trap where none is set.
pub Site-kept :
    (u u' : Bool) (byte : ℕ) (hs : List ℕ) {e e' : Option AddrState} {now now' : ℕ}
    → e' ≡ e
    → now' ≡ now
    → (hs ≡ []) ⊎ (u' ≡ u)
    → Site u byte hs e now
    → Site u' byte hs e' now'
unfolding Site
Site-kept u u' byte [] p q either (none_here, same) = (p ∙ none_here, q ∙ same)
Site-kept u u' byte (h ∷ hs) p q (inl empty) s = absurd (cc empty)
Site-kept u u' byte (h ∷ hs) p q (inr trap) (state, here, orig, now) =
    (state, p ∙ here, orig, q ∙ now ∙ ap trap_byte (sym trap))

module _ (k : Kernel) (addr_ : ℕ → ℕ) (h : ℕ) (w : World) where
  pub create_none :
      w.installed (addr_ h) ≡ none
      → create_addrstate (addr_ h) w.installed ≡ record { state = new_intstate; intercepts = [] }
  unfolding create_addrstate
  create_none e = rw (create_addrstate, e)

  pub create_some :
      (entry : AddrState)
      → w.installed (addr_ h) ≡ some entry
      → create_addrstate (addr_ h) w.installed ≡ entry
  unfolding create_addrstate
  create_some entry e = rw (create_addrstate, e)

  pub install_first :
      w.installed (addr_ h) ≡ none
      → install k addr_ h w ≡ (
          let r = install_intercept k (addr_ h) new_intstate w.machine in
          let entry = some (record { state = r.1; intercepts = h ∷ [] }) in
          (r.0, record { installed = set_addrstate (addr_ h) entry w.installed; machine = r.2 }))
  unfolding install
  install_first e = rw (create_none e)

  pub install_again :
      (state : IntState) (x : ℕ) (xs : List ℕ)
      → w.installed (addr_ h) ≡ some (record { state = state; intercepts = x ∷ xs })
      → install k addr_ h w ≡ (
          let entry = some (record { state = state; intercepts = x ∷ xs ++ h ∷ [] }) in
          (
            true,
            record { installed = set_addrstate (addr_ h) entry w.installed; machine = w.machine },
          ))
  unfolding install
  install_again state x xs e =
      rw (create_some (record { state = state; intercepts = x ∷ xs }) e, longer x xs)
    where
      longer : (x : ℕ) (xs : List ℕ) → (length (x ∷ xs ++ h ∷ []) == 1) ≡ false
      longer x [] = refl
      longer x (y ∷ ys) = ground arith

  pub uninstall_last :
      (entry : AddrState)
      → create_addrstate (addr_ h) w.installed ≡ entry
      → erase h entry.intercepts ≡ []
      → uninstall k addr_ h w ≡ (
          let r = uninstall_intercept k (addr_ h) entry.state w.machine in
          (r.0, record { installed = set_addrstate (addr_ h) none w.installed; machine = r.1 }))
  unfolding uninstall
  uninstall_last entry e last = rw (e, last)

  pub uninstall_more :
      (entry : AddrState) (x : ℕ) (xs : List ℕ)
      → create_addrstate (addr_ h) w.installed ≡ entry
      → erase h entry.intercepts ≡ x ∷ xs
      → uninstall k addr_ h w ≡ (
          let left = some (record { state = entry.state; intercepts = x ∷ xs }) in
          (
            true,
            record { installed = set_addrstate (addr_ h) left w.installed; machine = w.machine },
          ))
  unfolding uninstall
  uninstall_more entry x xs e left = rw (e, left, some_left x xs)
    where
      some_left : (x : ℕ) (xs : List ℕ) → (length (x ∷ xs) == 0) ≡ false
      some_left x xs = ground arith
