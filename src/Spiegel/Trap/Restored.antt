-- ===== src/Spiegel/Trap/Restored.antt =====
-- The breakpoint is back when an intercepted call is over.
use novaprova.Prelude.{
  ℕ, ◌≡◌, ◌≢◌, refl, sym, ◌∙◌, ap, Bool, true, false, Option, List, [], ◌∷◌, ◌==◌, arith,
  Bool-cases, inl, inr,
}
use novaprova.Spiegel.Text.{Kernel, IsKernel}
use novaprova.Spiegel.Platform.{
  IntType, unknown, pushbp, other, IntState, Machine, trap_byte, write_byte, write_trap,
}
use novaprova.Spiegel.Platform.Patching.{Permits, write_byte-Patched}
use novaprova.Spiegel.Intercept.{AddrState, World}
use novaprova.Spiegel.Intercept.Installed.{at, Site, Represents}
use novaprova.Spiegel.Intercept.Cases.{Site-kept}
use novaprova.Spiegel.Intercept.Installed.{==_eq}
use novaprova.Spiegel.Trap.Entry.{prepared}
use novaprova.Spiegel.Trap.{
  Call, Trapped, returns, frame_addr, enter, rearm, with_machine, intercept_tramp,
}

pub ==_ne : (a b : ℕ) → (a == b) ≡ false → a ≢ b
==_ne a b n = ground arith

-- The same to read at every address, and the same signal.
pub record Same (m m' : Machine) : Type 0 where
  pub reads : (a : ℕ) → m'.text.bytes a ≡ m.text.bytes a
  pub traps : m'.using_int3 ≡ m.using_int3
  pub handled : m'.installed_sigaction ≡ m.installed_sigaction

Same-Represents :
    (addr_ original : ℕ → ℕ) (hs : List ℕ) (w : World) (m : Machine)
    → Same w.machine m
    → Represents addr_ original hs w
    → Represents addr_ original hs (with_machine m w)
unfolding with_machine
Same-Represents addr_ original hs w m same rep = record {
  sites = λ a. Site-kept _ _ _ _ refl (same.reads a) (inr same.traps) (rep.sites a);
  handles = λ off. rep.handles (sym same.handled ∙ off);
}

-- The same but for what stands at an address.
record Apart (addr : ℕ) (m m' : Machine) : Type 0 where
  pub reads : (a : ℕ) → a ≢ addr → m'.text.bytes a ≡ m.text.bytes a
  pub traps : m'.using_int3 ≡ m.using_int3
  pub handled : m'.installed_sigaction ≡ m.installed_sigaction

-- While a call is in progress, a trap of the type `other` may be out of the text.
unfoldable Loose : ℕ → IntType → Machine → Machine → Type 0
Loose addr pushbp m m' = Same m m'
Loose addr other m m' = Apart addr m m'
Loose addr unknown m m' = Same m m'

Same-Loose : (addr : ℕ) (type : IntType) (m m' : Machine) → Same m m' → Loose addr type m m'
unfolding Loose
Same-Loose addr pushbp m m' same = same
Same-Loose addr other m m' same = record {
  reads = λ a n. same.reads a;
  traps = same.traps;
  handled = same.handled;
}
Same-Loose addr unknown m m' same = same

Same-refl : (m : Machine) → Same m m
Same-refl m = record { reads = λ a. refl; traps = refl; handled = refl }

module _ (k : Kernel) (law : IsKernel k) (addr : ℕ) (permits : Permits k addr) where
  write_byte-Apart :
      (byte : ℕ) (m m' : Machine) → Apart addr m m' → Apart addr m (write_byte k addr byte m').1
  unfolding write_byte
  write_byte-Apart byte m m' apart = record {
    reads = λ a n. (write_byte-Patched k law addr permits byte m').there a n ∙ apart.reads a n;
    traps = apart.traps;
    handled = apart.handled;
  }

  enter-Loose :
      (after : ℕ) (t : Trapped) (type : IntType) (orig : ℕ) (m : Machine)
      → Loose addr type m (enter k after addr (record { type_ = type; orig = orig }) t m).2
  unfolding enter Loose
  enter-Loose after t pushbp orig m = Same-refl m
  enter-Loose after t other orig m =
      write_byte-Apart orig m m (Same-Loose addr other m m (Same-refl m))
  enter-Loose after t unknown orig m = Same-refl m

  rearm-Same :
      (type : IntType) (orig : ℕ) (m m' : Machine)
      → m.text.bytes addr ≡ trap_byte m.using_int3
      → Loose addr type m m'
      → Same m (rearm k addr (record { type_ = type; orig = orig }) m')
  unfolding rearm write_trap Loose write_byte
  rearm-Same pushbp orig m m' trapped loose = loose
  rearm-Same unknown orig m m' trapped loose = loose
  rearm-Same other orig m m' trapped apart =
      let patched = write_byte-Patched k law addr permits (trap_byte m'.using_int3) m' in
      record {
        reads = λ a. elim (Bool-cases (a == addr)) [
          | inl e ↦ rw (==_eq a addr e) (patched.here ∙ ap trap_byte apart.traps ∙ sym trapped)
          | inr e ↦ (patched.there a (==_ne a addr e)) ∙ apart.reads a (==_ne a addr e)
        ];
        traps = apart.traps;
        handled = apart.handled;
      }

  -- Entering and re-arming give back the machine at the trap.
  pub rearm-enter :
      (after : ℕ) (t : Trapped) (state : IntState) (m : Machine)
      → m.text.bytes addr ≡ trap_byte m.using_int3
      → Same m (rearm k addr state (enter k after addr state t m).2)
  rearm-enter after t state m trapped =
      rearm-Same state.type_ state.orig m _ trapped (enter-Loose after t state.type_ state.orig m)

Site-trapped :
    (u : Bool) (byte now : ℕ) (here : List ℕ) (entry : Option AddrState)
    → here ≢ []
    → Site u byte here entry now
    → now ≡ trap_byte u
unfolding Site
Site-trapped u byte now [] entry some_here site = absurd (some_here refl)
Site-trapped u byte now (x ∷ xs) entry some_here (state, there, orig, trapped) = trapped

module _ (k : Kernel) (law : IsKernel k) (addr_ original : ℕ → ℕ) (hs : List ℕ) (after : ℕ)
    (before after_method : ℕ → Call → Call) (state : IntState) (t : Trapped) (w : World)
    (rep : Represents addr_ original hs w) (permits : Permits k (frame_addr w.machine t))
    (some_here : at addr_ (frame_addr w.machine t) hs ≢ []) where
  trapped : w.machine.text.bytes (frame_addr w.machine t) ≡ trap_byte w.machine.using_int3
  trapped = Site-trapped _ _ _ _ _ some_here (rep.sites (frame_addr w.machine t))

  abbrev addr : ℕ
  addr = frame_addr w.machine t

  abbrev c : Call
  c = prepared k after before state t w

  entered-Same : Same w.machine (rearm k addr state (enter k after addr state t w.machine).2)
  entered-Same = rearm-enter k law addr permits after t state w.machine trapped

  -- A call, trapped where an intercept is installed, that before() skips is over at once: its value
  -- is that which before() gave, and the intercepts and the text are as they were.
  pub intercept_tramp-skipped :
      c.skip_ ≡ true
      → ((intercept_tramp k after before state t w).0 ≡ returns c.retval_)
        × Represents addr_ original hs (intercept_tramp k after before state t w).1
  unfolding intercept_tramp with_machine
  intercept_tramp-skipped skips =
      rw skips (refl, Same-Represents addr_ original hs w _ entered-Same rep)
