-- ===== src/Spiegel/Trap/Signals.antt =====
-- Which traps reach the trampoline.
use novaprova.Prelude.{
  ℕ, ◌+◌, ◌-◌, ◌≡◌, ◌⊎◌, refl, Bool, true, false, not, Option, List, [], ◌∷◌, ◌==◌, if◌then◌else◌,
  arith, Bool-cases, inl, inr,
}
use novaprova.Spiegel.Text.{Text}
use novaprova.Spiegel.Platform.{IntState, Machine, trap_byte}
use novaprova.Spiegel.Intercept.{AddrState, World, get_intstate, get_addrstate}
use novaprova.Spiegel.Intercept.Installed.{at, Site, Represents}
use novaprova.Spiegel.Intercept.Cases.{==_refl}
use novaprova.Spiegel.Trap.{
  SigInfo, Handled, defaults, traps, sigtrap, sigsegv, si_kernel, trap_brkpt, find_intercept,
  handle_signal,
}

-- The signal that the kernel raises for a trap.
abbrev pub trap_signal : Bool → ℕ
trap_signal using_int3 = if using_int3 then sigtrap else sigsegv

-- The codes that it has: Valgrind, under which alone INT3 is used, gives another one.
abbrev pub IsRaised : Bool → ℕ → Type 0
IsRaised using_int3 code = (code ≡ si_kernel) ⊎ ((using_int3 ≡ true) × (code ≡ trap_brkpt))

abbrev pub raised : Bool → ℕ → SigInfo
raised using_int3 code = record { si_signo = trap_signal using_int3; si_code = code; si_pid = 0 }

-- Where the instruction pointer stands for a trap at an address: INT3 has been passed, HLT not.
abbrev pub stopped_at : Bool → ℕ → ℕ
stopped_at using_int3 a = a + (if using_int3 then 1 else 0)

-- What is to be done with a trap at an address with these intercepts.
unfoldable pub Right : ℕ → List ℕ → Handled → Type 0
Right byte [] h = h ≡ defaults
Right byte (x ∷ xs) h = (state : IntState) × (h ≡ traps state) × (state.orig ≡ byte)

found :
    (code a : ℕ) (w : World) (u : Bool) (byte now : ℕ) (here : List ℕ)
    → Site u byte here (w.installed a) now
    → Right byte here (find_intercept (raised u code) a w)
unfolding find_intercept get_intstate get_addrstate Site Right
found code a w u byte now [] (absent, _) = rw absent
found code a w u byte now (x ∷ xs) (state, there, orig, _) = rw there (state, refl, orig)

checked :
    (code a : ℕ) (w : World) (u : Bool) (byte now : ℕ) (here : List ℕ)
    → Site u byte here (w.installed a) now
    → Right byte here
        (if not (now == trap_byte u) then defaults else find_intercept (raised u code) a w)
unfolding Right Site
checked code a w u byte now [] site = elim (Bool-cases (now == trap_byte u)) [
  | inl e ↦ rw e (found code a w u byte now [] site)
  | inr e ↦ rw e
]
checked code a w u byte now (x ∷ xs) (state, there, orig, trapped) =
    rw (trapped, ==_refl (trap_byte u))
      (found code a w u byte (trap_byte u) (x ∷ xs) (state, there, orig, refl))

handled :
    (u armed : Bool) (text : Text) (installed : ℕ → Option AddrState) (code a : ℕ)
    → IsRaised u code
    → let m : Machine = record { text = text; using_int3 = u; installed_sigaction = armed } in
      let w : World = record { installed = installed; machine = m } in
      handle_signal (trap_signal u) (raised u code) (stopped_at u a) w
      ≡ (if not (text.bytes a == trap_byte u) then defaults else find_intercept (raised u code) a w)
unfolding handle_signal trap_byte
handled true armed text installed code a (inl e) =
    let passed : a + 1 - 1 ≡ a = omega arith in rw (e, passed)
handled true armed text installed code a (inr (int3, e)) =
    let passed : a + 1 - 1 ≡ a = omega arith in rw (e, passed)
handled false armed text installed code a (inl e) =
    let stays : a + 0 ≡ a = omega arith in rw (e, stays)
handled false armed text installed code a (inr (int3, e)) = cc int3

module _ (addr_ original : ℕ → ℕ) (hs : List ℕ) (w : World)
    (rep : Represents addr_ original hs w) where
  -- A trap that the kernel, or for INT3 Valgrind, raises (with si_pid 0) reaches the trampoline, with
  -- the state of the address and the byte that was there, where an intercept is installed; elsewhere
  -- the default action is set.
  pub handle_signal-Right :
      (code a : ℕ)
      → IsRaised w.machine.using_int3 code
      → let u = w.machine.using_int3 in
        Right
          (original a)
          (at addr_ a hs)
          (handle_signal (trap_signal u) (raised u code) (stopped_at u a) w)
  handle_signal-Right code a known =
      rw
        (handled w.machine.using_int3 w.machine.installed_sigaction w.machine.text w.installed code
          a known)
        (checked code a w w.machine.using_int3 (original a) (w.machine.text.bytes a) (at addr_ a hs)
          (rep.sites a))
