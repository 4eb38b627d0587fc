-- ===== src/Spiegel/Trap/Entry.antt =====
-- What runs after the before() methods: as if the caller had called the original function, or that
-- of a redirection.
use novaprova.Prelude.{
  ℕ, ◌+◌, ◌≡◌, refl, ◌∙◌, true, false, [], ◌∷◌, ◌==◌, if◌then◌else◌, Bool-cases, inl, inr, ◌||◌,
}
use novaprova.Spiegel.Text.{Kernel}
use novaprova.Spiegel.Platform.{
  unknown, pushbp, other, IntState, type_of, insn_push_rbp, insn_int3, insn_hlt, write_byte,
}
use novaprova.Spiegel.Intercept.{World, dispatch}
use novaprova.Spiegel.Trap.{
  Call, Trapped, Context, enters, frame_addr, enter, new_call, redirected, intercept_tramp,
}

-- A function's first moment: the return address on the stack, then the arguments.
abbrev pub entry_of : ℕ → ℕ → Call → Context
entry_of addr after c = record { rip = addr; stack = after ∷ c.stack; regs = c.regs }

-- `push %rbp` is executed: one byte long, it pushes the register.
abbrev pub push_rbp : ℕ → Context → Context
push_rbp rbp x = record { rip = x.rip + 1; stack = rbp ∷ x.stack; regs = x.regs }

-- The state that install_intercept notes for a byte that is no trap.
pub record IsNoted (byte : ℕ) (state : IntState) : Type 0 where
  pub typed : state.type_ ≡ type_of byte unknown
  pub kept : state.orig ≡ byte
  pub code : (byte == insn_hlt || byte == insn_int3) ≡ false

module _ (k : Kernel) (after : ℕ) (before : ℕ → Call → Call) (state : IntState) (t : Trapped)
    (w : World) where
  abbrev addr : ℕ
  addr = frame_addr w.machine t

  -- The call after the before() methods.
  abbrev pub prepared : Call
  prepared = dispatch before (frame_addr w.machine t) w (new_call t)

  module _ (byte : ℕ) (noted : IsNoted byte state) where
    pub noted_pushbp : (byte == insn_push_rbp) ≡ true → state.type_ ≡ pushbp
    unfolding type_of
    noted_pushbp e = noted.typed ∙ rw e refl

    pub noted_other : (byte == insn_push_rbp) ≡ false → state.type_ ≡ other
    unfolding type_of
    noted_other e = noted.typed ∙ rw (e, noted.code) refl

    pub entered_pushbp :
        state.type_ ≡ pushbp
        → enter k after addr state t w.machine ≡ (addr + 1, t.own_rbp ∷ after ∷ [], w.machine)
    unfolding enter
    entered_pushbp e = rw (enter, e)

    pub entered_other :
        state.type_ ≡ other
        → enter k after addr state t w.machine
          ≡ (addr, after ∷ [], (write_byte k addr state.orig w.machine).1)
    unfolding enter
    entered_other e = rw (enter, e)

    -- If no before() method skips or redirects the call of a function whose byte was noted, what runs
    -- is the original function from its first instruction, or from its second as if `push %rbp` had
    -- been executed.
    pub intercept_tramp-runs_original :
        prepared.skip_ ≡ false
        → (prepared.redirect_ == 0) ≡ true
        → (intercept_tramp k after before state t w).0
          ≡ enters
              (if byte == insn_push_rbp
                then push_rbp t.own_rbp (entry_of addr after prepared)
                else entry_of addr after prepared)
              prepared
    unfolding intercept_tramp
    intercept_tramp-runs_original runs unredirected = elim (Bool-cases (byte == insn_push_rbp)) [
      | inl e ↦ rw (entered_pushbp (noted_pushbp e), runs, unredirected, e)
      | inr e ↦ rw (entered_other (noted_other e), runs, unredirected, e)
    ]

    -- If a before() method redirects the call, what runs is that function from its start.
    pub intercept_tramp-runs_redirected :
        prepared.skip_ ≡ false
        → (prepared.redirect_ == 0) ≡ false
        → (intercept_tramp k after before state t w).0
          ≡ enters (entry_of prepared.redirect_ after prepared) prepared
    unfolding intercept_tramp redirected
    intercept_tramp-runs_redirected runs redirects = elim (Bool-cases (byte == insn_push_rbp)) [
      | inl e ↦
          rw (entered_pushbp (noted_pushbp e), runs, redirects) (rw (redirected, noted_pushbp e))
      | inr e ↦ rw (entered_other (noted_other e), runs, redirects) (rw (redirected, noted_other e))
    ]
