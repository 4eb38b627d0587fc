-- ===== src/Spiegel/Trap/Called.antt =====
-- A trapped call against the call of a program without traps.
use novaprova.Prelude.{ℕ, ◌≡◌, Bool, not, ◌&&◌, ◌==◌, if◌then◌else◌}
use novaprova.Spiegel.Text.{Kernel, IsKernel}
use novaprova.Spiegel.Platform.{IntState, insn_push_rbp, trap_byte}
use novaprova.Spiegel.Platform.Patching.{Permits}
use novaprova.Spiegel.Intercept.{World}
use novaprova.Spiegel.Trap.{Call, Trapped, Outcome, returns, enters, frame_addr}
use novaprova.Spiegel.Trap.Entry.{entry_of, push_rbp, IsNoted, prepared}

-- What a call of a function that starts with a byte comes to when before() has done its work: a
-- value; the function from its first instruction, or from its second behind `push %rbp`; or the
-- function of a redirection.
abbrev pub called : ℕ → ℕ → ℕ → ℕ → Call → Outcome
called byte after addr rbp c =
    if c.skip_
    then returns c.retval_
    else (if c.redirect_ == 0
        then enters
            (if byte == insn_push_rbp
              then push_rbp rbp (entry_of addr after c)
              else entry_of addr after c)
            c
        else enters (entry_of c.redirect_ after c) c)

-- Whether the first instruction is to be read from the text.
abbrev pub runs_first : ℕ → Call → Bool
runs_first byte c = not c.skip_ && (c.redirect_ == 0) && not (byte == insn_push_rbp)

module _ (k : Kernel) (law : IsKernel k) (after : ℕ) (before : ℕ → Call → Call) (state : IntState)
    (t : Trapped) (w : World) (byte : ℕ) (noted : IsNoted byte state)
    (permits : Permits k (frame_addr w.machine t))
    (trapped : w.machine.text.bytes (frame_addr w.machine t) ≡ trap_byte w.machine.using_int3) where
  abbrev addr : ℕ
  addr = frame_addr w.machine t

  abbrev c : Call
  c = prepared k after before state t w
