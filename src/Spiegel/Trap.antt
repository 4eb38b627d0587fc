-- ===== src/Spiegel/Trap.antt =====
-- From a trap to the intercepted function and back on Linux x86_64: call_t of
-- np/spiegel/intercept.hxx, handle_signal and intercept_tramp of
-- np/spiegel/platform/linux_x86_64.cxx. A stack is the list of its words from the stack pointer
-- up, and the argument registers are numbered by argument.
pub mod Signals
pub mod Arguments
pub mod Entry
pub mod Restored
pub mod Called
pub mod Mocks
use novaprova.Prelude.{
  ℕ, zero, suc, ◌+◌, ◌-◌, ◌/◌, ◌%◌, ◌^◌, min, Bool, true, false, not, ◌&&◌, ◌||◌, Option, none,
  some, List, [], ◌∷◌, ◌++◌, ◌==◌, if◌then◌else◌, ltb, take, drop, get_or,
}
use novaprova.Spiegel.Text.{Kernel}
use novaprova.Spiegel.Platform.{
  IntType, unknown, pushbp, other, IntState, Machine, insn_int3, insn_hlt, write_byte, write_trap,
}
use novaprova.Spiegel.Intercept.{World, dispatch, get_intstate}

-- call_t with the members of x86_64_linux_call_t: `stack` is what `stack_` points to.
pub record Call : Type 0 where
  pub regs : ℕ → ℕ
  pub stack : List ℕ
  pub redirect_ : ℕ
  pub retval_ : ℕ
  pub skip_ : Bool

-- A word of the stack beyond those that the call may reach reads as 0.
unfoldable pub get_arg : ℕ → Call → ℕ
get_arg i c = if ltb i 6 then c.regs i else get_or c.stack (i - 6) 0

unfoldable pub set_reg : ℕ → ℕ → (ℕ → ℕ) → ℕ → ℕ
set_reg i v regs j = if j == i then v else regs j

unfoldable pub set_word : ℕ → ℕ → List ℕ → List ℕ
set_word i v [] = []
set_word zero v (x ∷ xs) = v ∷ xs
set_word (suc i) v (x ∷ xs) = x ∷ set_word i v xs

unfoldable pub set_arg : ℕ → ℕ → Call → Call
unfolding set_reg set_word
set_arg i v c = record {
  regs = if ltb i 6 then set_reg i v c.regs else c.regs;
  stack = if ltb i 6 then c.stack else set_word (i - 6) v c.stack;
  redirect_ = c.redirect_;
  retval_ = c.retval_;
  skip_ = c.skip_;
}

unfoldable pub skip : ℕ → Call → Call
skip rv c = record {
  regs = c.regs;
  stack = c.stack;
  redirect_ = c.redirect_;
  retval_ = rv;
  skip_ = true;
}

unfoldable pub redirect : ℕ → Call → Call
redirect f c = record {
  regs = c.regs;
  stack = c.stack;
  redirect_ = f;
  retval_ = c.retval_;
  skip_ = c.skip_;
}

unfoldable pub set_retval : ℕ → Call → Call
set_retval rv c = record {
  regs = c.regs;
  stack = c.stack;
  redirect_ = c.redirect_;
  retval_ = rv;
  skip_ = c.skip_;
}

-- `tramp_uc` and `fpuc`: the registers at the trap, the caller's words above the return address,
-- and the trampoline's own frame pointer.
pub record Trapped : Type 0 where
  pub rip : ℕ
  pub rsp : ℕ
  pub caller : List ℕ
  pub regs : ℕ → ℕ
  pub own_rbp : ℕ

-- What setcontext() switches to.
pub record Context : Type 0 where
  pub rip : ℕ
  pub stack : List ℕ
  pub regs : ℕ → ℕ

unfoldable pub frame_addr : Machine → Trapped → ℕ
frame_addr m t = t.rip - (if m.using_int3 then 1 else 0)

-- The words of the caller that memcpy() puts into frame.stack[2..27].
unfoldable pub copied : Trapped → List ℕ
copied t =
    let parent_size = (t.own_rbp + 2 ^ 64 - (t.rsp + 8) % 2 ^ 64) % 2 ^ 64 in
    take (min parent_size 208 / 8) t.caller

-- The first switch on the type: instruction pointer, words pushed, text. `after` is a label.
unfoldable pub enter : Kernel → ℕ → ℕ → IntState → Trapped → Machine → ℕ × List ℕ × Machine
enter k after addr state t m = elim state.type_ [
  | pushbp ↦ (addr + 1, t.own_rbp ∷ after ∷ [], m)
  | other ↦ (addr, after ∷ [], (write_byte k addr state.orig m).1)
  | unknown ↦ (t.rip, [], m)
]

unfoldable pub new_call : Trapped → Call
unfolding copied
new_call t = record { regs = t.regs; stack = copied t; redirect_ = 0; retval_ = 0; skip_ = false }

-- Re-insert the breakpoint.
unfoldable pub rearm : Kernel → ℕ → IntState → Machine → Machine
rearm k addr state m = elim state.type_ [
  | pushbp ↦ m
  | other ↦ (write_trap k addr m).1
  | unknown ↦ m
]

-- What a redirected call finds on the stack.
unfoldable pub redirected : IntState → List ℕ → List ℕ
redirected state stack = elim state.type_ [
  | pushbp ↦ drop 1 stack
  | other ↦ stack
  | unknown ↦ stack
]

unfoldable pub with_machine : Machine → World → World
with_machine m w = record { installed = w.installed; machine = m }

pub data Outcome : Type 0 where
  -- The value for the caller of the intercepted function.
  returns : ℕ → Outcome
  -- The original function or that of a redirection runs, for a call in progress.
  enters : Context → Call → Outcome

module _ (k : Kernel) (after : ℕ) (before : ℕ → Call → Call) where
  -- `intercept_tramp` up to setcontext(). `tramp_intstate` points to `state`.
  unfoldable pub intercept_tramp : IntState → Trapped → World → Outcome × World
  unfolding with_machine
  intercept_tramp state t w =
      let addr = frame_addr w.machine t in
      let entered = enter k after addr state t w.machine in
      let c = dispatch before addr w (new_call t) in
      let rearmed = with_machine (rearm k addr state entered.2) w in
      if c.skip_
      then (returns c.retval_, rearmed)
      else (if c.redirect_ == 0
          then (
            enters (record { rip = entered.0; stack = entered.1 ++ c.stack; regs = c.regs }) c,
            with_machine entered.2 w,
          )
          else (
            enters
                (record {
                  rip = c.redirect_;
                  stack = redirected state (entered.1 ++ c.stack);
                  regs = c.regs;
                })
                c,
            rearmed,
          ))

-- `intercept_tramp` from the label `after`: the function has returned `rax`.
unfoldable pub tramp_after :
    Kernel → (ℕ → Call → Call) → ℕ → IntState → ℕ → Call → World → ℕ × World
unfolding set_retval with_machine
tramp_after k after_method addr state rax c w =
    let rearmed = with_machine (rearm k addr state w.machine) w in
    ((dispatch after_method addr rearmed (set_retval rax c)).retval_, rearmed)

abbrev pub sigtrap : ℕ
sigtrap = 5

abbrev pub sigsegv : ℕ
sigsegv = 11

abbrev pub si_kernel : ℕ
si_kernel = 128

abbrev pub trap_brkpt : ℕ
trap_brkpt = 1

pub record SigInfo : Type 0 where
  pub si_signo : ℕ
  pub si_code : ℕ
  pub si_pid : ℕ

pub data Handled : Type 0 where
  -- Returns to what the signal interrupted.
  ignored : Handled
  -- Returns to what the signal interrupted, with the default action set for the signals to come: HLT
  -- traps again and takes it, but INT3 has been passed.
  defaults : Handled
  -- Returns to the trampoline, with this state.
  traps : IntState → Handled

-- The end of `handle_signal`: `rip` is the address of the trap.
unfoldable pub find_intercept : SigInfo → ℕ → World → Handled
unfolding get_intstate
find_intercept si rip w =
    if not (si.si_pid == 0)
    then ignored
    else elim (get_intstate rip w) [ none ↦ defaults | some state ↦ traps state ]

unfoldable pub handle_signal : ℕ → SigInfo → ℕ → World → Handled
unfolding find_intercept
handle_signal sig si rip w =
    if w.machine.using_int3
    then (if not (sig == sigtrap) || not (si.si_signo == sigtrap)
        then ignored
        else (if not (si.si_code == si_kernel) && not (si.si_code == trap_brkpt)
            then defaults
            else (if not (w.machine.text.bytes (rip - 1) == insn_int3)
                then defaults
                else find_intercept si (rip - 1) w)))
    else (if not (sig == sigsegv) || not (si.si_signo == sigsegv)
        then ignored
        else (if not (si.si_code == si_kernel)
            then defaults
            else (if not (w.machine.text.bytes rip == insn_hlt)
                then defaults
                else find_intercept si rip w)))
