-- ===== src/Spiegel/Trap/Mocks.antt =====
-- Mocks: np/redirect.hxx.
use novaprova.Prelude.{ℕ, false}
use novaprova.Spiegel.Trap.{Call, Trapped, copied, redirect}

-- `redirect_t::before`; `to_` reads the member of that name.
unfoldable pub redirect_before : (ℕ → ℕ) → ℕ → Call → Call
unfolding redirect
redirect_before to_ this c = redirect (to_ this) c

-- A call to be redirected, with the arguments that it had.
abbrev pub redirected_call : ℕ → Trapped → Call
redirected_call f t = record {
  regs = t.regs;
  stack = copied t;
  redirect_ = f;
  retval_ = 0;
  skip_ = false;
}
