-- ===== src/Spiegel/Platform/Patching.antt =====
-- What patching one address does, where the kernel grants it.
use novaprova.Prelude.{
  ℕ, ◌<◌, ◌≡◌, ◌≢◌, refl, ◌∙◌, ap, Bool, true, false, [], ◌∷◌, ◌||◌, ◌==◌, arith, Bool-cases, inl,
  inr,
}
use novaprova.Spiegel.Text.{Kernel, IsKernel, poke}
use novaprova.Spiegel.Text.Writes.{Grants, text_write-true, text_write-bytes}
use novaprova.Spiegel.Platform.{
  IntState, Machine, trap_byte, install_sigaction, write_byte, write_trap, install_intercept,
  uninstall_intercept,
}

-- An address that is not null, whose byte may be changed, in a process that may handle the signals.
pub record Permits (k : Kernel) (addr : ℕ) : Type 0 where
  pub real : 0 < addr
  pub writes : Grants k addr 1
  pub signals : (using_int3 : Bool) → k.sigaction using_int3 ≡ true

==_refl : (n : ℕ) → (n == n) ≡ true
==_refl n = ground arith

module _ (k : Kernel) (law : IsKernel k) (addr : ℕ) (permits : Permits k addr) where
  pub not_null : (addr == 0) ≡ false
  not_null = ground (arith, permits.real)

  install_sigaction_lem :
      (m : Machine)
      → let r = install_sigaction k m in
        (r.0 ≡ true)
        × (r.1.text ≡ m.text)
        × (r.1.installed_sigaction ≡ true)
        × (m.installed_sigaction ≡ true → r.1.using_int3 ≡ m.using_int3)
  unfolding install_sigaction
  install_sigaction_lem m = elim (Bool-cases m.installed_sigaction) [
    | inl e ↦ simp e (refl, refl, refl, λ _. refl)
    | inr e ↦
        let works = permits.signals (m.using_int3 || k.running_on_valgrind) in
        rw e (works, refl, works, λ h. cc)
  ]

  module _ (byte : ℕ) (m : Machine) where
    write_byte-true : (write_byte k addr byte m).0 ≡ true
    unfolding write_byte
    write_byte-true = text_write-true k law addr (byte ∷ []) permits.writes m.text

    write_byte_here : (write_byte k addr byte m).1.text.bytes addr ≡ byte
    unfolding write_byte poke
    write_byte_here =
        text_write-bytes k law addr (byte ∷ []) permits.writes m.text addr ∙ ground arith

    write_byte_there :
        (a : ℕ) → a ≢ addr → (write_byte k addr byte m).1.text.bytes a ≡ m.text.bytes a
    unfolding write_byte poke
    write_byte_there a other =
        text_write-bytes k law addr (byte ∷ []) permits.writes m.text a ∙ ground arith

  -- What stays and what changes when a machine's text is patched at the address.
  pub record Patched (byte : ℕ) (m m' : Machine) : Type 0 where
    pub here : m'.text.bytes addr ≡ byte
    pub there : (a : ℕ) → a ≢ addr → m'.text.bytes a ≡ m.text.bytes a
    pub keeps_trap : m.installed_sigaction ≡ true → m'.using_int3 ≡ m.using_int3
    pub handles : m.installed_sigaction ≡ true → m'.installed_sigaction ≡ true

  pub write_byte-Patched : (byte : ℕ) (m : Machine) → Patched byte m (write_byte k addr byte m).1
  unfolding write_byte
  write_byte-Patched byte m = record {
    here = write_byte_here byte m;
    there = write_byte_there byte m;
    keeps_trap = λ _. refl;
    handles = λ h. h;
  }

  pub install_intercept-Patched :
      (state : IntState) (m : Machine)
      → let r = install_intercept k addr state m in
        (r.0 ≡ true)
        × (r.1.orig ≡ m.text.bytes addr)
        × (r.2.installed_sigaction ≡ true)
        × Patched (trap_byte r.2.using_int3) m r.2
  unfolding install_intercept write_trap write_byte
  install_intercept-Patched state m =
      let (works, same, handled, kept) = install_sigaction_lem m in
      let armed = (install_sigaction k m).1 in
      let byte = trap_byte armed.using_int3 in
      rw (not_null, works)
        (
          write_byte-true byte armed,
          refl,
          handled,
          record {
            here = write_byte_here byte armed;
            there = λ a other. write_byte_there byte armed a other ∙ ap (λ t. t.bytes a) same;
            keeps_trap = kept;
            handles = λ _. handled;
          },
        )

  pub uninstall_intercept-Patched :
      (state : IntState) (m : Machine)
      → m.text.bytes addr ≡ trap_byte m.using_int3
      → let r = uninstall_intercept k addr state m in
        (r.0 ≡ true)
        × (r.1.installed_sigaction ≡ m.installed_sigaction)
        × (r.1.using_int3 ≡ m.using_int3)
        × Patched state.orig m r.1
  unfolding uninstall_intercept write_byte
  uninstall_intercept-Patched state m e =
      let same = ==_refl (trap_byte m.using_int3) in
      rw (not_null, e, same)
        (write_byte-true state.orig m, refl, refl, write_byte-Patched state.orig m)
