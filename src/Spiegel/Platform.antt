-- ===== src/Spiegel/Platform.antt =====
-- Patching a function on Linux x86_64: intstate_t of np/spiegel/platform/common.hxx,
-- install_intercept, uninstall_intercept and is_intercept_installed of
-- np/spiegel/platform/linux_x86_64.cxx. An int result that is 0 or -1 is a Bool, true for 0.
pub mod Patching
use novaprova.Prelude.{ℕ, Bool, true, false, not, ◌||◌, [], ◌∷◌, ◌==◌, if◌then◌else◌}
use novaprova.Spiegel.Text.{Text, Kernel, text_write}

pub data IntType : Type 0 where
  unknown pushbp other : IntType

pub record IntState : Type 0 where
  pub type_ : IntType
  pub orig : ℕ

abbrev pub new_intstate : IntState
new_intstate = record { type_ = unknown; orig = 0 }

abbrev pub insn_push_rbp : ℕ
insn_push_rbp = 85

abbrev pub insn_int3 : ℕ
insn_int3 = 204

abbrev pub insn_hlt : ℕ
insn_hlt = 244

-- The text with the static variables of the file.
pub record Machine : Type 0 where
  pub text : Text
  pub using_int3 : Bool
  pub installed_sigaction : Bool

-- `trap_bytes[0]`; `trap_len` is 1 either way.
unfoldable pub trap_byte : Bool → ℕ
trap_byte using_int3 = if using_int3 then insn_int3 else insn_hlt

-- The type that the first byte of a function gives; an installed trap leaves it as it was.
unfoldable pub type_of : ℕ → IntType → IntType
type_of byte old =
    if byte == insn_push_rbp
    then pushbp
    else (if byte == insn_hlt || byte == insn_int3 then old else other)

-- The signal handler, installed once.
unfoldable pub install_sigaction : Kernel → Machine → Bool × Machine
install_sigaction k m =
    if m.installed_sigaction
    then (true, m)
    else (let using_int3 = m.using_int3 || k.running_on_valgrind in
        let works = k.sigaction using_int3 in
        (works, record { text = m.text; using_int3 = using_int3; installed_sigaction = works }))

-- `text_write(addr, bytes, trap_len)`, of one byte.
unfoldable pub write_byte : Kernel → ℕ → ℕ → Machine → Bool × Machine
write_byte k addr byte m =
    let written = text_write k addr (byte ∷ []) m.text in
    (
      written.0,
      record {
        text = written.1;
        using_int3 = m.using_int3;
        installed_sigaction = m.installed_sigaction;
      },
    )

unfoldable pub write_trap : Kernel → ℕ → Machine → Bool × Machine
write_trap k addr m = write_byte k addr (trap_byte m.using_int3) m

unfoldable pub install_intercept : Kernel → ℕ → IntState → Machine → Bool × IntState × Machine
install_intercept k addr state m =
    if addr == 0
    then (false, state, m)
    else (let byte = m.text.bytes addr in
        let state' : IntState = record { type_ = type_of byte state.type_; orig = byte } in
        let armed = install_sigaction k m in
        if armed.0
        then (let patched = write_trap k addr armed.1 in (patched.0, state', patched.1))
        else (false, state', armed.1))

unfoldable pub is_intercept_installed : ℕ → Machine → Bool
is_intercept_installed addr m =
    if addr == 0 then false else m.text.bytes addr == trap_byte m.using_int3

unfoldable pub uninstall_intercept : Kernel → ℕ → IntState → Machine → Bool × Machine
uninstall_intercept k addr state m =
    if addr == 0
    then (false, m)
    else (if not (m.text.bytes addr == trap_byte m.using_int3)
        then (false, m)
        else write_byte k addr state.orig m)
