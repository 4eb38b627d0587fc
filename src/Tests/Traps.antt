-- ===== src/Tests/Traps.antt =====
-- Intercepts at work on a small program: a function at 4096 that starts with `push %rbp`, and one at
-- 4200 that does not.
use novaprova.Prelude.{
  ℕ, ◌+◌, ◌*◌, ◌≡◌, refl, Bool, true, false, ◌&&◌, none, List, [], ◌∷◌, ◌++◌, ◌==◌, if◌then◌else◌,
  ltb, leb, arith, inr, map,
}
use novaprova.Spiegel.Text.{
  Text, Prot, read_exec, Kernel, IsKernel, protect_pages, text_map_writable, text_restore,
  text_write,
}
use novaprova.Spiegel.Text.Writes.{Grants, text_write-read_exec}
use novaprova.Spiegel.Platform.{
  IntState, other, install_intercept, install_sigaction, write_trap, write_byte,
}
use novaprova.Spiegel.Platform.Patching.{Permits}
use novaprova.Spiegel.Intercept.{
  World, install, create_addrstate, set_addrstate, dispatch, dispatch_loop, get_addrstate,
}
use novaprova.Spiegel.Intercept.Installed.{at, Site, Represents}
use novaprova.Spiegel.Intercept.History.{run_patches, install-Represents, post_run-restores}
use novaprova.Spiegel.Trap.{
  Call, Trapped, returns, frame_addr, new_call, skip, intercept_tramp, handle_signal, trap_brkpt,
}
use novaprova.Spiegel.Trap.Entry.{prepared}
use novaprova.Spiegel.Trap.Restored.{intercept_tramp-skipped}
use novaprova.Spiegel.Trap.Signals.{trap_signal, raised, stopped_at, Right, handle_signal-Right}
use novaprova.Suite.Tree.{
  Intercept, Members, Place, node, nil, line, all_intercepts, pre_run, post_run, installs,
}

abbrev pub grant : ℕ → ℕ → Prot → Text → Bool × Text
grant start len p t = (
  true,
  record {
    bytes = t.bytes;
    prot = λ a. if leb start a && ltb a (start + len) then p else t.prot a;
  },
)

abbrev pub kernel : Kernel
kernel = record {
  page_size = 4096;
  mprotect = grant;
  running_on_valgrind = false;
  sigaction = λ _. true;
}

pub kernel-IsKernel : IsKernel kernel
kernel-IsKernel = record {
  has_pages = omega arith;
  keeps = λ start len p t a. refl;
  protects = λ start len p t a _ low high. ground (arith, low, high);
  spares = λ start len p t a out. ground (arith, out);
}

abbrev program : ℕ → ℕ
program a = if a == 4096 then 85 else 72

abbrev program_text : Text
program_text = record { bytes = program; prot = λ _. read_exec }

kernel-Grants : (to len : ℕ) → Grants kernel to len
unfolding text_map_writable text_restore protect_pages
kernel-Grants to len t = (refl, refl)

kernel-Permits : (addr : ℕ) → ltb 0 addr ≡ true → Permits kernel addr
kernel-Permits addr real = record {
  real = ground (arith, real);
  writes = kernel-Grants addr 1;
  signals = λ _. refl;
}

text_write-read_exec_example :
    (text_write kernel 4200 (244 ∷ []) program_text).1.prot 4200 ≡ read_exec
text_write-read_exec_example =
    text_write-read_exec kernel kernel-IsKernel 4200 (244 ∷ []) (kernel-Grants 4200 1) program_text
      (λ _. refl) 4200

-- Intercepts 1 at the first function, 2 and 3 at the second.
abbrev address : ℕ → ℕ
address h = if h == 1 then 4096 else 4200

abbrev fresh : World
fresh = record {
  installed = λ _. none;
  machine = record { text = program_text; using_int3 = false; installed_sigaction = false };
}

fresh-Represents : Represents address program [] fresh
unfolding at Site
fresh-Represents = record { sites = λ a. (refl, refl); handles = λ _. refl }

abbrev put : ℕ → World → World
put h w = (install kernel address h w).1

install-Represents_example :
    ((install kernel address 1 fresh).0 ≡ true)
    × Represents address program (1 ∷ []) (install kernel address 1 fresh).1
install-Represents_example =
    install-Represents address program [] fresh fresh-Represents kernel kernel-IsKernel 1
      (kernel-Permits 4096 refl)

add-Represents :
    (h : ℕ) (hs : List ℕ) (w : World)
    → Represents address program hs w
    → Represents address program (hs ++ h ∷ []) (put h w)
add-Represents h hs w rep =
    (install-Represents address program hs w rep kernel kernel-IsKernel h
      (kernel-Permits (address h) (ground arith))).1

abbrev mocked : World
mocked = put 3 (put 2 (put 1 fresh))

mocked-Represents : Represents address program (1 ∷ 2 ∷ 3 ∷ []) mocked
mocked-Represents =
    add-Represents 3 (1 ∷ 2 ∷ []) (put 2 (put 1 fresh))
      (add-Represents 2 (1 ∷ []) (put 1 fresh) (add-Represents 1 [] fresh fresh-Represents))

-- A call of the second function: HLT leaves the instruction pointer on itself.
abbrev trapped_call : Trapped
trapped_call = record { rip = 4200; rsp = 9000; caller = 5 ∷ 6 ∷ []; regs = λ i. i; own_rbp = 9024 }

abbrev noted : IntState
noted = record { type_ = other; orig = 72 }

-- The trap at the second function, with mocks that go to 100 times their numbers.
abbrev to_mock : ℕ → ℕ
to_mock h = h * 100

-- A before() method that leaves the call as it is.
abbrev watch : ℕ → Call → Call
watch h c = c

abbrev after_watch : Call
after_watch = prepared kernel 77 watch noted trapped_call mocked

abbrev give_up : ℕ → Call → Call
give_up h c = skip 9 c

intercept_tramp-skipped_example :
    ((intercept_tramp kernel 77 give_up noted trapped_call mocked).0 ≡ returns 9)
    × Represents address program
        (1 ∷ 2 ∷ 3 ∷ [])
        (intercept_tramp kernel 77 give_up noted trapped_call mocked).1
unfolding frame_addr at install create_addrstate set_addrstate install_intercept install_sigaction
    write_trap write_byte dispatch get_addrstate dispatch_loop new_call skip
intercept_tramp-skipped_example =
    intercept_tramp-skipped kernel kernel-IsKernel address program (1 ∷ 2 ∷ 3 ∷ []) 77 give_up watch
      noted trapped_call mocked mocked-Represents (kernel-Permits 4200 refl) (λ e. cc e) refl

-- The second function's trap under Valgrind, which gives TRAP_BRKPT.
abbrev under_valgrind : World
under_valgrind = record {
  installed = λ _. none;
  machine = record { text = program_text; using_int3 = true; installed_sigaction = true };
}

under_valgrind-Represents : Represents address program [] under_valgrind
unfolding at Site
under_valgrind-Represents = record { sites = λ a. (refl, refl); handles = λ _. refl }

abbrev debugged : World
debugged = put 2 under_valgrind

debugged-Represents : Represents address program (2 ∷ []) debugged
debugged-Represents =
    (install-Represents address program [] under_valgrind under_valgrind-Represents kernel
      kernel-IsKernel 2 (kernel-Permits 4200 refl)).1

uses_int3 : debugged.machine.using_int3 ≡ true
unfolding install create_addrstate set_addrstate install_intercept install_sigaction write_trap
    write_byte get_addrstate
uses_int3 = refl

handle_signal-Right_example : Right 72 (2 ∷ []) (
    let u = debugged.machine.using_int3 in
    handle_signal (trap_signal u) (raised u trap_brkpt) (stopped_at u 4200) debugged)
unfolding at
handle_signal-Right_example =
    handle_signal-Right address program (2 ∷ []) debugged debugged-Represents trap_brkpt 4200
      (inr (uses_int3, refl))

-- A test with one mock of its own and one of its suite; it adds a third.
abbrev own : Intercept
own = record { target = 4200; target_name = none; mock = 200 }

abbrev outer : Intercept
outer = record { target = 4200; target_name = none; mock = 300 }

abbrev added : Intercept
added = record { target = 4096; target_name = none; mock = 100 }

abbrev with_mock : Intercept → Members
with_mock i = record { name = none; funcs = λ ft. none; intercepts = i ∷ []; parameters = [] }

abbrev mocking_test : Place
mocking_test = record {
  focus = node (with_mock own) nil;
  above = record { parent = with_mock outer; before = nil; behind = nil } ∷ [];
}

abbrev new : Intercept → ℕ
new i = if i.mock == 100 then 1 else (if i.mock == 200 then 2 else 3)

abbrev running : World
running = run_patches kernel address new (pre_run mocking_test ++ map installs (added ∷ [])) fresh

abbrev after_test : World
after_test = run_patches kernel address new (post_run (added ∷ []) mocking_test).0 running

post_run-restores_example :
    Represents address program
      (map new (all_intercepts (line mocking_test)) ++ map new (added ∷ []))
      running
    × Represents address program [] after_test
    × ((a : ℕ) → after_test.machine.text.bytes a ≡ program a)
unfolding all_intercepts
post_run-restores_example =
    post_run-restores kernel kernel-IsKernel address program new mocking_test (added ∷ []) fresh
      (kernel-Permits 4200 refl, (kernel-Permits 4200 refl, tt)) (kernel-Permits 4096 refl, tt)
      fresh-Represents
