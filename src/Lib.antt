-- ===== src/Lib.antt =====
-- A model of the NovaProva unit test library (np/): how the tests are found in their tree and planned,
-- how a runner runs them in child processes and how their outcome gets back to it, how functions are
-- intercepted and mocked, and how the library reads DWARF line numbers and finds functions by address.
--
-- Parts, and how they interact:
--   * Suite: the tree of tests (Suite/Tree, np/testnode.cxx) with its paths (Tree/Paths), its iterator
--     (Tree/Iterator, Tree/Preorder), the fixtures of a test (Tree/Fixtures) and `detach_common` (Tree/Detach); the
--     plan (Suite/Plan, np/plan.cxx), whose iterator goes through the tests of its nodes and, by
--     `bump` (Run/Assignment, np/testnode.cxx), through the values of their parameters.
--   * Run: the runner (np/runner.cxx) begins a child process for each job of a plan (Run/Runner),
--     waits for the children by `poll` (Runner/Wait) and reaps them by `waitpid` (Runner/Reap). In
--     the child, `run_test_code` (Run/TestCode) calls the fixtures and the test. Its
--     events (Run/Event, np/event.cxx) and its result (Run/Types, np/types.cxx) are written by
--     `proxy_listener_t` to a pipe (Run/Proxy, np/proxy_listener.cxx). The parent keeps a `child_t`
--     for each process (Run/Child, np/child.cxx), which takes them in by `handle_call`, and ends the
--     process by signals when its time is out. `runner_t::raise_event` normalises each event on the
--     parent's side once more.
--   * Dwarf: `reader_t` (Dwarf/Reader, np/spiegel/dwarf/reader.hxx) is the cursor on which
--     `lineno_program_t` (Dwarf/LineProgram, np/spiegel/dwarf/lineno_program.cxx) reads the header of a
--     line number program (LineProgram/Header) and runs it for a delegate; `get_source_line` is such
--     a delegate. LineProgram/Files gives the file names. `compile_unit_t` reads on it the header of a
--     unit (Dwarf/CompileUnit, np/spiegel/dwarf/compile_unit.cxx) and the abbreviations of its
--     entries (Dwarf/Abbrev, np/spiegel/dwarf/abbrev.cxx), and `walker_t` reads an entry
--     (Dwarf/Entry, np/spiegel/dwarf/entry.hxx) or skips it (Dwarf/Walker, np/spiegel/dwarf/walker.cxx)
--     and moves on (Walker/Moves).
--     `state_t` (Dwarf/State, np/spiegel/dwarf/state.cxx) loads the link objects of the process and
--     keeps trees of ranges (Util/RangeTree, np/util/rangetree.hxx) from addresses to them and to
--     functions, whose ranges it reads from their section (State/Ranges, State/Indexed). State/Loaded is
--     about link objects, State/Units about references into them. A link object coalesces its
--     sections into mappings (Dwarf/LinkObject, np/spiegel/dwarf/link_object.cxx) of the file
--     (Spiegel/Mapping, np/spiegel/mapping.cxx).
--   * Spiegel: a test's mocks are intercepts. The registry (Spiegel/Intercept,
--     np/spiegel/intercept.cxx) patches a function (Spiegel/Platform,
--     np/spiegel/platform/linux_x86_64.cxx) by a write to the text (Spiegel/Text,
--     np/spiegel/platform/mprotect.cxx). A call of the function then traps, and the signal handler and the
--     trampoline (Spiegel/Trap, np/spiegel/platform/linux_x86_64.cxx) call the intercepts and the
--     function. Intercept/Installed and Intercept/Refines relate registry and text to the list of
--     the installed intercepts; Intercept/History runs the patches of a test (Suite/Tree).
--   * Util: the tokenizer (Util/Tok, np/util/tok.cxx) and paths (Util/FileName,
--     np/util/filename.cxx), which is its client.
--   * Prelude has the shared names, Boolean tests, list and bit lemmas, and words as bytes. Tests has
--     inputs and runs.
--
-- State and operations: a class is a record of its members, a method a function of the record under
-- the source's name. A reader's method that returns bool and fills an out parameter is a state
-- function with an optional answer. A pipe is the list of what each read(2) gives, an error among
-- them. The run state's calls of the delegate thread the delegate's own state through. Integers are
-- numbers with the width's wrap-around written out; signed ones are bit patterns.
-- A pointer to a node of the tree is a place: the node and what stands above it. The functions of a
-- test, which the library calls, are a parameter on a process state of their own type; what `fork`,
-- `poll` and `waitpid` return is a script. mprotect(2), sigaction(2), the page size and Valgrind are a
-- record, with what mprotect documents as laws. An intercept is its pointer; its before() and after()
-- are parameters on the call. A std::map from addresses is a function, one from ranges a sorted list. A
-- stack is the list of its words.
--
-- Fuel: the loop of `run` has one more round than the program has bytes, and each round reads one;
-- the loops over the tables of a header have one more round than the section has bytes, and each
-- entry has one, and so have the loops over abbreviations and their attributes; `deserialise_bytes` has a round for each byte that is wanted; a loop over the
-- tokens of a text has two more rounds than it has bytes; the search for the next test of a plan has
-- one more round than the subtree has nodes; the loop that reaps the finished children has one more
-- round than the script of `waitpid` is long, and each takes something of it. The
-- walker's loops have a round for each entry that they read.
--
-- Not modelled: the temporary files and descriptors of `fork_child`, `list_tests`, the registration
-- of listeners, the listeners that print, discovery, the walker's `get_path` and `move_up`, and
-- what goes through entries by the moves (the description of addresses without an index, and of types),
-- the finding of ELF sections by the BFD library, reflection, the other platforms, and the C glue.
-- What setcontext(2) and a signal's return switch to is a value of the model, not a run of the
-- processor; longjmp out of an intercept is left out. `getcwd` and the printing of numbers
-- are parameters. Undefined shifts are taken as x86 computes them, and memory outside a section,
-- where a cursor may get by a count that wraps around, cannot be read. Heap copies, destructors and
-- the debug log are left out.
pub mod Prelude
pub mod Tests
pub mod Util
pub mod Dwarf
pub mod Run
pub mod Suite
pub mod Spiegel
