-- ===== src/Tests/Lines.antt =====
-- Inputs for Dwarf.LineProgram: np/spiegel/dwarf/lineno_program.hxx and .cxx.
use novaprova.Prelude.{
  ℕ, ◌+◌, ◌*◌, ◌%◌, ◌/◌, ◌^◌, ◌<◌, ◌≡◌, ◌≢◌, refl, true, false, some, List, [], ◌∷◌, ◌++◌, arith,
  length,
}
use novaprova.Prelude.Bytes.{codes, le_bytes}
use novaprova.Dwarf.Reader.{Reader, advance, seek, read_u8, read_uleb128, read_addr, leb_groups}
use novaprova.Dwarf.LineProgram.{
  Program, RunState, Status, Outcome, ended, stuck, zero_registers, reset_registers, init_state,
  append_row, copy, finish_turn, opcode_turn, turn, run_loop, run, get_source_line, special_opcode,
  copies, dispatch, widen8, extended_opcode, special_opcode_line_advance,
  special_opcode_operation_advance, advance_pc, advance_line, standard_opcode,
}
use novaprova.Dwarf.LineProgram.Source.{
  record_ranges, first_containing, get_source_line-first_containing,
}
use novaprova.Dwarf.LineProgram.Progress.{run-ne-stuck}
use novaprova.Dwarf.LineProgram.Special.{special_opcode-encoded}
use novaprova.Dwarf.LineProgram.Header.{answers, read_header}
use novaprova.Dwarf.LineProgram.Layout.{Layout, IsLayout, tail_bytes, unit_bytes, program_of}
use novaprova.Dwarf.LineProgram.Parsing.{IsLeb}
use novaprova.Dwarf.Reader.Leb.{group_bytes, group_value}
use novaprova.Dwarf.LineProgram.Unit.{read_header-unit_bytes, at_program}
use novaprova.Dwarf.LineProgram.Files.{get_file_entry}
use novaprova.Dwarf.LineProgram.{FileEntry}

-- DW_LNE_set_address 0x10, line 3, a row 4 bytes on, and the end of the sequence 4 bytes further.
abbrev program_bytes : List ℕ
program_bytes = 0 ∷ 9 ∷ 2 ∷ 0x10 ∷ 0 ∷ 0 ∷ 0 ∷ 0 ∷ 0 ∷ 0 ∷ 0 ∷ 20 ∷ 76 ∷ 2 ∷ 4 ∷ 0 ∷ 1 ∷ 1 ∷ []

abbrev small : Program
small = record {
  compilation_directory = codes "/src";
  reader = record { base = 4096; bytes = program_bytes; offset = 0; is64 = false };
  header_length = 0;
  version = 2;
  minimum_instruction_length = 1;
  maximum_operations_per_instruction = 1;
  default_is_stmt = true;
  line_base = 251;
  line_range = 14;
  opcode_base = 13;
  include_directories = [];
  files = [];
}

run-ne-stuck_example : run record_ranges small [] ≢ stuck
run-ne-stuck_example = run-ne-stuck record_ranges small [] (omega arith)

abbrev ranges_of : Outcome (List RunState) → List RunState
ranges_of (ended s log) = log
ranges_of _ = []

abbrev small_ranges : List RunState
small_ranges = ranges_of (run record_ranges small [])

small_runs : run record_ranges small [] ≡ ended Status.success small_ranges
unfolding run run_loop turn opcode_turn finish_turn copy append_row record_ranges dispatch
    reset_registers init_state seek read_u8 read_uleb128 leb_groups extended_opcode read_addr
    special_opcode special_opcode_line_advance special_opcode_operation_advance advance_pc
    advance_line standard_opcode
small_runs = refl

get_source_line-first_containing_example :
    get_source_line small 0x12 ≡ first_containing 0x12 small_ranges
get_source_line-first_containing_example =
    get_source_line-first_containing 0x12 small Status.success small_ranges small_runs

abbrev at_start : RunState
at_start = record {
  registers = record zero_registers { address = 0x20; line = 7 };
  start = record zero_registers { address = 0x10; line = 5 };
  have_start = true;
  additional_files = [];
  running = true;
}

-- Three operations to an instruction: from the second operation of one to the first of the next
-- but one.
abbrev bundled : Program
bundled = record small { maximum_operations_per_instruction = 3 }

abbrev in_bundle : RunState
in_bundle = record at_start { registers = record (at_start.registers) { op_index = 2 } }

special_opcode-encoded_example :
    special_opcode bundled (7 + bundled.line_range * 4 + bundled.opcode_base) in_bundle small.reader
    ≡ copies
        (record in_bundle {
          registers = record (in_bundle.registers) {
            address = (0x20 + (2 + 4) / 3 * bundled.minimum_instruction_length) % 2 ^ 64;
            line = (in_bundle.registers.line + widen8 bundled.line_base + 7) % 2 ^ 32;
            op_index = (2 + 4) % 3;
          };
        })
        false
        small.reader
special_opcode-encoded_example =
    special_opcode-encoded bundled in_bundle small.reader 0x20 2 7 4 (omega arith) (omega arith)
      (omega arith) refl refl (omega arith) (omega arith) (omega arith)

-- A header of version 3 with one directory and one file.
abbrev layout : Layout
layout = record {
  version = 3;
  minimum = 1;
  maximum = 1;
  is_stmt = 1;
  line_base = 251;
  line_range = 14;
  opcode_lengths = 0 ∷ 1 ∷ 1 ∷ 1 ∷ 1 ∷ 0 ∷ 0 ∷ 0 ∷ 1 ∷ [];
  directories = codes "np" ∷ [];
  files =
      record {
        name = codes "a.c";
        directory = record { head = 1; tail = [] };
        time = record { head = 0; tail = [] };
        size = record { head = 5; tail = 1 ∷ [] };
      }
      ∷ [];
}

abbrev rest_of_section : List ℕ
rest_of_section = 1 ∷ 2 ∷ 3 ∷ []

abbrev unit : List ℕ
unit = unit_bytes false layout ++ (0 ∷ 1 ∷ 1 ∷ [])

abbrev section : Reader
section = record {
  base = 4096;
  bytes = le_bytes 4 (length unit) ++ (unit ++ rest_of_section);
  offset = 0;
  is64 = true;
}

layout_tail : length (tail_bytes layout) < 4294967296
unfolding tail_bytes group_bytes
layout_tail = omega arith

layout_unit : length unit < 4294967280
unfolding unit_bytes tail_bytes group_bytes
layout_unit = omega arith

one_group : {g : ℕ} → g < 128 → IsLeb (record { head = g; tail = [] })
unfolding group_value
one_group h = record { head_group = h; tail_groups = _; short = omega arith; fits = omega arith }

layout-IsLayout : IsLayout layout
unfolding group_value
layout-IsLayout = record {
  version_from = omega arith;
  version_to = omega arith;
  small = layout_tail;
  names = (record { no_nul = (omega arith, (omega arith, _)); not_empty = cc }, _);
  entries = (
    record {
      has_name = record { no_nul = (omega arith, (omega arith, (omega arith, _))); not_empty = cc };
      has_directory = one_group (omega arith);
      has_time = one_group (omega arith);
      has_size = record {
        head_group = omega arith;
        tail_groups = (omega arith, _);
        short = omega arith;
        fits = omega arith;
      };
    },
    _,
  );
}

read_header-unit_bytes_example :
    read_header (codes "/src") section
    ≡ answers (
      some (
          program_of
            (codes "/src")
            (length (unit_bytes false layout))
            layout
            (at_program 4100 layout (0 ∷ 1 ∷ 1 ∷ []))),
      advance (4 + length unit) section,
    )
read_header-unit_bytes_example =
    read_header-unit_bytes (codes "/src") section layout (0 ∷ 1 ∷ 1 ∷ []) rest_of_section
      layout-IsLayout layout_unit refl

abbrev one_file : FileEntry
one_file = record { filename = codes "../a.c"; directory_index = 0; mtime = 0; length = 0 }

abbrev with_file : Program
with_file = record small { files = one_file ∷ [] }

first_file : get_file_entry with_file at_start 1 ≡ some one_file
unfolding get_file_entry
first_file = refl
