-- ===== src/Dwarf/LineProgram.antt =====
-- np/spiegel/dwarf/lineno_program.hxx and .cxx: the virtual machine of a DWARF line number program,
-- `lineno_program_t::run`. Header.antt has `read_header`.
-- Integers are numbers with the wrap-around of their width written out; an int8_t or int32_t is its
-- bit pattern. A division by zero ends the process.
pub mod Header
pub mod Parsing
pub mod Tables
pub mod Files
pub mod Layout
pub mod Unit
pub mod Progress
pub mod Source
pub mod Special
use novaprova.Prelude.{
  ℕ, zero, suc, ◌+◌, ◌-◌, ◌*◌, ◌/◌, ◌%◌, ◌^◌, Bool, true, false, not, ◌&&◌, ◌||◌, Option, none,
  some, List, [], ◌∷◌, ◌++◌, ltb, leb, ◌==◌, if◌then◌else◌, length,
}
use novaprova.Dwarf.Reader.{
  Reader, seek, read_u8, read_u16, read_addr, read_uleb128, read_sleb128, read_string, M, ◌>>=◌,
  return,
}

pub record FileEntry : Type 0 where
  pub filename : List ℕ
  pub directory_index : ℕ
  pub mtime : ℕ
  pub length : ℕ

pub record Registers : Type 0 where
  pub address : ℕ
  pub file : ℕ
  pub line : ℕ
  pub column : ℕ
  pub is_stmt : Bool
  pub basic_block : Bool
  pub end_sequence : Bool
  pub prologue_end : Bool
  pub epilogue_begin : Bool
  pub isa : ℕ
  pub op_index : ℕ
  pub discriminator : ℕ

pub record Program : Type 0 where
  pub compilation_directory : List ℕ
  pub reader : Reader
  pub header_length : ℕ
  pub version : ℕ
  pub minimum_instruction_length : ℕ
  pub maximum_operations_per_instruction : ℕ
  pub default_is_stmt : Bool
  pub line_base : ℕ
  pub line_range : ℕ
  pub opcode_base : ℕ
  pub include_directories : List (List ℕ)
  pub files : List FileEntry

pub record RunState : Type 0 where
  pub registers : Registers
  pub start : Registers
  pub have_start : Bool
  pub additional_files : List FileEntry
  pub running : Bool

pub data Status : Type 0 where
  success bad_opcode opcode_fetch operand_fetch halted_by_delegate : Status

-- All zero, as after `memset`.
abbrev pub zero_registers : Registers
zero_registers = record {
  address = 0;
  file = 0;
  line = 0;
  column = 0;
  is_stmt = false;
  basic_block = false;
  end_sequence = false;
  prologue_end = false;
  epilogue_begin = false;
  isa = 0;
  op_index = 0;
  discriminator = 0;
}

unfoldable pub reset_registers : Program → RunState → RunState
reset_registers p rs = record rs {
  registers = record {
    address = 0;
    file = 1;
    line = 1;
    column = 0;
    is_stmt = p.default_is_stmt;
    basic_block = false;
    end_sequence = false;
    prologue_end = false;
    epilogue_begin = false;
    isa = 0;
    op_index = 0;
    discriminator = 0;
  };
}

unfoldable pub init_state : RunState
init_state = record {
  registers = zero_registers;
  start = zero_registers;
  have_start = false;
  additional_files = [];
  running = true;
}

-- The second half of `copy`, when the delegate lets the program run on.
unfoldable pub append_row : RunState → RunState
append_row rs = record rs {
  start = if rs.registers.end_sequence then zero_registers else rs.registers;
  have_start = not rs.registers.end_sequence;
  registers = record (rs.registers) {
    basic_block = false;
    prologue_end = false;
    epilogue_begin = false;
    discriminator = 0;
  };
}

-- `none` is a division by zero.
unfoldable pub advance_pc : Program → ℕ → RunState → Option RunState
advance_pc p operation_advance rs =
    let m = p.maximum_operations_per_instruction in
    let new_op_index = (rs.registers.op_index + operation_advance) % 2 ^ 32 in
    if m == 0
    then none
    else some (record rs {
      registers = record (rs.registers) {
        address =
            (rs.registers.address + new_op_index / m * p.minimum_instruction_length % 2 ^ 32)
            % 2 ^ 64;
        op_index = new_op_index % m;
      };
    })

unfoldable pub advance_line : ℕ → RunState → RunState
advance_line line_advance rs = record rs {
  registers = record (rs.registers) { line = (rs.registers.line + line_advance) % 2 ^ 32 };
}

-- The conversion of an int8_t to an int32_t.
abbrev pub widen8 : ℕ → ℕ
widen8 b = if ltb b 128 then b else b + (2 ^ 32 - 256)

-- `(uint8_t)(opcode - opcode_base_)`
abbrev pub adjusted : Program → ℕ → ℕ
adjusted p opcode = (opcode + 256 - p.opcode_base) % 256

unfoldable pub special_opcode_line_advance : Program → ℕ → Option ℕ
special_opcode_line_advance p opcode =
    if p.line_range == 0
    then none
    else some ((widen8 p.line_base + adjusted p opcode % p.line_range) % 2 ^ 32)

unfoldable pub special_opcode_operation_advance : Program → ℕ → Option ℕ
special_opcode_operation_advance p opcode =
    if p.line_range == 0 then none else some (adjusted p opcode / p.line_range)

-- What one turn of the loop of `run` comes to, up to the call of `rs.copy(delegate)` that some
-- opcodes end in: the flag says that `reset_registers` follows the call.
pub data Turn : Type 0 where
  fails : Status → Turn
  divides_by_zero : Turn
  goes_on : RunState → Reader → Turn
  copies : RunState → Bool → Reader → Turn

-- `if (!r.read_…(v)) return error;`
abbrev pub fetch : {A : Type 0} → Option A × Reader → Status → (A → Reader → Turn) → Turn
fetch (none, r) error k = fails error
fetch (some a, r) error k = k a r

-- An operation that may divide by zero.
abbrev pub unless_crash : {A : Type 0} → Option A → (A → Turn) → Turn
unless_crash none k = divides_by_zero
unless_crash (some a) k = k a

-- The fields of a file entry.
unfoldable pub read_file_entry : List ℕ → M FileEntry
read_file_entry name = do
  directory ← read_uleb128
  mtime ← read_uleb128
  length ← read_uleb128
  return (record { filename = name; directory_index = directory; mtime = mtime; length = length })

unfoldable pub define_file : M FileEntry
define_file = do name ← read_string; read_file_entry name

-- `case DW_LNE_…`
unfoldable pub extended_opcode : ℕ → RunState → Reader → Turn
extended_opcode opcode rs r =
    if opcode == 1
    then copies (record rs { registers = record (rs.registers) { end_sequence = true } }) true r
    else if opcode == 2
    then (fetch (read_addr r) Status.operand_fetch λ v r'.
        goes_on (record rs { registers = record (rs.registers) { address = v; op_index = 0 } }) r')
    else if opcode == 3
    then (fetch (define_file r) Status.operand_fetch
        λ e r'. goes_on (record rs { additional_files = rs.additional_files ++ (e ∷ []) }) r')
    else if opcode == 4
    then (fetch (read_uleb128 r) Status.opcode_fetch
        λ d r'. goes_on (record rs { registers = record (rs.registers) { discriminator = d } }) r')
    else fails Status.bad_opcode

-- `case DW_LNS_…`. The switch has no default: any other opcode below `opcode_base_` does nothing.
unfoldable pub standard_opcode : Program → ℕ → RunState → Reader → Turn
standard_opcode p opcode rs r =
    let g = rs.registers in
    if opcode == 1
    then copies rs false r
    else if opcode == 2
    then (fetch (read_uleb128 r) Status.operand_fetch
        λ u r'. unless_crash (advance_pc p u rs) λ rs'. goes_on rs' r')
    else if opcode == 3
    then (fetch (read_sleb128 r) Status.operand_fetch λ s r'. goes_on (advance_line s rs) r')
    else if opcode == 4
    then (fetch (read_uleb128 r) Status.operand_fetch
        λ u r'. goes_on (record rs { registers = record g { file = u } }) r')
    else if opcode == 5
    then (fetch (read_uleb128 r) Status.operand_fetch
        λ u r'. goes_on (record rs { registers = record g { column = u } }) r')
    else if opcode == 6
    then goes_on (record rs { registers = record g { is_stmt = not g.is_stmt } }) r
    else if opcode == 7
    then goes_on (record rs { registers = record g { basic_block = true } }) r
    else if opcode == 8
    then (unless_crash (special_opcode_operation_advance p 255)
        λ u. unless_crash (advance_pc p u rs) λ rs'. goes_on rs' r)
    else if opcode == 9
    then (fetch (read_u16 r) Status.operand_fetch λ h r'.
        goes_on (record rs { registers = record g { address = (g.address + h) % 2 ^ 64 } }) r')
    else if opcode == 10
    then goes_on (record rs { registers = record g { prologue_end = true } }) r
    else if opcode == 11
    then goes_on (record rs { registers = record g { epilogue_begin = true } }) r
    else if opcode == 12
    then (fetch (read_uleb128 r) Status.operand_fetch
        λ u r'. goes_on (record rs { registers = record g { isa = u } }) r')
    else goes_on rs r

unfoldable pub special_opcode : Program → ℕ → RunState → Reader → Turn
special_opcode p opcode rs r = unless_crash (special_opcode_line_advance p opcode) λ l.
    unless_crash (special_opcode_operation_advance p opcode)
      λ u. unless_crash (advance_pc p u (advance_line l rs)) λ rs'. copies rs' false r

-- The body of the loop, behind the read of the opcode.
unfoldable pub dispatch : Program → ℕ → RunState → Reader → Turn
dispatch p opcode rs r =
    if opcode == 0
    then (fetch (read_uleb128 r) Status.opcode_fetch λ nbytes r'.
        fetch (read_u8 r') Status.opcode_fetch λ extended r''. extended_opcode extended rs r'')
    else if ltb opcode p.opcode_base
    then standard_opcode p opcode rs r
    else special_opcode p opcode rs r

-- How `run` ends: its status and the delegate's state. `crashed` is a division by zero; `stuck` is
-- no outcome of the source, but of a loop out of fuel.
pub data Outcome (D : Type 0) : Type 0 where
  ended : Status → D → Outcome D
  crashed stuck : Outcome D

-- The outcome of one turn: the loop ends, or goes on.
pub data Next (D : Type 0) : Type 0 where
  done : Outcome D → Next D
  again : RunState → D → Reader → Next D

-- `delegate->receive_range(range_t(*this))`: the range is a view of the run state. The delegate
-- answers whether to run on, and keeps a state of its own.
module _ {D : Type 0} (receive : RunState → D → Bool × D) where
  abbrev pub received : RunState → Bool × D → RunState × D
  received rs (true, d) = (append_row rs, d)
  received rs (false, d) = (record rs { running = false }, d)

  unfoldable pub copy : RunState → D → RunState × D
  copy rs d = if rs.have_start then received rs (receive rs d) else (append_row rs, d)

  unfoldable pub finish_turn : Program → Turn → D → Next D
  finish_turn p (fails s) d = done (ended s d)
  finish_turn p divides_by_zero d = done crashed
  finish_turn p (goes_on rs r) d = again rs d r
  finish_turn p (copies rs reset r) d =
      let (rs', d') = copy rs d in again (if reset then reset_registers p rs' else rs') d' r

  -- The turn behind the read of an opcode; where there is none the loop ends.
  unfoldable pub opcode_turn : Program → RunState → D → Option ℕ × Reader → Next D
  opcode_turn p rs d (none, r) = done (ended Status.success d)
  opcode_turn p rs d (some opcode, r) = finish_turn p (dispatch p opcode rs r) d

  -- One test of the loop's condition, and one turn.
  unfoldable pub turn : Program → RunState → D → Reader → Next D
  turn p rs d r =
      if rs.running
      then opcode_turn p rs d (read_u8 r)
      else done (ended Status.halted_by_delegate d)

  unfoldable pub run_loop : ℕ → Program → RunState → D → Reader → Outcome D
  run_loop zero p rs d r = stuck
  run_loop (suc fuel) p rs d r = elim (turn p rs d r) [
    | done o ↦ o
    | again rs' d' r' ↦ run_loop fuel p rs' d' r'
  ]

  -- Each turn reads a byte at least.
  unfoldable pub run : Program → D → Outcome D
  run p d =
      run_loop (suc (length p.reader.bytes)) p (reset_registers p init_state) d
        (seek p.header_length p.reader).1

-- `range_t::contains(a)`, with `op_index` 0 by default.
unfoldable pub contains : RunState → ℕ → ℕ → Bool
contains rs a op_index =
    let start = rs.start in
    let end_ = rs.registers in
    if ltb a start.address || (a == start.address && ltb op_index start.op_index)
    then false
    else if leb end_.address a || (a == end_.address && leb end_.op_index op_index)
    then false
    else true

-- `get_source_line_delegate_t`: the state is what it has found, the range's run state.
unfoldable pub seek_address : ℕ → RunState → Option RunState → Bool × Option RunState
seek_address a rs found = if contains rs a 0 then (false, some rs) else (true, found)

-- `status == ERR_HALTED_BY_DELEGATE && delegate.was_found()`
abbrev pub reported : Outcome (Option RunState) → Option RunState
reported (ended Status.halted_by_delegate found) = found
reported (ended _ found) = none
reported crashed = none
reported stuck = none

-- What `get_source_line` answers: the range whose file, line and column it reports. (The range's
-- `start` registers hold them.)
unfoldable pub get_source_line : Program → ℕ → Option RunState
get_source_line p a = reported (run (seek_address a) p none)
