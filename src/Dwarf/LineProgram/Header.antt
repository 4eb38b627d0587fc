-- ===== src/Dwarf/LineProgram/Header.antt =====
-- np/spiegel/dwarf/lineno_program.cxx: `lineno_program_t::read_header`.
-- The caller drops a program whose header is refused, so its half-filled members are not kept. The
-- debug log is left out. The loops over the two tables run on fuel.
use novaprova.Prelude.{
  ℕ, zero, suc, ◌+◌, ◌-◌, ◌%◌, ◌^◌, Bool, not, ◌||◌, Option, none, some, List, [], ◌∷◌, ltb, ◌==◌,
  if◌then◌else◌, length,
}
use novaprova.Dwarf.Reader.{
  Reader, M, ◌>>=◌, ◌>>◌, return, refuse, get_remains, initial_subset, skip, read_u8, read_u16,
  read_s8, read_offset, read_uleb128, read_string, read_initial_length,
}
use novaprova.Dwarf.LineProgram.{FileEntry, Program}

-- `r.get_offset()`
unfoldable pub get_offset : M ℕ
get_offset r = (some r.offset, r)

abbrev pub when_empty : {A : Type 0} → List ℕ → M A → M A → M A
when_empty [] stop more = stop
when_empty (c ∷ v) stop more = more

-- The loop over the lengths of the standard opcodes, which are read and dropped.
unfoldable pub read_opcode_lengths : ℕ → M (Unit {0})
unfolding read_u8
read_opcode_lengths zero = return tt
read_opcode_lengths (suc n) = read_u8 >> read_opcode_lengths n

unfoldable pub read_directories : ℕ → M (List (List ℕ))
unfolding read_string
read_directories zero = refuse
read_directories (suc fuel) = do
  v ← read_string
  when_empty v (return []) (do vs ← read_directories fuel; return (v ∷ vs))

-- The three numbers behind a file's name.
unfoldable pub read_entry : List ℕ → M FileEntry
unfolding read_uleb128
read_entry v = do
  directory ← read_uleb128
  mtime ← read_uleb128
  size ← read_uleb128
  return (record { filename = v; directory_index = directory; mtime = mtime; length = size })

unfoldable pub read_files : ℕ → M (List FileEntry)
unfolding read_string
read_files zero = refuse
read_files (suc fuel) = do
  v ← read_string
  when_empty v (return []) (do e ← read_entry v; es ← read_files fuel; return (e ∷ es))

abbrev pub min_lineno_version : ℕ
min_lineno_version = 2

abbrev pub max_lineno_version : ℕ
max_lineno_version = 4

unfoldable pub check_version : ℕ → M (Unit {0})
check_version version =
    if ltb version min_lineno_version || ltb max_lineno_version version then refuse else return tt

-- Only version 4 has this field.
unfoldable pub read_maximum_operations : ℕ → M ℕ
unfolding read_u8
read_maximum_operations version = if ltb version 4 then return 1 else read_u8

unfoldable pub check_header_length : ℕ → ℕ → M (Unit {0})
check_header_length header there = if header == there then return tt else refuse

-- What stands behind the length of the header. `reader_` is the state, and the member of the
-- program that the result still wants; `header_length` is an offset in the unit.
unfoldable pub read_tail : ℕ → List ℕ → ℕ → ℕ → M (Reader → Program)
unfolding read_u8 read_s8
read_tail fuel compilation_directory version header_length = do
  minimum ← read_u8
  maximum ← read_maximum_operations version
  is_stmt ← read_u8
  line_base ← read_s8
  line_range ← read_u8
  opcode_base ← read_u8
  read_opcode_lengths (opcode_base - 1)
  directories ← read_directories fuel
  files ← read_files fuel
  there ← get_offset
  check_header_length header_length there
  return (λ reader. record {
    compilation_directory = compilation_directory;
    reader = reader;
    header_length = header_length;
    version = version;
    minimum_instruction_length = minimum;
    maximum_operations_per_instruction = maximum;
    default_is_stmt = not (is_stmt == 0);
    line_base = line_base;
    line_range = line_range;
    opcode_base = opcode_base;
    include_directories = directories;
    files = files;
  })

-- What stands behind the length of the unit.
unfoldable pub read_fields : ℕ → List ℕ → M (Reader → Program)
unfolding read_u16 read_offset
read_fields fuel compilation_directory = do
  version ← read_u16
  check_version version
  size ← read_offset
  here ← get_offset
  read_tail fuel compilation_directory version ((size + here) % 2 ^ 64)

abbrev pub with_reader : Option (Reader → Program) × Reader → Option Program
with_reader (none, reader) = none
with_reader (some p, reader) = some (p reader)

-- The unit's own reader, and the one behind the unit. Each table is at most as long as the unit.
unfoldable pub read_unit : List ℕ → ℕ → Bool → Reader → Option Program × Reader
unfolding initial_subset skip
read_unit compilation_directory unit_length is64 r = (
  with_reader (
      read_fields (suc (length r.bytes)) compilation_directory
        (record (initial_subset r unit_length) { is64 = is64 })),
  (skip unit_length r).1,
)

-- `fatal` ends the process.
pub data Opened : Type 0 where
  fatal : Opened
  answers : Option Program × Reader → Opened

abbrev pub read_unit_if : List ℕ → Option (ℕ × Bool) × Reader → Opened
read_unit_if compilation_directory (none, r) = answers (none, r)
read_unit_if compilation_directory (some (unit_length, is64), r) =
    if ltb (get_remains r) unit_length
    then fatal
    else answers (read_unit compilation_directory unit_length is64 r)

unfoldable pub read_header : List ℕ → Reader → Opened
unfolding read_initial_length
read_header compilation_directory r = read_unit_if compilation_directory (read_initial_length r)
