-- ===== src/Dwarf/LineProgram/Unit.antt =====
-- `read_header` on a section that holds a unit: what it reads, and what it leaves.
use novaprova.Prelude.{
  ℕ, suc, ◌+◌, ◌≤◌, ◌<◌, ◌≡◌, refl, sym, ap, ◌∙◌, false, Option, some, List, [], ◌∷◌, ◌++◌, arith,
  ltb, length, length-append, length-drop, take-append_length,
}
use novaprova.Prelude.Bytes.{le_bytes}
use novaprova.Dwarf.Reader.{
  Reader, rest, advance, get_remains, open_reader, initial_subset, skip, read_initial_length,
  check_length,
}
use novaprova.Dwarf.Reader.Words.{read_u32-le_bytes}
use novaprova.Dwarf.LineProgram.{Program}
use novaprova.Dwarf.LineProgram.Header.{answers, read_header, read_unit, read_fields, with_reader}
use novaprova.Dwarf.LineProgram.Parsing.{advance_add, rest-advance}
use novaprova.Dwarf.LineProgram.Tables.{
  directories_bytes, files_bytes, FileLayout, string_bytes, numbers_bytes,
}
use novaprova.Dwarf.LineProgram.Layout.{
  Layout, IsLayout, unit_bytes, program_of, Parses-read_fields, tail_bytes, maximum_bytes,
  after_maximum, length-unit_bytes,
}

pub get_remains-append :
    (r : Reader) (unit more : List ℕ)
    → rest r ≡ unit ++ more
    → get_remains r ≡ length unit + length more
get_remains-append r unit more h =
    sym (length-drop r.offset r.bytes) ∙ ap length h ∙ length-append unit more

pub read_initial_length-32 :
    (r : Reader) (n : ℕ) (more : List ℕ)
    → n < 0xfffffff0
    → rest r ≡ le_bytes 4 n ++ more
    → read_initial_length r ≡ (some (n, false), advance 4 r)
unfolding read_initial_length check_length
read_initial_length-32 r n more lt h =
    rw (read_initial_length, read_u32-le_bytes r n more (omega arith) h) (ground arith)

not_over : (m n : ℕ) → ltb (m + n) m ≡ false
not_over m n = ground arith

pub initial_subset-unit :
    (r : Reader) (unit more : List ℕ)
    → rest r ≡ unit ++ more
    → initial_subset r (length unit)
      ≡ record { base = r.base + r.offset; bytes = unit; offset = 0; is64 = r.is64 }
unfolding initial_subset open_reader
initial_subset-unit r unit more h = rw (
  initial_subset,
  get_remains-append r unit more h,
  not_over (length unit) (length more),
  h,
  take-append_length unit more,
)

pub skip-unit :
    (r : Reader) (unit more : List ℕ)
    → 0 < length unit
    → rest r ≡ unit ++ more
    → (skip (length unit) r).1 ≡ advance (length unit) r
unfolding skip
skip-unit r unit more some_byte h = ground (arith, get_remains-append r unit more h)

-- Each entry of a table has a byte at least.
length-directories_bytes : (vs : List (List ℕ)) → length vs ≤ length (directories_bytes vs)
length-directories_bytes [] = omega arith
length-directories_bytes (v ∷ vs) = omega (
  arith,
  length-directories_bytes vs,
  length-append (string_bytes v) (directories_bytes vs),
  length-append v (0 ∷ []),
)

length-files_bytes : (fs : List FileLayout) → length fs ≤ length (files_bytes fs)
length-files_bytes [] = omega arith
length-files_bytes (f ∷ fs) = omega (
  arith,
  length-files_bytes fs,
  length-append (string_bytes f.name) (numbers_bytes f ++ files_bytes fs),
  length-append (numbers_bytes f) (files_bytes fs),
  length-append f.name (0 ∷ []),
)

-- Fuel by the size of the section is enough for both tables.
tables_fit :
    (l : Layout)
    → length (directories_bytes l.directories) + length (files_bytes l.files)
      ≤ length (tail_bytes l)
unfolding tail_bytes
tables_fit l = omega (
  arith,
  length-append (maximum_bytes l) (after_maximum l),
  length-append l.opcode_lengths (directories_bytes l.directories ++ files_bytes l.files),
  length-append (directories_bytes l.directories) (files_bytes l.files),
)

enough_fuel :
    (r : Reader) (l : Layout) (program more : List ℕ)
    → rest r ≡ (unit_bytes false l ++ program) ++ more
    → (length l.directories < suc (length r.bytes)) × (length l.files < suc (length r.bytes))
enough_fuel r l program more h =
    let bound : length (tail_bytes l) ≤ length r.bytes = omega (
      arith,
      get_remains-append r (unit_bytes false l ++ program) more h,
      length-append (unit_bytes false l) program,
      length-unit_bytes false l,
    ) in
    (
      omega (arith, bound, tables_fit l, length-directories_bytes l.directories),
      omega (arith, bound, tables_fit l, length-files_bytes l.files),
    )

-- The reader of the unit, at the program.
abbrev pub at_program : ℕ → Layout → List ℕ → Reader
at_program base l program = record {
  base = base;
  bytes = unit_bytes false l ++ program;
  offset = length (unit_bytes false l);
  is64 = false;
}

read_unit-unit_bytes :
    (cd : List ℕ) (r : Reader) (l : Layout) (program more : List ℕ)
    → IsLayout l
    → rest r ≡ (unit_bytes false l ++ program) ++ more
    → read_unit cd (length (unit_bytes false l ++ program)) false r ≡ (
      some (
          program_of cd (length (unit_bytes false l)) l (at_program (r.base + r.offset) l program)),
      advance (length (unit_bytes false l ++ program)) r,
    )
unfolding read_unit
read_unit-unit_bytes cd r l program more i h =
    let (dirs, files) = enough_fuel r l program more h in
    let fields = Parses-read_fields (suc (length r.bytes)) cd l i dirs files in
    let unit = unit_bytes false l ++ program in
    let read : (Reader → Option Program × Reader) = λ sub. (
      with_reader (read_fields (suc (length r.bytes)) cd (record sub { is64 = false })),
      (skip (length unit) r).1,
    ) in
    ap read (initial_subset-unit r unit more h)
    ∙ rw
        (
          fields.parses
              (record { base = r.base + r.offset; bytes = unit; offset = 0; is64 = false }) program
              refl refl refl,
          skip-unit r unit more
              (omega (arith, length-append (unit_bytes false l) program, length-unit_bytes false l))
              h,
        )
        (ap
          (λ o. (
            some (
                program_of cd (length (unit_bytes false l)) l
                  (record { base = r.base + r.offset; bytes = unit; offset = o; is64 = false })),
            advance (length unit) r,
          ))
          (omega arith))

-- A section in the 32-bit format that holds a header in front of a program: `read_header` gives
-- the fields of the header, every directory and file of its tables among them, and a reader that
-- stands at the program; the section's reader goes behind the unit.
pub read_header-unit_bytes :
    (cd : List ℕ) (r : Reader) (l : Layout) (program more : List ℕ)
    → IsLayout l
    → length (unit_bytes false l ++ program) < 0xfffffff0
    → rest r
      ≡ le_bytes 4 (length (unit_bytes false l ++ program))
        ++ ((unit_bytes false l ++ program) ++ more)
    → read_header cd r
      ≡ answers (
        some (
            program_of cd
              (length (unit_bytes false l))
              l
              (at_program (r.base + (r.offset + 4)) l program)),
        advance (4 + length (unit_bytes false l ++ program)) r,
      )
unfolding read_header
read_header-unit_bytes cd r l program more i small h =
    let unit = unit_bytes false l ++ program in
    let next : rest (advance 4 r) ≡ unit ++ more =
      rest-advance r (le_bytes 4 (length unit)) (unit ++ more) h in
    rw (
      read_header,
      read_initial_length-32 r (length unit) (unit ++ more) small h,
      get_remains-append (advance 4 r) unit more next,
      not_over (length unit) (length more),
      read_unit-unit_bytes cd (advance 4 r) l program more i next,
      advance_add r 4 (length unit),
    )
