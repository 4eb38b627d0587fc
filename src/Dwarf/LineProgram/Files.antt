-- ===== src/Dwarf/LineProgram/Files.antt =====
-- np/spiegel/dwarf/lineno_program.hxx: `run_state_t::get_file_entry` and `get_absolute_filename`.
-- An index past the include directories is none.
use novaprova.Prelude.{
  ℕ, suc, zero, ◌-◌, ◌≡◌, true, Option, none, some, List, [], ltb, if◌then◌else◌, length, get_elem?,
}
use novaprova.Dwarf.LineProgram.{FileEntry, Program, RunState}
use novaprova.Util.FileName.{is_absolute, make_absolute_to_dir}
use novaprova.Util.FileName.Absolute.{gives_absolute, make_absolute_to_dir-absolute}

unfoldable pub get_file_entry : Program → RunState → ℕ → Option FileEntry
get_file_entry p rs zero = none
get_file_entry p rs (suc i) =
    if ltb i (length p.files)
    then get_elem? p.files i
    else get_elem? rs.additional_files (i - length p.files)

abbrev pub directory_of : Program → ℕ → Option (List ℕ)
directory_of p zero = some p.compilation_directory
directory_of p (suc i) = get_elem? p.include_directories i

-- Relative to its directory, and that relative to the compilation directory.
abbrev pub absolute_in : List ℕ → Program → FileEntry → Option (List ℕ) → Option (List ℕ)
absolute_in cwd p e none = none
absolute_in cwd p e (some d) = elim (make_absolute_to_dir cwd e.filename d) [
  | none ↦ none
  | some f2 ↦ make_absolute_to_dir cwd f2 p.compilation_directory
]

abbrev pub absolute_of : List ℕ → Program → Option FileEntry → Option (List ℕ)
absolute_of cwd p none = some []
absolute_of cwd p (some e) = absolute_in cwd p e (directory_of p e.directory_index)

unfoldable pub get_absolute_filename : List ℕ → Program → RunState → ℕ → Option (List ℕ)
unfolding get_file_entry
get_absolute_filename cwd p rs i = absolute_of cwd p (get_file_entry p rs i)

second-absolute :
    (cwd : List ℕ) (p : Program) (o : Option (List ℕ))
    → is_absolute p.compilation_directory ≡ true
    → gives_absolute o ≡ true
    → gives_absolute
        (elim o [ none ↦ none | some f2 ↦ make_absolute_to_dir cwd f2 p.compilation_directory ])
      ≡ true
second-absolute cwd p none c h = h
second-absolute cwd p (some f2) c h = make_absolute_to_dir-absolute cwd f2 p.compilation_directory c

absolute_in-absolute :
    (cwd : List ℕ) (p : Program) (e : FileEntry) (o : Option (List ℕ))
    → is_absolute p.compilation_directory ≡ true
    → gives_absolute o ≡ true
    → gives_absolute (absolute_in cwd p e o) ≡ true
absolute_in-absolute cwd p e none c h = h
absolute_in-absolute cwd p e (some d) c h =
    second-absolute cwd p (make_absolute_to_dir cwd e.filename d) c
      (make_absolute_to_dir-absolute cwd e.filename d h)

-- A file that a program names has an absolute file name, where the compilation directory and the
-- directory that its entry names are absolute.
pub get_absolute_filename-absolute :
    (cwd : List ℕ) (p : Program) (rs : RunState) (i : ℕ) (e : FileEntry)
    → get_file_entry p rs i ≡ some e
    → is_absolute p.compilation_directory ≡ true
    → gives_absolute (directory_of p e.directory_index) ≡ true
    → gives_absolute (get_absolute_filename cwd p rs i) ≡ true
unfolding get_absolute_filename
get_absolute_filename-absolute cwd p rs i e found c d =
    rw (get_absolute_filename, found)
      (absolute_in-absolute cwd p e (directory_of p e.directory_index) c d)
