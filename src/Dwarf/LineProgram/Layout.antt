-- ===== src/Dwarf/LineProgram/Layout.antt =====
-- A line program's header as bytes, which `read_fields` reads.
use novaprova.Prelude.{
  ℕ, ◌+◌, ◌-◌, ◌^◌, ◌≤◌, ◌<◌, ◌≡◌, subst, Bool, true, false, not, List, [], ◌∷◌, ◌++◌, append-nil,
  arith, ltb, ◌==◌, if◌then◌else◌, length, length-append, inl, inr, Bool-cases, le→ltb, map, All,
}
use novaprova.Prelude.Bytes.{le_bytes, length-le_bytes}
use novaprova.Dwarf.Reader.{Reader, M, ◌>>=◌}
use novaprova.Dwarf.LineProgram.{Program}
use novaprova.Dwarf.LineProgram.Header.{
  read_maximum_operations, check_version, read_fields, read_tail, check_header_length,
  read_opcode_lengths,
}
use novaprova.Dwarf.LineProgram.Parsing.{
  Parses, Parses-and_then, Parses-get_offset, Parses-map, Parses-read_offset, Parses-read_s8,
  Parses-read_u16, Parses-read_u8, Parses-return, offset_bytes,
}
use novaprova.Dwarf.LineProgram.Tables.{
  IsName, directories_bytes, Parses-directories, FileLayout, IsFileLayout, entry_of, files_bytes,
  Parses-files, Parses-opcode_lengths,
}

-- What stands behind the length of the header.
pub record Layout : Type 0 where
  pub version : ℕ
  pub minimum : ℕ
  pub maximum : ℕ
  pub is_stmt : ℕ
  pub line_base : ℕ
  pub line_range : ℕ
  pub opcode_lengths : List ℕ
  pub directories : List (List ℕ)
  pub files : List FileLayout

abbrev pub maximum_bytes : Layout → List ℕ
maximum_bytes l = if ltb l.version 4 then [] else l.maximum ∷ []

abbrev pub opcode_base_of : Layout → ℕ
opcode_base_of l = length l.opcode_lengths + 1

unfoldable pub tail_bytes : Layout → List ℕ
tail_bytes l =
    (l.minimum ∷ [])
    ++ (maximum_bytes l
        ++ ((l.is_stmt ∷ [])
            ++ ((l.line_base ∷ [])
                ++ ((l.line_range ∷ [])
                    ++ ((opcode_base_of l ∷ [])
                        ++ (l.opcode_lengths
                            ++ (directories_bytes l.directories ++ files_bytes l.files)))))))

-- The unit without its length: the size of the tail stands behind the version.
unfoldable pub unit_bytes : Bool → Layout → List ℕ
unit_bytes b l = le_bytes 2 l.version ++ (offset_bytes b (length (tail_bytes l)) ++ tail_bytes l)

pub record IsLayout (l : Layout) : Type 0 where
  pub version_from : 2 ≤ l.version
  pub version_to : l.version ≤ 4
  pub small : length (tail_bytes l) < 2 ^ 32
  pub names : All IsName l.directories
  pub entries : All IsFileLayout l.files

pub Parses-read_maximum :
    {b : Bool} {o : ℕ} (l : Layout)
    → Parses b o
        (read_maximum_operations l.version)
        (maximum_bytes l)
        (if ltb l.version 4 then 1 else l.maximum)
unfolding read_maximum_operations
Parses-read_maximum l = elim (Bool-cases (ltb l.version 4)) [
  | inl e ↦ rw e Parses-return
  | inr e ↦ rw e Parses-read_u8
]

pub Parses-check_version :
    {b : Bool} {o : ℕ} (v : ℕ) → 2 ≤ v → v ≤ 4 → Parses b o (check_version v) [] tt
unfolding check_version
Parses-check_version v from to = rw (le→ltb v 2 from, le→ltb 4 v to) Parses-return

abbrev pub program_of : List ℕ → ℕ → Layout → Reader → Program
program_of compilation_directory size l reader = record {
  compilation_directory = compilation_directory;
  reader = reader;
  header_length = size;
  version = l.version;
  minimum_instruction_length = l.minimum;
  maximum_operations_per_instruction = if ltb l.version 4 then 1 else l.maximum;
  default_is_stmt = not (l.is_stmt == 0);
  line_base = l.line_base;
  line_range = l.line_range;
  opcode_base = opcode_base_of l;
  include_directories = l.directories;
  files = map entry_of l.files;
}

pub Parses-then_end :
    {A B : Type 0} {b : Bool} {o : ℕ} {m : M A} {bs : List ℕ} {a : A} {c : B} (f : A → M B)
    → Parses b o m bs a
    → Parses b (o + length bs) (f a) [] c
    → Parses b o (m >>= f) bs c
Parses-then_end {b = b} {o = o} {m = m} {bs = bs} {c = c} f p q =
    subst (λ cs. Parses b o (m >>= f) cs c) (append-nil bs) (Parses-and_then f p q)

equal : (m n : ℕ) → m ≡ n → (m == n) ≡ true
equal m n e = ground arith

pub Parses-check_header_length :
    {b : Bool} {o : ℕ} (size there : ℕ)
    → size ≡ there
    → Parses b o (check_header_length size there) [] tt
unfolding check_header_length
Parses-check_header_length size there e = rw (equal size there e) Parses-return

pub Parses-lengths :
    {b : Bool} {o : ℕ} (l : Layout)
    → Parses b o (read_opcode_lengths (opcode_base_of l - 1)) l.opcode_lengths tt
Parses-lengths {b = b} {o = o} l =
    let e : length l.opcode_lengths ≡ opcode_base_of l - 1 = omega arith in
    subst (λ n. Parses b o (read_opcode_lengths n) l.opcode_lengths tt) e
      (Parses-opcode_lengths l.opcode_lengths o)

-- From the length of the maximum to the files.
abbrev pub after_maximum : Layout → List ℕ
after_maximum l =
    (l.is_stmt ∷ [])
    ++ ((l.line_base ∷ [])
        ++ ((l.line_range ∷ [])
            ++ ((opcode_base_of l ∷ [])
                ++ (l.opcode_lengths ++ (directories_bytes l.directories ++ files_bytes l.files)))))

pub Parses-read_tail :
    {b : Bool} {o : ℕ} (fuel : ℕ) (cd : List ℕ) (l : Layout) (size : ℕ)
    → IsLayout l
    → length l.directories < fuel
    → length l.files < fuel
    → size ≡ o + length (tail_bytes l)
    → Parses b o (read_tail fuel cd l.version size) (tail_bytes l) (program_of cd size l)
unfolding read_tail tail_bytes
Parses-read_tail fuel cd l size i dirs files at =
    Parses-and_then {bs = l.minimum ∷ []} _ Parses-read_u8 (
      Parses-and_then {bs = maximum_bytes l} _ (Parses-read_maximum l) (
        Parses-and_then {bs = l.is_stmt ∷ []} _ Parses-read_u8 (
          Parses-and_then {bs = l.line_base ∷ []} _ Parses-read_s8 (
            Parses-and_then {bs = l.line_range ∷ []} _ Parses-read_u8 (
              Parses-and_then {bs = opcode_base_of l ∷ []} _ Parses-read_u8 (
                Parses-and_then {bs = l.opcode_lengths} _ (Parses-lengths l) (
                  Parses-and_then _ (Parses-directories fuel l.directories _ i.names dirs) (
                    Parses-then_end _ (Parses-files fuel l.files _ i.entries files) (
                      Parses-and_then {bs = []} _ Parses-get_offset (
                        Parses-map _ (
                          Parses-check_header_length size _ (
                            omega (
                              arith,
                              at,
                              length-append (maximum_bytes l) (after_maximum l),
                              length-append l.opcode_lengths
                                  (directories_bytes l.directories ++ files_bytes l.files),
                              length-append (directories_bytes l.directories) (files_bytes l.files),
                            )))))))))))))

offset_size : (b : Bool) (v : ℕ) → length (offset_bytes b v) ≡ (if b then 8 else 4)
offset_size true v = length-le_bytes 8 v
offset_size false v = length-le_bytes 4 v

width : (b : Bool) → (if b then 8 else 4) ≤ 8
width b = ground arith

pub length-unit_bytes :
    (b : Bool) (l : Layout)
    → length (unit_bytes b l) ≡ 2 + (if b then 8 else 4) + length (tail_bytes l)
unfolding unit_bytes
length-unit_bytes b l = omega (
  arith,
  length-append (le_bytes 2 l.version) (offset_bytes b (length (tail_bytes l)) ++ tail_bytes l),
  length-append (offset_bytes b (length (tail_bytes l))) (tail_bytes l),
  length-le_bytes 2 l.version,
  offset_size b (length (tail_bytes l)),
)

pub Parses-read_fields :
    {b : Bool} (fuel : ℕ) (cd : List ℕ) (l : Layout)
    → IsLayout l
    → length l.directories < fuel
    → length l.files < fuel
    → Parses b 0 (read_fields fuel cd) (unit_bytes b l) (program_of cd (length (unit_bytes b l)) l)
unfolding read_fields unit_bytes
Parses-read_fields {b = b} fuel cd l i dirs files =
    subst (λ size. Parses b 0 (read_fields fuel cd) (unit_bytes b l) (program_of cd size l))
      (omega
        (arith, i.small, length-unit_bytes b l, offset_size b (length (tail_bytes l)), width b))
      (Parses-and_then _ (Parses-read_u16 (omega (arith, i.version_to))) (
        Parses-and_then {bs = []} _ (Parses-check_version l.version i.version_from i.version_to) (
          Parses-and_then _ (Parses-read_offset i.small) (
            Parses-and_then {bs = []} _ Parses-get_offset (
              Parses-read_tail fuel cd l _ i dirs files
                (omega (arith, i.small, offset_size b (length (tail_bytes l)), width b)))))))
