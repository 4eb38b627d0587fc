-- ===== src/Dwarf/LineProgram/Tables.antt =====
-- The two tables of a line program's header as bytes, which `read_directories` and `read_files` read.
use novaprova.Prelude.{
  ℕ, zero, suc, ◌<◌, ◌≡◌, ◌≢◌, refl, Bool, some, List, [], ◌∷◌, ◌++◌, append_assoc, arith, length,
  length-append, take-append_length, map, All,
}
use novaprova.Dwarf.Reader.{M, read_string, find_nul}
use novaprova.Dwarf.LineProgram.{FileEntry}
use novaprova.Dwarf.LineProgram.Header.{
  read_opcode_lengths, read_directories, read_entry, read_files, when_empty,
}
use novaprova.Dwarf.LineProgram.Parsing.{
  IsLeb, Leb, Parses, Parses-and_then, Parses-map, Parses-read_u8, Parses-read_uleb128,
  Parses-return, leb_bytes, leb_value,
}

-- A text without a NUL inside, and not empty.
pub record IsName (v : List ℕ) : Type 0 where
  pub no_nul : All (λ c. c ≢ 0) v
  pub not_empty : v ≢ []

abbrev pub string_bytes : List ℕ → List ℕ
string_bytes v = v ++ 0 ∷ []

pub find_nul-text :
    (v more : List ℕ) → All (λ c. c ≢ 0) v → find_nul (string_bytes v ++ more) ≡ some (length v)
unfolding find_nul
find_nul-text [] more h = refl
find_nul-text (c ∷ v) more (h, hs) = rw (find_nul-text v more hs) (ground (arith, h))

pub Parses-read_string :
    {b : Bool} {o : ℕ} {v : List ℕ} → All (λ c. c ≢ 0) v → Parses b o read_string (string_bytes v) v
unfolding read_string
Parses-read_string {v = v} no_nul = record {
  parses = λ r more mode at h.
      rw (read_string, h, find_nul-text v more no_nul)
        (rw (
          h,
          append_assoc v (0 ∷ []) more,
          take-append_length v (0 ∷ more),
          length-append v (0 ∷ []),
        ));
}

pub Parses-when_name :
    {A : Type 0} {b : Bool} {o : ℕ} {m : M A} {bs : List ℕ} {a : A} (stop : M A) (v : List ℕ)
    → IsName v
    → Parses b o m bs a
    → Parses b o (when_empty v stop m) bs a
Parses-when_name stop [] name p = absurd (name.not_empty refl)
Parses-when_name stop (c ∷ v) name p = p

abbrev pub directories_bytes : List (List ℕ) → List ℕ
directories_bytes [] = 0 ∷ []
directories_bytes (v ∷ vs) = string_bytes v ++ directories_bytes vs

pub Parses-directories :
    {b : Bool} (fuel : ℕ) (vs : List (List ℕ)) (o : ℕ)
    → All IsName vs
    → length vs < fuel
    → Parses b o (read_directories fuel) (directories_bytes vs) vs
unfolding read_directories
Parses-directories zero vs o names lt = absurd (omega arith)
Parses-directories (suc fuel) [] o names lt =
    Parses-and_then _ (Parses-read_string {v = []} _) Parses-return
Parses-directories (suc fuel) (v ∷ vs) o names lt =
    Parses-and_then _ (Parses-read_string names.0.no_nul) (
      Parses-when_name _ v names.0
        (Parses-map (λ ws. v ∷ ws) (Parses-directories fuel vs _ names.1 (omega arith))))

-- A file's entry: its name, and its directory, time of change and length as LEB128 numbers.
pub record FileLayout : Type 0 where
  pub name : List ℕ
  pub directory : Leb
  pub time : Leb
  pub size : Leb

pub record IsFileLayout (f : FileLayout) : Type 0 where
  pub has_name : IsName f.name
  pub has_directory : IsLeb f.directory
  pub has_time : IsLeb f.time
  pub has_size : IsLeb f.size

abbrev pub entry_of : FileLayout → FileEntry
entry_of f = record {
  filename = f.name;
  directory_index = leb_value f.directory;
  mtime = leb_value f.time;
  length = leb_value f.size;
}

abbrev pub numbers_bytes : FileLayout → List ℕ
numbers_bytes f = leb_bytes f.directory ++ (leb_bytes f.time ++ leb_bytes f.size)

abbrev pub files_bytes : List FileLayout → List ℕ
files_bytes [] = 0 ∷ []
files_bytes (f ∷ fs) = string_bytes f.name ++ (numbers_bytes f ++ files_bytes fs)

pub Parses-entry :
    {b : Bool} {o : ℕ} (f : FileLayout)
    → IsFileLayout f
    → Parses b o (read_entry f.name) (numbers_bytes f) (entry_of f)
unfolding read_entry
Parses-entry f l = Parses-and_then _ (Parses-read_uleb128 f.directory l.has_directory) (
    Parses-and_then _ (Parses-read_uleb128 f.time l.has_time)
      (Parses-map _ (Parses-read_uleb128 f.size l.has_size)))

pub Parses-files :
    {b : Bool} (fuel : ℕ) (fs : List FileLayout) (o : ℕ)
    → All IsFileLayout fs
    → length fs < fuel
    → Parses b o (read_files fuel) (files_bytes fs) (map entry_of fs)
unfolding read_files
Parses-files zero fs o l lt = absurd (omega arith)
Parses-files (suc fuel) [] o l lt = Parses-and_then _ (Parses-read_string {v = []} _) Parses-return
Parses-files (suc fuel) (f ∷ fs) o l lt =
    Parses-and_then _ (Parses-read_string l.0.has_name.no_nul) (
      Parses-when_name _ f.name l.0.has_name (
        Parses-and_then _ (Parses-entry f l.0)
          (Parses-map (λ es. entry_of f ∷ es) (Parses-files fuel fs _ l.1 (omega arith)))))

pub Parses-opcode_lengths :
    {b : Bool} (bs : List ℕ) (o : ℕ) → Parses b o (read_opcode_lengths (length bs)) bs tt
unfolding read_opcode_lengths
Parses-opcode_lengths [] o = Parses-return
Parses-opcode_lengths (v ∷ bs) o =
    Parses-and_then {bs = v ∷ []} {cs = bs} _ Parses-read_u8 (Parses-opcode_lengths bs _)
