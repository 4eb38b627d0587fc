-- ===== src/Util/FileName.antt =====
-- np/util/filename.hxx and filename.cxx: `filename_t`, a path as a string of bytes. `getcwd` is a
-- parameter. An exception of `std::string` or a failed `assert` is none.
pub mod Push
pub mod Absolute
use novaprova.Prelude.{
  ℕ, zero, suc, ◌+◌, ◌-◌, ◌≤◌, ◌≡◌, ◌≢◌, ◌⊎◌, inl, inr, refl, sym, ap, ◌∙◌, subst, Bool, true,
  false, Option, none, some, List, [], ◌∷◌, ◌++◌, append-nil, append_assoc, arith, ◌==◌, ltb, not,
  ◌&&◌, ◌||◌, if◌then◌else◌, length, take, drop, length-append, drop-append_length,
  take-append_length, Bool-cases,
}
use novaprova.Util.Tok.{init, parts, is_sep}

abbrev pub slash : ℕ
slash = 47

abbrev pub dot : List ℕ
dot = 46 ∷ []

abbrev pub dot_dot : List ℕ
dot_dot = 46 ∷ 46 ∷ []

unfoldable pub same : List ℕ → List ℕ → Bool
same [] [] = true
same [] (d ∷ ds) = false
same (c ∷ cs) [] = false
same (c ∷ cs) (d ∷ ds) = c == d && same cs ds

-- `find_last_of('/')`.
unfoldable pub find_last_slash : List ℕ → Option ℕ
find_last_slash [] = none
find_last_slash (c ∷ s) = elim (find_last_slash s) [
  | none ↦ if c == slash then some 0 else none
  | some i ↦ some (suc i)
]

abbrev pub is_absolute : List ℕ → Bool
is_absolute [] = false
is_absolute (c ∷ s) = c == slash

abbrev pub last_is_slash : List ℕ → Bool
last_is_slash [] = false
last_is_slash (c ∷ []) = c == slash
last_is_slash (c ∷ d ∷ s) = last_is_slash (d ∷ s)

-- Does `file` stand at the end of `path`, as the whole of it or behind a slash?
unfoldable pub is_path_tail : List ℕ → List ℕ → Bool
is_path_tail path file =
    let difflen = length path - length file in
    if ltb (length path) (length file)
    then false
    else same (drop difflen path) file && (difflen == 0 || last_is_slash (take difflen path))

unfoldable pub basename : List ℕ → List ℕ
basename path = elim (find_last_slash path) [ none ↦ path | some tail ↦ drop (suc tail) path ]

unfoldable pub pop_back : List ℕ → List ℕ
pop_back path = elim (find_last_slash path) [
  | none ↦ path
  | some p ↦ take (if p == 0 then 1 else p) path
]

-- `at` of an empty string throws.
unfoldable pub push_back : List ℕ → List ℕ → Option (List ℕ)
push_back [] s = none
push_back (c ∷ path) s =
    if last_is_slash (c ∷ path) then some ((c ∷ path) ++ s) else some ((c ∷ path) ++ slash ∷ s)

abbrev pub path_parts : List ℕ → List (List ℕ)
path_parts path = parts (suc (suc (length path))) (init (some path) (some (slash ∷ [])))

-- `resize` to `npos` throws.
abbrev pub pop_part : List ℕ → Option (List ℕ)
pop_part abs = elim (find_last_slash abs) [
  | none ↦ none
  | some p ↦ if p == 0 then some abs else some (take p abs)
]

abbrev pub add_part : List ℕ → List ℕ → List ℕ
add_part abs part = (if ltb 1 (length abs) then abs ++ slash ∷ [] else abs) ++ part

abbrev pub append_part : List ℕ → List ℕ → Option (List ℕ)
append_part abs part =
    if same part dot
    then some abs
    else if same part dot_dot
    then pop_part abs
    else some (add_part abs part)

unfoldable pub append_parts : List ℕ → List (List ℕ) → Option (List ℕ)
append_parts abs [] = some abs
append_parts abs (part ∷ rest) = elim (append_part abs part) [
  | none ↦ none
  | some next ↦ append_parts next rest
]

abbrev pub beside_file : List ℕ → List ℕ → Option (List ℕ)
beside_file path absfile =
    if is_path_tail absfile path then some absfile else elim (find_last_slash absfile) [
      | none ↦ none
      | some t ↦ append_parts (take t absfile) (path_parts path)
    ]

unfoldable pub make_absolute_to : List ℕ → List ℕ → List ℕ → Bool → Option (List ℕ)
make_absolute_to current_dir path absfile isdir =
    if is_absolute path
    then append_parts (slash ∷ []) (path_parts path)
    else if ltb 0 (length absfile)
    then if isdir then append_parts absfile (path_parts path) else beside_file path absfile
    else append_parts current_dir (path_parts path)

abbrev pub make_absolute : List ℕ → List ℕ → Option (List ℕ)
make_absolute current_dir path = make_absolute_to current_dir path [] false

abbrev pub make_absolute_to_file : List ℕ → List ℕ → List ℕ → Option (List ℕ)
make_absolute_to_file current_dir path absfile = make_absolute_to current_dir path absfile false

abbrev pub make_absolute_to_dir : List ℕ → List ℕ → List ℕ → Option (List ℕ)
make_absolute_to_dir current_dir path absdir = make_absolute_to current_dir path absdir true

pub record UpDown : Type 0 where
  pub up : List ℕ
  pub down : List ℕ

abbrev pub pop_down : Bool → UpDown → UpDown
pop_down is_abs t = elim (find_last_slash t.down) [
  | some i ↦ record t { down = take i t.down }
  | none ↦
      if ltb 0 (length t.down)
      then record t { down = [] }
      else if is_abs
      then t
      else record t { up = t.up ++ (46 ∷ 46 ∷ slash ∷ []) }
]

abbrev pub normalise_part : Bool → UpDown → List ℕ → UpDown
normalise_part is_abs t part =
    if same part dot
    then t
    else if same part dot_dot
    then pop_down is_abs t
    else record t { down = add_part t.down part }

unfoldable pub normalise_parts : Bool → UpDown → List (List ℕ) → UpDown
normalise_parts is_abs t [] = t
normalise_parts is_abs t (part ∷ rest) = normalise_parts is_abs (normalise_part is_abs t part) rest

abbrev pub up_down : UpDown → List ℕ
up_down t = if length t.down == 0 && length t.up == 0 then dot else t.up ++ t.down

unfoldable pub normalise : List ℕ → List ℕ
normalise path =
    let is_abs = is_absolute path in
    up_down (
      normalise_parts is_abs (record { up = if is_abs then slash ∷ [] else []; down = [] })
        (path_parts path))
