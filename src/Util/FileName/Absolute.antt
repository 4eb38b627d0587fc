-- ===== src/Util/FileName/Absolute.antt =====
-- `make_absolute` and `make_absolute_to_dir` give absolute paths.
use novaprova.Prelude.{
  ℕ, zero, suc, ◌≡◌, ◌≢◌, inl, inr, refl, Bool, true, false, Option, none, some, List, [], ◌∷◌,
  arith, ◌==◌, if◌then◌else◌, take, Option-cases,
}
use novaprova.Util.FileName.{
  slash, find_last_slash, is_absolute, pop_part, add_part, append_part, append_parts, path_parts,
  make_absolute, make_absolute_to, make_absolute_to_dir,
}

-- There is a result, and it is an absolute path.
abbrev pub gives_absolute : Option (List ℕ) → Bool
gives_absolute none = false
gives_absolute (some path) = is_absolute path

find_last_slash-some : (c : ℕ) (s : List ℕ) → (c == slash) ≡ true → find_last_slash (c ∷ s) ≢ none
unfolding find_last_slash
find_last_slash-some c s h = elim (Option-cases (find_last_slash s)) [
  | inl e ↦ rw (e, h) cc
  | inr (i, e) ↦ rw e cc
]

take_or_all-absolute :
    (o : Option ℕ) (c : ℕ) (s : List ℕ)
    → (c == slash) ≡ true
    → o ≢ none
    → gives_absolute
        (elim o [ none ↦ none | some p ↦ if p == 0 then some (c ∷ s) else some (take p (c ∷ s)) ])
      ≡ true
take_or_all-absolute none c s h k = absurd (k refl)
take_or_all-absolute (some zero) c s h k = h
take_or_all-absolute (some (suc p)) c s h k = ground arith

pop_part-absolute : (abs : List ℕ) → is_absolute abs ≡ true → gives_absolute (pop_part abs) ≡ true
pop_part-absolute [] h = cc
pop_part-absolute (c ∷ s) h =
    take_or_all-absolute (find_last_slash (c ∷ s)) c s h (find_last_slash-some c s h)

add_part-absolute :
    (abs part : List ℕ) → is_absolute abs ≡ true → is_absolute (add_part abs part) ≡ true
add_part-absolute [] part h = cc
add_part-absolute (c ∷ s) part h = ground arith

append_part-absolute :
    (abs part : List ℕ) → is_absolute abs ≡ true → gives_absolute (append_part abs part) ≡ true
append_part-absolute abs part h =
    ground (arith, pop_part-absolute abs h, add_part-absolute abs part h)

parts_of-absolute :
    (o : Option (List ℕ)) (ps : List (List ℕ))
    → ((abs : List ℕ) → is_absolute abs ≡ true → gives_absolute (append_parts abs ps) ≡ true)
    → gives_absolute o ≡ true
    → gives_absolute (elim o [ none ↦ none | some next ↦ append_parts next ps ]) ≡ true
parts_of-absolute none ps onward h = h
parts_of-absolute (some next) ps onward h = onward next h

append_parts-absolute :
    (ps : List (List ℕ)) (abs : List ℕ)
    → is_absolute abs ≡ true
    → gives_absolute (append_parts abs ps) ≡ true
unfolding append_parts
append_parts-absolute [] abs h = h
append_parts-absolute (p ∷ ps) abs h =
    parts_of-absolute (append_part abs p) ps (append_parts-absolute ps)
      (append_part-absolute abs p h)

-- Relative to an absolute directory, every path has an absolute form: no `..` takes more off than
-- there is, and nothing throws.
pub make_absolute_to_dir-absolute :
    (current_dir path absdir : List ℕ)
    → is_absolute absdir ≡ true
    → gives_absolute (make_absolute_to_dir current_dir path absdir) ≡ true
unfolding make_absolute_to
make_absolute_to_dir-absolute current_dir path [] h = cc
make_absolute_to_dir-absolute current_dir path (c ∷ dir) h = ground (
  arith,
  append_parts-absolute (path_parts path) (slash ∷ []) refl,
  append_parts-absolute (path_parts path) (c ∷ dir) h,
)

-- The same with an absolute working directory, for `make_absolute`.
pub make_absolute-absolute :
    (current_dir path : List ℕ)
    → is_absolute current_dir ≡ true
    → gives_absolute (make_absolute current_dir path) ≡ true
unfolding make_absolute_to
make_absolute-absolute current_dir path h = ground (
  arith,
  append_parts-absolute (path_parts path) (slash ∷ []) refl,
  append_parts-absolute (path_parts path) current_dir h,
)
