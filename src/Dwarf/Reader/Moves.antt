-- ===== src/Dwarf/Reader/Moves.antt =====
-- How the operations of reader.hxx move the cursor: forwards, inside the section, and not at all
-- where they fail.
use novaprova.Prelude.{
  ℕ, ◌+◌, ◌^◌, ◌≤◌, ◌<◌, ◌≡◌, refl, Option, none, some, List, [], ◌∷◌, arith, length, length-drop,
  inl, inr, Option-cases,
}
use novaprova.Dwarf.Reader.{
  Reader, rest, Groups, advance, skip, read_u32, read_u64, read_uleb128, skip_uleb128, read_sleb128,
  read_u16, read_u8, read_string, skip_string, read_bytes, read_initial_length, leb_groups,
  leb_length, find_nul, add_group, next_shift,
}

-- The cursor lies in the section.
abbrev pub IsValid : Reader → Type 0
IsValid r = r.offset ≤ length r.bytes

-- `r'` is `r` moved forwards inside the same section.
pub record Moves (r r' : Reader) : Type 0 where
  pub same_bytes : r'.bytes ≡ r.bytes
  pub same_mode : r'.is64 ≡ r.is64
  pub forward : r.offset ≤ r'.offset
  pub within : r'.offset ≤ length r.bytes

pub leb_groups_count :
    (bs : List ℕ) (vv shift n : ℕ) (g : Groups)
    → leb_groups bs vv shift n ≡ some g
    → (g.count ≤ n + length bs) × (n < g.count)
unfolding leb_groups
leb_groups_count [] vv shift n g h = cc
leb_groups_count (b ∷ bs) vv shift n g h =
    ground (arith, leb_groups_count bs (add_group vv b shift) (next_shift shift) (n + 1) g)

abbrev pub counted : Option Groups → Option ℕ
counted none = none
counted (some g) = some g.count

-- Skipping passes as many bytes as reading takes.
pub leb_length-leb_groups :
    (bs : List ℕ) (vv shift n : ℕ) → leb_length bs n ≡ counted (leb_groups bs vv shift n)
unfolding leb_groups leb_length
leb_length-leb_groups [] vv shift n = refl
leb_length-leb_groups (b ∷ bs) vv shift n =
    ground (arith, leb_length-leb_groups bs (add_group vv b shift) (next_shift shift) (n + 1))

pub find_nul_bound : (bs : List ℕ) (i : ℕ) → find_nul bs ≡ some i → i < length bs
unfolding find_nul
find_nul_bound [] i h = cc
find_nul_bound (b ∷ bs) i h = elim (Option-cases (find_nul bs)) [
  | inl e ↦ ground arith
  | inr (j, e) ↦ ground (arith, find_nul_bound bs j)
]

module _ (r : Reader) where
  advance-Moves : (n : ℕ) → IsValid r → n ≤ length (rest r) → Moves r (advance n r)
  advance-Moves n v h = record {
    same_bytes = refl;
    same_mode = refl;
    forward = omega arith;
    within = omega (arith, length-drop r.offset r.bytes);
  }

  stay-Moves : IsValid r → Moves r r
  stay-Moves v = record { same_bytes = refl; same_mode = refl; forward = omega arith; within = v }

-- Every read and skip leaves the cursor in the section, at or behind where it stood.
module _ (r : Reader) (v : IsValid r) where
  pub skip-Moves : (n : ℕ) → r.base + r.offset + n < 2 ^ 64 → Moves r (skip n r).1
  unfolding skip
  skip-Moves n short = ground arith

  pub read_u8-Moves : Moves r (read_u8 r).1
  unfolding read_u8
  read_u8-Moves = ground arith

  pub read_u16-Moves : Moves r (read_u16 r).1
  unfolding read_u16
  read_u16-Moves = ground arith

  pub read_u32-Moves : Moves r (read_u32 r).1
  unfolding read_u32
  read_u32-Moves = ground arith

  pub read_u64-Moves : Moves r (read_u64 r).1
  unfolding read_u64
  read_u64-Moves = ground arith

  pub read_uleb128-Moves : Moves r (read_uleb128 r).1
  unfolding read_uleb128
  read_uleb128-Moves = elim (Option-cases (leb_groups (rest r) 0 0 0)) [
    | inl e ↦ rw (e, read_uleb128) (stay-Moves r v)
    | inr (g, e) ↦
        rw (e, read_uleb128)
          (advance-Moves r g.count v (omega (arith, leb_groups_count (rest r) 0 0 0 g e)))
  ]

  pub read_sleb128-Moves : Moves r (read_sleb128 r).1
  unfolding read_sleb128
  read_sleb128-Moves = elim (Option-cases (leb_groups (rest r) 0 0 0)) [
    | inl e ↦ rw (e, read_sleb128) (stay-Moves r v)
    | inr (g, e) ↦
        rw (e, read_sleb128)
          (advance-Moves r g.count v (omega (arith, leb_groups_count (rest r) 0 0 0 g e)))
  ]

  pub skip_uleb128-Moves : Moves r (skip_uleb128 r).1
  unfolding skip_uleb128
  skip_uleb128-Moves = elim (Option-cases (leb_groups (rest r) 0 0 0)) [
    | inl e ↦ rw (leb_length-leb_groups (rest r) 0 0 0, e, skip_uleb128) (stay-Moves r v)
    | inr (g, e) ↦
        rw (leb_length-leb_groups (rest r) 0 0 0, e, skip_uleb128)
          (advance-Moves r g.count v (omega (arith, leb_groups_count (rest r) 0 0 0 g e)))
  ]

  pub read_string-Moves : Moves r (read_string r).1
  unfolding read_string
  read_string-Moves = elim (Option-cases (find_nul (rest r))) [
    | inl e ↦ rw (e, read_string) (stay-Moves r v)
    | inr (i, e) ↦
        rw (e, read_string) (advance-Moves r (i + 1) v (omega (arith, find_nul_bound (rest r) i e)))
  ]

  pub skip_string-Moves : Moves r (skip_string r).1
  unfolding skip_string
  skip_string-Moves = elim (Option-cases (find_nul (rest r))) [
    | inl e ↦ rw (e, skip_string) (stay-Moves r v)
    | inr (i, e) ↦
        rw (e, skip_string) (advance-Moves r (i + 1) v (omega (arith, find_nul_bound (rest r) i e)))
  ]

  pub read_bytes-Moves : (len : ℕ) → r.base + r.offset + len < 2 ^ 64 → Moves r (read_bytes len r).1
  unfolding read_bytes
  read_bytes-Moves len short = ground arith

  pub read_initial_length-Moves : Moves r (read_initial_length r).1
  unfolding read_initial_length
  read_initial_length-Moves = ground arith
