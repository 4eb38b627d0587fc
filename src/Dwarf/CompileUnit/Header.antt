-- ===== src/Dwarf/CompileUnit/Header.antt =====
-- A compile unit as bytes, and what `read_header` reads of it.
use novaprova.Prelude.{
  ℕ, ◌+◌, ◌-◌, ◌%◌, ◌^◌, ◌≤◌, ◌<◌, ◌≡◌, refl, ap, ◌∙◌, true, false, some, List, [], ◌∷◌, ◌++◌,
  append_assoc, arith, leb, length, length-append,
}
use novaprova.Prelude.Bytes.{le_bytes, length-le_bytes}
use novaprova.Dwarf.Reader.{Reader, rest, advance, get_remains, skip, read_u16, read_u32}
use novaprova.Dwarf.Reader.Words.{read_u16-le_bytes, read_u32-le_bytes}
use novaprova.Dwarf.LineProgram.Parsing.{Parses-read_u8, rest-advance}
use novaprova.Dwarf.LineProgram.Unit.{
  read_initial_length-32, initial_subset-unit, get_remains-append,
}
use novaprova.Dwarf.CompileUnit.{
  CompileUnit, answers, read_header, finish, with_length, with_version, with_abbrevs_offset,
  with_addrsize,
}

-- A unit in the 32-bit format: its length, its version, the offset of its abbreviations, the size of
-- an address, and the entries.
pub record Layout : Type 0 where
  pub version : ℕ
  pub abbrevs_offset : ℕ
  pub entries : List ℕ

pub record IsLayout (l : Layout) : Type 0 where
  pub old_enough : l.version ≤ 4
  pub new_enough : 2 ≤ l.version
  pub offset_fits : l.abbrevs_offset < 2 ^ 32
  pub length_fits : 7 + length l.entries < 0xfffffff0

abbrev pub behind_length : Layout → List ℕ
behind_length l = le_bytes 2 l.version ++ (le_bytes 4 l.abbrevs_offset ++ 8 ∷ l.entries)

abbrev pub unit_bytes : Layout → List ℕ
unit_bytes l = le_bytes 4 (7 + length l.entries) ++ behind_length l

abbrev pub unit_of : Layout → Reader → CompileUnit
unit_of l r = record {
  version = l.version;
  is64 = false;
  reader = record { base = r.base + r.offset; bytes = unit_bytes l; offset = 0; is64 = false };
  offset = r.offset;
  abbrevs_offset = l.abbrevs_offset;
}

length-behind_length : (l : Layout) → length (behind_length l) ≡ 7 + length l.entries
length-behind_length l = omega (
  arith,
  length-append (le_bytes 2 l.version) (le_bytes 4 l.abbrevs_offset ++ 8 ∷ l.entries),
  length-append (le_bytes 4 l.abbrevs_offset) (8 ∷ l.entries),
  length-le_bytes 2 l.version,
  length-le_bytes 4 l.abbrevs_offset,
)

length-unit_bytes : (l : Layout) → length (unit_bytes l) ≡ 11 + length l.entries
length-unit_bytes l = omega (
  arith,
  length-append (le_bytes 4 (7 + length l.entries)) (behind_length l),
  length-behind_length l,
  length-le_bytes 4 (7 + length l.entries),
)

skip-body :
    (l : Layout) (r : Reader) (more : List ℕ)
    → rest r ≡ unit_bytes l ++ more
    → (skip (length l.entries) (advance 11 r)).1 ≡ advance (length (unit_bytes l)) r
unfolding skip
skip-body l r more e =
    let there = get_remains-append r (unit_bytes l) more e in
    let inside : leb (r.offset + 11 + length l.entries) (length r.bytes) ≡ true =
      ground (arith, there, length-unit_bytes l) in
    rw inside (ap (λ o. record r { offset = o }) (omega (arith, length-unit_bytes l)))

-- The tests of the header, one after the other.
with_length-passes :
    (before r : Reader) (n : ℕ)
    → n ≤ get_remains r
    → with_length before (some (n, false), r) ≡ with_version before n false (read_u16 r)
with_length-passes before r n h = ground (arith, h)

with_version-passes :
    (before r : Reader) (n v : ℕ)
    → 2 ≤ v
    → v ≤ 4
    → 5 ≤ n
    → with_version before n false (some v, r)
      ≡ with_abbrevs_offset (finish before n false v) (read_u32 r)
with_version-passes before r n v a b c = ground (arith, a, b, c)

-- `finish`, at the end of the header of a whole unit.
finish-unit_bytes :
    (l : Layout) (r : Reader) (more : List ℕ)
    → IsLayout l
    → rest r ≡ unit_bytes l ++ more
    → finish r (7 + length l.entries) false l.version l.abbrevs_offset (advance 11 r)
      ≡ answers (some (unit_of l r), advance (length (unit_bytes l)) r)
unfolding finish
finish-unit_bytes l r more h e =
    let whole : (7 + length l.entries + 4) % 2 ^ 64 ≡ length (unit_bytes l) =
      omega (arith, h.length_fits, length-unit_bytes l) in
    let body : (length (unit_bytes l) + (2 ^ 64 - 11)) % 2 ^ 64 ≡ length l.entries =
      omega (arith, h.length_fits, length-unit_bytes l) in
    let subset = initial_subset-unit (record r { is64 = false }) (unit_bytes l) more e in
    rw (whole, body, subset, skip-body l r more e) refl

-- On a section that holds a unit in the 32-bit format, `read_header` reads all fields; the unit's own
-- reader has the bytes of the unit and no others, and the outer reader is left behind the unit.
pub read_header-unit_bytes_32 :
    (l : Layout) (r : Reader) (more : List ℕ)
    → IsLayout l
    → rest r ≡ unit_bytes l ++ more
    → read_header r ≡ answers (some (unit_of l r), advance (length (unit_bytes l)) r)
unfolding read_header
read_header-unit_bytes_32 l r more h e =
    let n = 7 + length l.entries in
    let e0 : rest r ≡ le_bytes 4 n ++ (behind_length l ++ more) =
      e ∙ append_assoc (le_bytes 4 n) (behind_length l) more in
    let r1 = advance 4 r in
    let e1 : rest r1
        ≡ le_bytes 2 l.version ++ (le_bytes 4 l.abbrevs_offset ++ (8 ∷ (l.entries ++ more))) =
      rest-advance r (le_bytes 4 n) (behind_length l ++ more) e0
      ∙ append_assoc (le_bytes 2 l.version) (le_bytes 4 l.abbrevs_offset ++ 8 ∷ l.entries) more
      ∙ ap (λ x. le_bytes 2 l.version ++ x)
          (append_assoc (le_bytes 4 l.abbrevs_offset) (8 ∷ l.entries) more) in
    let r2 = advance 2 r1 in
    let e2 : rest r2 ≡ le_bytes 4 l.abbrevs_offset ++ (8 ∷ (l.entries ++ more)) =
      rest-advance r1 (le_bytes 2 l.version) _ e1 in
    let r3 = advance 4 r2 in
    let e3 : rest r3 ≡ (8 ∷ []) ++ (l.entries ++ more) =
      rest-advance r2 (le_bytes 4 l.abbrevs_offset) _ e2 in
    let there : n ≤ get_remains r1 = omega (
      arith,
      get_remains-append r1 (behind_length l) more
          (rest-advance r (le_bytes 4 n) (behind_length l ++ more) e0),
      length-behind_length l,
    ) in
    let at_body : advance 1 r3 ≡ advance 11 r = ap (λ o. record r { offset = o }) (omega arith) in
    ap (with_length r)
      (read_initial_length-32 r n (behind_length l ++ more) (omega (arith, h.length_fits)) e0)
    ∙ with_length-passes r r1 n there
    ∙ ap (with_version r n false)
        (read_u16-le_bytes r1 l.version _ (omega (arith, h.old_enough)) e1)
    ∙ with_version-passes r r2 n l.version h.new_enough h.old_enough (omega arith)
    ∙ ap (with_abbrevs_offset (finish r n false l.version))
        (read_u32-le_bytes r2 l.abbrevs_offset _ h.offset_fits e2)
    ∙ ap (with_addrsize (finish r n false l.version l.abbrevs_offset))
        ((Parses-read_u8 {b = r3.is64} {o = r3.offset}).parses r3 (l.entries ++ more) refl refl e3)
    ∙ ap (finish r n false l.version l.abbrevs_offset) at_body
    ∙ finish-unit_bytes l r more h e
