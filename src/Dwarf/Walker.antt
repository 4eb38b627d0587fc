-- ===== src/Dwarf/Walker.antt =====
-- np/spiegel/dwarf/walker.hxx and walker.cxx: `walker_t`, which goes through the entries of a unit.
-- `fatal` ends the process. EOF, which `skip_attributes` returns, is RE_EOF. The debug log is left
-- out. The moves are in Walker/Moves.
pub mod Skipping
pub mod Moves
use novaprova.Prelude.{
  ℕ, zero, suc, ◌-◌, Bool, true, false, ◌&&◌, ◌||◌, not, Option, none, some, List, [], ◌∷◌, ◌==◌,
  if◌then◌else◌,
}
use novaprova.Dwarf.Reader.{
  Reader, M, ◌>>=◌, ◌>>◌, return, refuse, read_u8, read_u16, read_u32, read_u64, read_uleb128,
  read_sleb128, read_addr, read_offset, read_string, read_bytes, skip_u8, skip_u16, skip_u32,
  skip_u64, skip_uleb128, skip_sleb128, skip_addr, skip_offset, skip_string, skip_bytes,
}
use novaprova.Dwarf.Abbrev.{AttrSpec, Abbrev}
use novaprova.Dwarf.Entry.{
  Entry, Value, string, sint32, uint32, uint64, bytes, ref, Reference, to_unit, to_link_object,
  setup, partial_setup, add_attribute,
}

-- What the walker uses of the unit: its version, its abbreviations, and the section of strings.
pub record UnitView : Type 0 where
  pub version : ℕ
  pub get_abbrev : ℕ → Option Abbrev
  pub offset_as_string : ℕ → Option (List ℕ)

abbrev pub cu_ref : ℕ → Value
cu_ref off = ref (record { resolver = to_unit; offset = off })

abbrev pub block : M ℕ → M Value
block read_len = do len ← read_len; v ← read_bytes len; return (bytes v)

abbrev pub to_value : (ℕ → Value) → M ℕ → M Value
to_value f m = m >>= λ v. return (f v)

abbrev pub string_value : Option (List ℕ) → M Value
string_value none = refuse
string_value (some v) = return (string v)

-- The case of `read_attributes` for a form, none where there is no case.
unfoldable pub read_form : UnitView → ℕ → Option (M Value)
read_form cu form =
    if form == 0x0b
    then some (to_value uint32 read_u8)
    else if form == 0x05
    then some (to_value uint32 read_u16)
    else if form == 0x06
    then some (to_value uint32 read_u32)
    else if form == 0x07
    then some (to_value uint64 read_u64)
    else if form == 0x0f
    then some (to_value uint32 read_uleb128)
    else if form == 0x0d
    then some (to_value sint32 read_sleb128)
    else if form == 0x01
    then some (to_value uint64 read_addr)
    else if form == 0x0c
    then some (to_value uint32 read_u8)
    else if form == 0x11
    then some (to_value cu_ref read_u8)
    else if form == 0x12
    then some (to_value cu_ref read_u16)
    else if form == 0x13
    then some (to_value cu_ref read_u32)
    else if form == 0x14
    then some (to_value cu_ref read_u64)
    else if form == 0x10
    then some
        (to_value (λ off. ref (record { resolver = to_link_object; offset = off })) read_offset)
    else if form == 0x08
    then some (read_string >>= λ v. return (string v))
    else if form == 0x0e
    then some (do
      off ← (if cu.version == 2 then read_u32 else read_offset)
      string_value (cu.offset_as_string off))
    else if form == 0x0a
    then some (block read_u8)
    else if form == 0x03
    then some (block read_u16)
    else if form == 0x04
    then some (block read_u32)
    else if form == 0x09 || form == 0x18
    then some (block read_uleb128)
    else if form == 0x17
    then some (to_value uint64 read_offset)
    else if form == 0x19
    then some (return (uint32 1))
    else if form == 0x20
    then some (to_value uint64 read_u64)
    else none

-- A skip whose result is not looked at.
abbrev pub anyway : M (Unit {0}) → M (Unit {0})
anyway m r = (some tt, (m r).1)

-- The case of `skip_attributes`.
unfoldable pub skip_form : UnitView → ℕ → Option (M (Unit {0}))
skip_form cu form =
    if form == 0x0b
    then some skip_u8
    else if form == 0x05
    then some skip_u16
    else if form == 0x06
    then some skip_u32
    else if form == 0x07
    then some skip_u64
    else if form == 0x0f
    then some skip_uleb128
    else if form == 0x0d
    then some skip_sleb128
    else if form == 0x01
    then some skip_addr
    else if form == 0x0c
    then some skip_u8
    else if form == 0x11
    then some skip_u8
    else if form == 0x12
    then some skip_u16
    else if form == 0x13
    then some skip_u32
    else if form == 0x14
    then some skip_u64
    else if form == 0x10
    then some skip_offset
    else if form == 0x08
    then some skip_string
    else if form == 0x0e
    then some (if cu.version == 2 then skip_u32 else skip_offset)
    else if form == 0x0a
    then some (read_u8 >>= skip_bytes)
    else if form == 0x03
    then some (read_u16 >>= skip_bytes)
    else if form == 0x04
    then some (read_u32 >>= skip_bytes)
    else if form == 0x09 || form == 0x18
    then some (read_uleb128 >>= skip_bytes)
    else if form == 0x17
    then some (anyway skip_offset)
    else if form == 0x19
    then some (return tt)
    else if form == 0x20
    then some (anyway skip_u64)
    else none

-- What `read_entry` and the functions that it calls return.
pub data Answer : Type 0 where
  eof eol ok filtered : Answer

-- The entry and the reader afterwards, or the end of the process.
pub data Walked : Type 0 where
  fatal : Walked
  gives : Answer → Entry → Reader → Walked

abbrev pub with_value : Option Value × Reader → Entry → ℕ → (Entry → Reader → Walked) → Walked
with_value (none, r) e name go = gives eof e r
with_value (some v, r) e name go = go (add_attribute name v e) r

unfoldable pub read_attributes : UnitView → List AttrSpec → Entry → Reader → Walked
read_attributes cu [] e r = gives ok e r
read_attributes cu (s ∷ specs) e r = elim (read_form cu s.form) [
  | none ↦ fatal
  | some m ↦ with_value (m r) e s.name (read_attributes cu specs)
]

abbrev pub when_skipped : Option (Unit {0}) × Reader → Entry → (Reader → Walked) → Walked
when_skipped (none, r) e go = gives eof e r
when_skipped (some u, r) e go = go r

unfoldable pub skip_attributes : UnitView → List AttrSpec → Entry → Reader → Walked
skip_attributes cu [] e r = gives ok e r
skip_attributes cu (s ∷ specs) e r = elim (skip_form cu s.form) [
  | none ↦ fatal
  | some m ↦ when_skipped (m r) e (skip_attributes cu specs e)
]

pub record Walker : Type 0 where
  pub reader : Reader
  pub entry : Entry
  pub level : ℕ
  pub filter_tag : ℕ

-- A call of `read_entry`: what it returns, and the walker.
pub data Entered : Type 0 where
  dies : Entered
  enters : Answer → Walker → Entered

-- RE_OK from `skip_attributes` becomes RE_FILTERED.
abbrev pub as_filtered : Answer → Answer
as_filtered ok = filtered
as_filtered eof = eof
as_filtered eol = eol
as_filtered filtered = filtered

abbrev pub enter_with : (Answer → Answer) → Abbrev → Walker → Walked → Entered
enter_with f a w fatal = dies
enter_with f a w (gives answer e r) =
    enters (f answer)
      (record w { reader = r; entry = e; level = if a.children == 0 then w.level else suc w.level })

unfoldable pub enter_abbrev : UnitView → ℕ → Option Abbrev → Walker → Entered
unfolding setup partial_setup
enter_abbrev cu offset none w = dies
enter_abbrev cu offset (some a) w =
    if not (w.filter_tag == 0) && not (a.tag == w.filter_tag)
    then enter_with as_filtered a w
        (skip_attributes cu a.attr_specs (partial_setup offset w.level (some a) w.entry) w.reader)
    else enter_with (λ answer. answer) a w
        (read_attributes cu a.attr_specs (setup offset w.level a w.entry) w.reader)

-- The code 0 ends a list of siblings.
abbrev pub end_list : Walker → Entered
end_list w = elim w.level [
  | zero ↦ enters eof w
  | suc level ↦ enters eol (record w { level = level })
]

abbrev pub with_code : UnitView → ℕ → Walker → Option ℕ × Reader → Entered
with_code cu offset w (none, r) = enters eof (record w { reader = r })
with_code cu offset w (some zero, r) = end_list (record w { reader = r })
with_code cu offset w (some (suc c), r) =
    enter_abbrev cu offset (cu.get_abbrev (suc c)) (record w { reader = r })

unfoldable pub read_entry : UnitView → Walker → Entered
unfolding enter_abbrev
read_entry cu w = with_code cu w.reader.offset w (read_uleb128 w.reader)
