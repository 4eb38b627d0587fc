-- ===== src/Dwarf/CompileUnit.antt =====
-- np/spiegel/dwarf/compile_unit.hxx and compile_unit.cxx: the header of a compile unit.
-- `fatal` ends the process. A unit whose header is refused is dropped by the caller, so its
-- half-filled members are not kept. The attributes of the unit and its line number program are not
-- members here.
pub mod Header
use novaprova.Prelude.{
  ℕ, suc, ◌+◌, ◌-◌, ◌%◌, ◌^◌, Bool, ◌||◌, Option, none, some, List, ltb, ◌==◌, if◌then◌else◌, not,
  length,
}
use novaprova.Dwarf.Reader.{
  Reader, M, get_remains, initial_subset, skip, read_u8, read_u16, read_u32, read_initial_length,
}

pub record CompileUnit : Type 0 where
  pub version : ℕ
  pub is64 : Bool
  pub reader : Reader
  pub offset : ℕ
  pub abbrevs_offset : ℕ

abbrev pub header_length : ℕ
header_length = 11

abbrev pub min_dwarf_version : ℕ
min_dwarf_version = 2

abbrev pub max_dwarf_version : ℕ
max_dwarf_version = 4

-- `_NP_ADDRSIZE`
abbrev pub addrsize : ℕ
addrsize = 8

pub data Opened : Type 0 where
  fatal : Opened
  answers : Option CompileUnit × Reader → Opened

-- `(unsigned)(header_length - (is64 ? 14 : 6))`: below 0 it wraps around.
abbrev pub least_length : Bool → ℕ
least_length is64 = (2 ^ 32 + header_length - (if is64 then 14 else 6)) % 2 ^ 32

-- The unit's own reader, from the one before the header, and the outer reader behind the body.
unfoldable pub finish : Reader → ℕ → Bool → ℕ → ℕ → Reader → Opened
finish before unit_length is64 version abbrevs_offset r =
    let whole = (unit_length + (if is64 then 12 else 4)) % 2 ^ 64 in
    answers (
      some (record {
        version = version;
        is64 = is64;
        reader = initial_subset (record before { is64 = is64 }) whole;
        offset = before.offset;
        abbrevs_offset = abbrevs_offset;
      }),
      (skip ((whole + (2 ^ 64 - header_length)) % 2 ^ 64) r).1,
    )

abbrev pub with_addrsize : (Reader → Opened) → Option ℕ × Reader → Opened
with_addrsize go (none, r) = answers (none, r)
with_addrsize go (some size, r) = if size == addrsize then go r else fatal

abbrev pub with_abbrevs_offset : (ℕ → Reader → Opened) → Option ℕ × Reader → Opened
with_abbrevs_offset go (none, r) = answers (none, r)
with_abbrevs_offset go (some o, r) = with_addrsize (go o) (read_u8 r)

abbrev pub with_version : Reader → ℕ → Bool → Option ℕ × Reader → Opened
with_version before unit_length is64 (none, r) = answers (none, r)
with_version before unit_length is64 (some version, r) =
    if ltb version min_dwarf_version || ltb max_dwarf_version version
    then fatal
    else if ltb unit_length (least_length is64)
    then fatal
    else with_abbrevs_offset (finish before unit_length is64 version) (read_u32 r)

abbrev pub with_length : Reader → Option (ℕ × Bool) × Reader → Opened
with_length before (none, r) = answers (none, r)
with_length before (some (unit_length, is64), r) =
    if ltb (get_remains r) unit_length
    then fatal
    else with_version before unit_length is64 (read_u16 r)

unfoldable pub read_header : Reader → Opened
read_header r = with_length r (read_initial_length r)

unfoldable pub get_contents : CompileUnit → Reader
unfolding skip
get_contents u = (skip header_length u.reader).1
