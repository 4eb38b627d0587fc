-- ===== src/Tests/Units.antt =====
-- Inputs for Dwarf: np/spiegel/dwarf/compile_unit.cxx and abbrev.cxx.
use novaprova.Prelude.{
  List, ℕ, ◌≡◌, refl, false, some, none, [], ◌∷◌, ◌++◌, arith, length, ◌^◌, ◌-◌,
}
use novaprova.Prelude.Bytes.{le_bytes}
use novaprova.Dwarf.Reader.{
  read_string, find_nul, read_u8, Reader, advance, read_initial_length, read_u16, read_u32,
  read_u64, check_length, skip,
}
use novaprova.Dwarf.Reader.Leb.{group_bytes, group_value}
use novaprova.Dwarf.LineProgram.Parsing.{Leb, IsLeb}
use novaprova.Dwarf.Abbrev.{Abbrevs, read_abbrevs, loaded, get_abbrev}
use novaprova.Dwarf.Abbrev.Layout.{AbbrevLayout, IsAbbrev, IsSpec, SpecLayout, table_bytes}
use novaprova.Dwarf.Abbrev.Table.{last_with, read_abbrevs-table_bytes}
use novaprova.Dwarf.Abbrev.{AttrSpec}
use novaprova.Dwarf.Entry.{add_attribute, Entry, new_entry, string, uint32}
use novaprova.Dwarf.Walker.{read_form, UnitView, read_attributes, skip_attributes, gives, ok}
use novaprova.Dwarf.Walker.Skipping.{skip_attributes-read_attributes}
use novaprova.Dwarf.CompileUnit.{read_header, answers, fatal}
use novaprova.Dwarf.CompileUnit.Header.{
  Layout, IsLayout, unit_bytes, unit_of, read_header-unit_bytes_32,
}

abbrev leb : ℕ → Leb
leb n = record { head = n; tail = [] }

leb_17-IsLeb : IsLeb (leb 17)
unfolding group_value
leb_17-IsLeb = record {
  head_group = omega arith;
  tail_groups = tt;
  short = omega arith;
  fits = omega arith;
}

leb_1-IsLeb : IsLeb (leb 1)
unfolding group_value
leb_1-IsLeb = record {
  head_group = omega arith;
  tail_groups = tt;
  short = omega arith;
  fits = omega arith;
}

abbrev name_spec : SpecLayout
name_spec = record { name = leb 17; form = leb 1 }

name_spec-IsSpec : IsSpec name_spec
unfolding group_value
name_spec-IsSpec = record { has_name = leb_17-IsLeb; has_form = leb_1-IsLeb; goes_on = refl }

abbrev compile_unit_abbrev : AbbrevLayout
compile_unit_abbrev = record { code = leb 1; tag = leb 17; children = 1; specs = name_spec ∷ [] }

compile_unit_abbrev-IsAbbrev : IsAbbrev compile_unit_abbrev
unfolding group_value
compile_unit_abbrev-IsAbbrev = record {
  has_code = leb_1-IsLeb;
  not_zero = omega arith;
  not_highest = omega arith;
  has_tag = leb_17-IsLeb;
  has_specs = (name_spec-IsSpec, tt);
}

abbrev abbrevs_section : Reader
abbrevs_section = record {
  base = 4096;
  bytes = 99 ∷ 1 ∷ 17 ∷ 1 ∷ 17 ∷ 1 ∷ 0 ∷ 0 ∷ 0 ∷ 7 ∷ [];
  offset = 0;
  is64 = false;
}

read_abbrevs-table_bytes_example :
    (t : Abbrevs) × (read_abbrevs 1 abbrevs_section ≡ loaded t)
    × ((code : ℕ) → get_abbrev code t ≡ last_with code (compile_unit_abbrev ∷ []) none)
unfolding table_bytes group_bytes
read_abbrevs-table_bytes_example =
    read_abbrevs-table_bytes (compile_unit_abbrev ∷ []) abbrevs_section 1 (7 ∷ [])
      (compile_unit_abbrev-IsAbbrev, tt) (omega arith) refl

abbrev layout : Layout
layout = record { version = 4; abbrevs_offset = 1; entries = 1 ∷ 0 ∷ [] }

layout-IsLayout : IsLayout layout
layout-IsLayout = record {
  old_enough = omega arith;
  new_enough = omega arith;
  offset_fits = omega arith;
  length_fits = omega arith;
}

abbrev info_section : Reader
info_section = record { base = 4096; bytes = unit_bytes layout ++ 5 ∷ []; offset = 0; is64 = false }

read_header-unit_bytes_32_example :
    read_header info_section
    ≡ answers
        (some (unit_of layout info_section), advance (length (unit_bytes layout)) info_section)
read_header-unit_bytes_32_example =
    read_header-unit_bytes_32 layout info_section (5 ∷ []) layout-IsLayout refl

-- The same unit in the 64-bit format.
abbrev wide_section : Reader
wide_section = record {
  base = 4096;
  bytes = le_bytes 4 0xffffffff ++ (le_bytes 8 9 ++ (4 ∷ 0 ∷ 1 ∷ 0 ∷ 0 ∷ 0 ∷ 8 ∷ 1 ∷ 0 ∷ []));
  offset = 0;
  is64 = false;
}

-- Its least length is 11 - 14 in 32 unsigned bits, which it has not.
wide_refused : read_header wide_section ≡ fatal
unfolding read_header read_initial_length read_u32 check_length read_u64 read_u16
wide_refused = refl

-- A unit of 9 bytes, shorter than its header: the outer reader goes back to where the unit ends.
abbrev short_section : Reader
short_section = record {
  base = 4096;
  bytes = le_bytes 4 5 ++ (4 ∷ 0 ∷ 1 ∷ 0 ∷ 0 ∷ 0 ∷ 8 ∷ []);
  offset = 0;
  is64 = false;
}

short_skips : skip (2 ^ 64 - 2) (advance 11 short_section) ≡ (some tt, advance 9 short_section)
unfolding skip
short_skips = refl

abbrev cu : UnitView
cu = record { version = 4; get_abbrev = λ code. none; offset_as_string = λ off. none }

abbrev two_specs : List AttrSpec
two_specs = record { name = 3; form = 0x08 } ∷ record { name = 0x13; form = 0x0b } ∷ []

abbrev attributes : Reader
attributes = record { base = 4096; bytes = 97 ∷ 0 ∷ 12 ∷ 5 ∷ []; offset = 0; is64 = false }

abbrev after_attributes : Entry
after_attributes = record new_entry { values = (3, string (97 ∷ [])) ∷ (0x13, uint32 12) ∷ [] }

attributes_read :
    read_attributes cu two_specs new_entry attributes
    ≡ gives ok after_attributes (advance 3 attributes)
unfolding read_attributes read_form read_string find_nul read_u8 add_attribute new_entry
attributes_read = refl

skip_attributes-read_attributes_example :
    skip_attributes cu two_specs new_entry attributes ≡ gives ok new_entry (advance 3 attributes)
skip_attributes-read_attributes_example =
    skip_attributes-read_attributes cu two_specs new_entry new_entry after_attributes attributes
      (advance 3 attributes) attributes_read
