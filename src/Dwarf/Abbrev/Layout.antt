-- ===== src/Dwarf/Abbrev/Layout.antt =====
-- A table of abbreviations as bytes, and the abbreviations in it.
use novaprova.Prelude.{
  ℕ, zero, suc, ◌+◌, ◌^◌, ◌<◌, ◌≡◌, Bool, false, List, [], ◌∷◌, ◌++◌, map, arith, ◌==◌, ◌&&◌,
  length, length-append, All,
}
use novaprova.Dwarf.Reader.{read_uleb128}
use novaprova.Dwarf.Reader.Leb.{group_bytes, group_value}
use novaprova.Dwarf.LineProgram.Parsing.{
  Parses, Parses-and_then, Parses-map, Parses-return, Parses-read_u8, Parses-read_uleb128, Leb,
  IsLeb, leb_bytes, leb_value, length-group_bytes,
}
use novaprova.Dwarf.Abbrev.{AttrSpec, Abbrev, read_specs, read}

-- A specification by its two LEB128 numbers, which are not both zero.
pub record SpecLayout : Type 0 where
  pub name : Leb
  pub form : Leb

pub record IsSpec (s : SpecLayout) : Type 0 where
  pub has_name : IsLeb s.name
  pub has_form : IsLeb s.form
  pub goes_on : (leb_value s.name == 0 && leb_value s.form == 0) ≡ false

abbrev pub spec_of : SpecLayout → AttrSpec
spec_of s = record { name = leb_value s.name; form = leb_value s.form }

abbrev pub specs_bytes : List SpecLayout → List ℕ
specs_bytes [] = 0 ∷ 0 ∷ []
specs_bytes (s ∷ ss) = leb_bytes s.name ++ (leb_bytes s.form ++ specs_bytes ss)

pub record AbbrevLayout : Type 0 where
  pub code : Leb
  pub tag : Leb
  pub children : ℕ
  pub specs : List SpecLayout

-- The code is not 0, which ends the table, and not the highest of all.
pub record IsAbbrev (a : AbbrevLayout) : Type 0 where
  pub has_code : IsLeb a.code
  pub not_zero : 0 < leb_value a.code
  pub not_highest : leb_value a.code + 1 < 2 ^ 32
  pub has_tag : IsLeb a.tag
  pub has_specs : All IsSpec a.specs

abbrev pub abbrev_of : AbbrevLayout → Abbrev
abbrev_of a = record {
  code = leb_value a.code;
  tag = leb_value a.tag;
  children = a.children;
  attr_specs = map spec_of a.specs;
}

abbrev pub body_bytes : AbbrevLayout → List ℕ
body_bytes a = leb_bytes a.tag ++ (a.children ∷ [] ++ specs_bytes a.specs)

unfoldable pub table_bytes : List AbbrevLayout → List ℕ
table_bytes [] = 0 ∷ []
table_bytes (a ∷ as_) = leb_bytes a.code ++ (body_bytes a ++ table_bytes as_)

-- The number 0 in one group.
abbrev nought : Leb
nought = record { head = 0; tail = [] }

nought-IsLeb : IsLeb nought
unfolding group_value
nought-IsLeb = record {
  head_group = omega arith;
  tail_groups = tt;
  short = omega arith;
  fits = omega arith;
}

pub Parses-nought : {b : Bool} {o : ℕ} → Parses b o read_uleb128 (0 ∷ []) 0
unfolding group_bytes group_value
Parses-nought = Parses-read_uleb128 nought nought-IsLeb

Parses-specs :
    {b : Bool} (fuel : ℕ) (ss : List SpecLayout) (o : ℕ)
    → All IsSpec ss
    → length ss < fuel
    → Parses b o (read_specs fuel) (specs_bytes ss) (map spec_of ss)
unfolding read_specs
Parses-specs zero ss o h lt = absurd (omega arith)
Parses-specs (suc fuel) [] o h lt =
    Parses-and_then {bs = 0 ∷ []} {cs = 0 ∷ []} _ Parses-nought
      (Parses-and_then {bs = 0 ∷ []} {cs = []} _ Parses-nought Parses-return)
Parses-specs (suc fuel) (s ∷ ss) o h lt =
    Parses-and_then _ (Parses-read_uleb128 s.name h.0.has_name) (
      Parses-and_then _ (Parses-read_uleb128 s.form h.0.has_form) (
        rw (h.0.goes_on)
          (Parses-map (λ l. spec_of s ∷ l) (Parses-specs fuel ss _ h.1 (omega arith)))))

pub Parses-read :
    {b : Bool} {o : ℕ} (fuel : ℕ) (a : AbbrevLayout)
    → IsAbbrev a
    → length a.specs < fuel
    → Parses b o (read fuel (leb_value a.code)) (body_bytes a) (abbrev_of a)
unfolding read
Parses-read fuel a h lt = Parses-and_then _ (Parses-read_uleb128 a.tag h.has_tag) (
    Parses-and_then {bs = a.children ∷ []} _ Parses-read_u8
      (Parses-map _ (Parses-specs fuel a.specs _ h.has_specs lt)))

length-specs_bytes : (ss : List SpecLayout) → length ss < length (specs_bytes ss)
length-specs_bytes [] = omega arith
length-specs_bytes (s ∷ ss) = omega (
  arith,
  length-specs_bytes ss,
  length-append (leb_bytes s.name) (leb_bytes s.form ++ specs_bytes ss),
  length-append (leb_bytes s.form) (specs_bytes ss),
  length-group_bytes s.name.head s.name.tail,
)

pub length-body_bytes : (a : AbbrevLayout) → length a.specs < length (body_bytes a)
length-body_bytes a = omega (
  arith,
  length-specs_bytes a.specs,
  length-append (leb_bytes a.tag) (a.children ∷ [] ++ specs_bytes a.specs),
)

pub length-table_bytes : (as_ : List AbbrevLayout) → length as_ < length (table_bytes as_)
unfolding table_bytes
length-table_bytes [] = omega arith
length-table_bytes (a ∷ as_) = omega (
  arith,
  length-table_bytes as_,
  length-append (leb_bytes a.code) (body_bytes a ++ table_bytes as_),
  length-append (body_bytes a) (table_bytes as_),
  length-body_bytes a,
)
