-- ===== src/Dwarf/Entry.antt =====
-- np/spiegel/dwarf/entry.hxx, value.hxx and reference.hxx: an entry of a compile unit with the values
-- of its attributes.
-- Offsets in a unit are below 4 GB. The values of the latest `setup` are a list in the order in which they were added; the arrays that
-- they stand in, with a count of generations, are left out. On a 64-bit platform an address and an
-- offset are values of 64 bits.
use novaprova.Prelude.{
  ℕ, Bool, false, ◌||◌, ◌&&◌, not, Option, none, some, List, [], ◌∷◌, ◌++◌, ltb, leb, ◌==◌,
  if◌then◌else◌,
}
use novaprova.Dwarf.Abbrev.{Abbrev}

-- What resolves a reference: the unit, or the link object that it stands in.
pub data Resolver : Type 0 where
  to_unit to_link_object : Resolver

pub record Reference : Type 0 where
  pub resolver : Resolver
  pub offset : ℕ

pub data Value : Type 0 where
  string : List ℕ → Value
  sint32 uint32 uint64 : ℕ → Value
  bytes : List ℕ → Value
  ref : Reference → Value

pub record Entry : Type 0 where
  pub offset : ℕ
  pub level : ℕ
  pub abbrev_used : Option Abbrev
  pub values : List (ℕ × Value)

unfoldable pub new_entry : Entry
new_entry = record { offset = 0; level = 0; abbrev_used = none; values = [] }

-- `setup` begins a new generation of values, `partial_setup` does not.
unfoldable pub setup : ℕ → ℕ → Abbrev → Entry → Entry
setup offset level a e = record {
  offset = offset;
  level = level;
  abbrev_used = some a;
  values = [];
}

unfoldable pub partial_setup : ℕ → ℕ → Option Abbrev → Entry → Entry
partial_setup offset level a e = record e { offset = offset; level = level; abbrev_used = a }

-- `name_to_index(name) >= 0`
abbrev pub is_known : ℕ → Bool
is_known name = ltb name 0x6f || (leb 0x2000 name && ltb name 0x2008)

unfoldable pub add_attribute : ℕ → Value → Entry → Entry
add_attribute name val e =
    if is_known name then record e { values = e.values ++ (name, val) ∷ [] } else e

-- The value added last for a name.
unfoldable pub last_value : ℕ → List (ℕ × Value) → Option Value → Option Value
last_value name [] found = found
last_value name ((n, v) ∷ values) found =
    last_value name values (if n == name then some v else found)

unfoldable pub get_attribute : ℕ → Entry → Option Value
unfolding last_value
get_attribute name e = if is_known name then last_value name e.values none else none

unfoldable pub get_string_attribute : ℕ → Entry → Option (List ℕ)
get_string_attribute name e = elim (get_attribute name e) [ some (string v) ↦ some v | _ ↦ none ]

unfoldable pub get_uint32_attribute : ℕ → Entry → ℕ
get_uint32_attribute name e = elim (get_attribute name e) [ some (uint32 v) ↦ v | _ ↦ 0 ]

unfoldable pub get_uint64_attribute : ℕ → Entry → ℕ
get_uint64_attribute name e = elim (get_attribute name e) [
  | some (uint32 v) ↦ v
  | some (uint64 v) ↦ v
  | _ ↦ 0
]

unfoldable pub get_reference_attribute : ℕ → Entry → Option Reference
get_reference_attribute name e = elim (get_attribute name e) [ some (ref r) ↦ some r | _ ↦ none ]

unfoldable pub has_children : Entry → Bool
has_children e = elim e.abbrev_used [ none ↦ false | some a ↦ not (a.children == 0) ]
