-- ===== src/Tests/Walks.antt =====
-- Entries of a unit that are walked through: np/spiegel/dwarf/walker.cxx.
use novaprova.Prelude.{ℕ, ◌≡◌, refl, false, some, none, [], ◌∷◌, ◌==◌, if◌then◌else◌}
use novaprova.Dwarf.Reader.{read_uleb128, leb_groups}
use novaprova.Dwarf.Abbrev.{Abbrev}
use novaprova.Dwarf.Entry.{Entry, setup, get_attribute, has_children}
use novaprova.Dwarf.Walker.{UnitView, Walker, enters, ok, read_entry, enter_abbrev, read_attributes}
use novaprova.Dwarf.Walker.Moves.{Resolve, move_next}
use novaprova.Dwarf.Walker.Moves.Entries.{end, leaf, node, Reads, reads}
use novaprova.Dwarf.Walker.Moves.Siblings.{Below, reads_below, arrival, move_next-Below}

-- Abbreviations without attributes: 1 has children, the others have none.
abbrev tagged : ℕ → Abbrev
tagged code = record {
  code = code;
  tag = 46;
  children = if code == 1 then 1 else 0;
  attr_specs = [];
}

abbrev cu : UnitView
cu = record { version = 4; get_abbrev = λ code. some (tagged code); offset_as_string = λ off. none }

-- Of the children of the first entry, the second has a child of its own. The first has a sibling.
abbrev at : ℕ → ℕ → Entry → Walker
at offset level e = record {
  reader = record {
    base = 4096;
    bytes = 1 ∷ 2 ∷ 1 ∷ 2 ∷ 0 ∷ 0 ∷ 3 ∷ 0 ∷ [];
    offset = offset;
    is64 = false;
  };
  entry = e;
  level = level;
  filter_tag = 0;
}

abbrev entry_at : ℕ → ℕ → ℕ → Entry
entry_at offset level code = record {
  offset = offset;
  level = level;
  abbrev_used = some (tagged code);
  values = [];
}

abbrev nowhere_known : Resolve
nowhere_known u r = none

children_read :
    Reads cu (leaf (node (leaf end) end)) (at 1 1 (entry_at 0 0 1)) (at 6 0 (entry_at 3 2 2))
unfolding Reads read_entry enter_abbrev read_attributes setup has_children read_uleb128 leb_groups
children_read = (
  at 2 1 (entry_at 1 1 2),
  (ok, tt, refl),
  refl,
  (
    at 3 2 (entry_at 2 1 1),
    (ok, tt, refl),
    refl,
    at 5 1 (entry_at 3 2 2),
    (at 4 2 (entry_at 3 2 2), (ok, tt, refl), refl, refl),
    refl,
  ),
)

first_and_children :
    Below cu (some (leaf (node (leaf end) end))) (at 1 1 (entry_at 0 0 1)) (at 6 0 (entry_at 3 2 2))
unfolding Below has_children
first_and_children = (refl, children_read)

sibling_read : read_entry cu (at 6 0 (entry_at 3 2 2)) ≡ enters ok (at 7 0 (entry_at 6 0 3))
unfolding read_entry enter_abbrev read_attributes setup read_uleb128 leb_groups
sibling_read = refl

no_sibling : get_attribute 0x01 (entry_at 0 0 1) ≡ none
unfolding get_attribute
no_sibling = refl

level_below : ◌≡◌ {A = ℕ} 1 (if has_children (entry_at 0 0 1) then 1 else 0)
unfolding has_children
level_below = refl

move_next-Below_example :
    move_next nowhere_known 7 cu (at 1 1 (entry_at 0 0 1))
    ≡ some (arrival cu 0 ok (at 7 0 (entry_at 6 0 3)))
unfolding reads_below reads
move_next-Below_example =
    move_next-Below cu nowhere_known (some (leaf (node (leaf end) end))) (at 1 1 (entry_at 0 0 1))
      (at 6 0 (entry_at 3 2 2)) (at 7 0 (entry_at 6 0 3)) ok 0 no_sibling level_below
      first_and_children tt sibling_read
