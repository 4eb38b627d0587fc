-- ===== src/Tests/Indexes.antt =====
-- The indexes by address on small inputs.
use novaprova.Prelude.{ℕ, ◌≡◌, refl, false, none, some, List, [], ◌∷◌, arith, inl, All}
use novaprova.Prelude.Bytes.{codes}
use novaprova.Util.RangeTree.{Range, left_of_range, insert_range, find}
use novaprova.Util.RangeTree.Lookup.{covers, first_covering, IsOrdered}
use novaprova.Util.RangeTree.Filled.{AreSeparate, or_else}
use novaprova.Dwarf.Reader.{Reader, open_reader, skip}
use novaprova.Dwarf.Entry.{
  Entry, Reference, to_unit, uint64, get_attribute, get_uint64_attribute, last_value,
}
use novaprova.Dwarf.State.{
  LinkObj, Objects, UnitPlace, insert_ranges, is_within, has_attribute, filename_is_ignored,
  first_prefix, has_prefix, get_link_object, find_object, recorded_address, add_object,
  live_address,
}
use novaprova.Dwarf.State.Ranges.{Item, selects, spans, list_bytes, IsItem, decoded, tagged}
use novaprova.Dwarf.State.Indexed.{is_some, insert_ranges-found, is_within-insert_ranges}
use novaprova.Dwarf.State.Loaded.{pieces, recorded_address-add_object}

abbrev low_range : Range
low_range = record { lo = 10; hi = 20 }

abbrev high_range : Range
high_range = record { lo = 20; hi = 30 }

-- A later range that overlaps one is lost: its value goes to the older range.
overlap :
    insert_range {V = ℕ} (record { lo = 15; hi = 40 }) 2 ((low_range, 1) ∷ []) ≡ (low_range, 2) ∷ []
unfolding insert_range left_of_range
overlap = refl

abbrev items : List Item
items = spans 16 32 ∷ selects 256 ∷ spans 0 16 ∷ []

abbrev ranges_section : Reader
ranges_section = open_reader 4096 (0 ∷ list_bytes items) false

abbrev function_entry : Entry
function_entry = record {
  offset = 40;
  level = 1;
  abbrev_used = none;
  values = (0x55, uint64 1) ∷ [];
}

abbrev function_ref : Reference
function_ref = record { resolver = to_unit; offset = 40 }

items-AreSeparate : AreSeparate (tagged function_ref (decoded 0 items))
unfolding AreSeparate decoded left_of_range
items-AreSeparate = (omega arith, (inl refl, tt), (omega arith, tt, tt))

items-IsItem : All IsItem items
unfolding IsItem
items-IsItem = (
  (omega arith, omega arith, omega arith),
  (omega arith, ((omega arith, omega arith, omega arith), tt)),
)

insert_ranges-found_example :
    find 260 (insert_ranges 4 ranges_section function_entry function_ref [])
    ≡ or_else
        (first_covering 260 (tagged function_ref (decoded 0 items)))
        (find {V = Reference} 260 [])
unfolding has_attribute get_attribute last_value get_uint64_attribute open_reader skip IsOrdered
    list_bytes decoded
insert_ranges-found_example =
    insert_ranges-found ranges_section function_entry items [] refl refl items-IsItem refl 4
      function_ref [] 260 items-AreSeparate (tt, (tt, tt)) tt

is_within-insert_ranges_example :
    is_some (is_within 260 ranges_section function_entry)
    ≡ is_some (find 260 (insert_ranges 4 ranges_section function_entry function_ref []))
unfolding has_attribute get_attribute last_value get_uint64_attribute open_reader skip decoded
    list_bytes
is_within-insert_ranges_example =
    is_within-insert_ranges ranges_section function_entry items [] refl refl items-IsItem refl 4
      function_ref 260 refl (omega arith, (omega arith, tt)) items-AreSeparate

-- The program itself and a library, at 4096 and 65536.
abbrev program : LinkObj
program = record { name = none; slide = 4096; mappings = record { map = 4096; size = 8192 } ∷ [] }

abbrev helper : LinkObj
helper = record {
  name = some (codes "/home/lib.so");
  slide = 65536;
  mappings = record { map = 65536; size = 4096 } ∷ [];
}

abbrev nothing : Objects
nothing = record { objects = []; index = [] }

recorded_address-add_object_example :
    recorded_address (add_object (codes "/home/prog") program nothing) 4196 ≡ 100
unfolding filename_is_ignored first_prefix has_prefix get_link_object find_object pieces AreSeparate
    first_covering covers live_address IsOrdered
recorded_address-add_object_example =
    recorded_address-add_object (codes "/home/prog") program nothing refl refl 100
      (record { lo = 4096; hi = 12288 }, 0) (omega arith, tt, tt) (tt, tt) tt (omega arith) refl
      (ground arith)

abbrev units : List UnitPlace
units =
    record { link_object = 0; start_offset = 0; end_offset = 50 }
    ∷ record { link_object = 1; start_offset = 0; end_offset = 70 }
    ∷ record { link_object = 1; start_offset = 70; end_offset = 90 }
    ∷ []
