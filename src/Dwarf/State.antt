-- ===== src/Dwarf/State.antt =====
-- np/spiegel/dwarf/state.hxx and state.cxx: the link objects of the process and the two indexes by
-- address, with link_object_t's addresses of np/spiegel/dwarf/link_object.hxx. A link object is its
-- place in `link_objects_`; assertions and the debug log are left out.
pub mod Ranges
pub mod Indexed
pub mod Loaded
pub mod Units
use novaprova.Prelude.{
  ℕ, zero, suc, ◌+◌, ◌-◌, ◌%◌, ◌^◌, Bool, true, false, not, ◌&&◌, ◌||◌, Option, none, some, List,
  [], ◌∷◌, ◌++◌, ◌==◌, if◌then◌else◌, ltb, leb, length, get_elem?,
}
use novaprova.Prelude.Bytes.{codes}
use novaprova.Util.RangeTree.{Range, Tree, insert, insert_point, find, size}
use novaprova.Dwarf.Abbrev.{AttrSpec}
use novaprova.Dwarf.Reader.{Reader, read_addr, skip, get_remains}
use novaprova.Dwarf.Entry.{Entry, Reference, get_attribute, get_uint64_attribute}

-- `strncmp(filename, prefix, strlen(prefix)) == 0`, and `strcmp(a, b) == 0`.
unfoldable pub has_prefix : List ℕ → List ℕ → Bool
has_prefix [] text = true
has_prefix (c ∷ cs) [] = false
has_prefix (c ∷ cs) (d ∷ ds) = let rest = has_prefix cs ds in c == d && rest

unfoldable pub same_text : List ℕ → List ℕ → Bool
same_text [] [] = true
same_text [] (d ∷ ds) = false
same_text (c ∷ cs) [] = false
same_text (c ∷ cs) (d ∷ ds) = let rest = same_text cs ds in c == d && rest

abbrev pub prefixes : List (List ℕ)
prefixes =
    codes "/bin/"
    ∷ codes "/lib/"
    ∷ codes "/lib64/"
    ∷ codes "/usr/bin/"
    ∷ codes "/usr/lib/"
    ∷ codes "/usr/lib64/"
    ∷ codes "/opt/"
    ∷ codes "linux-gate.so"
    ∷ codes "linux-vdso.so"
    ∷ []

unfoldable pub first_prefix : List (List ℕ) → List ℕ → Option (List ℕ)
unfolding has_prefix
first_prefix [] filename = none
first_prefix (p ∷ ps) filename =
    let rest = first_prefix ps filename in if has_prefix p filename then some p else rest

-- Without the prefixes for Apple.
unfoldable pub filename_is_ignored : List ℕ → Option (List ℕ)
unfolding first_prefix
filename_is_ignored filename = first_prefix prefixes filename

-- A mapping of a link object: `map_` as an address, and `size_`.
pub record Mapped : Type 0 where
  pub map : ℕ
  pub size : ℕ

-- What the platform tells of a link object; the program itself has no name.
pub record LinkObj : Type 0 where
  pub name : Option (List ℕ)
  pub slide : ℕ
  pub mappings : List Mapped

pub record LinkObject : Type 0 where
  pub filename : List ℕ
  pub slide : ℕ
  pub system_mappings : List Mapped

-- What `link_objects_` and `link_object_index_` hold.
pub record Objects : Type 0 where
  pub objects : List LinkObject
  pub index : Tree ℕ

unfoldable pub find_object : List LinkObject → List ℕ → Option LinkObject
unfolding same_text
find_object [] filename = none
find_object (o ∷ os) filename =
    let rest = find_object os filename in if same_text o.filename filename then some o else rest

unfoldable pub get_link_object : Objects → List ℕ → Option LinkObject
unfolding find_object
get_link_object s filename = find_object s.objects filename

-- `make_link_object` with its two setters.
unfoldable pub make_link_object : List ℕ → LinkObj → Objects → Objects
make_link_object filename l s = record {
  objects =
      s.objects
      ++ (record { filename = filename; slide = l.slide; system_mappings = l.mappings }) ∷ [];
  index = s.index;
}

unfoldable pub index_mappings : ℕ → List Mapped → Tree ℕ → Tree ℕ
index_mappings lo [] t = t
index_mappings lo (m ∷ ms) t = index_mappings lo ms (insert m.map ((m.map + m.size) % 2 ^ 64) lo t)

-- One turn of the loop of `add_self`.
unfoldable pub add_object : List ℕ → LinkObj → Objects → Objects
unfolding filename_is_ignored get_link_object
add_object exe l s =
    let filename : List ℕ = elim l.name [ none ↦ exe | some name ↦ name ] in
    elim (filename_is_ignored filename) [
      | some prefix ↦ s
      | none ↦ elim (get_link_object s filename) [
        | some lo ↦ s
        | none ↦
            let made = make_link_object filename l s in
            record {
              objects = made.objects;
              index = index_mappings (length s.objects) l.mappings made.index;
            }
      ]
    ]

-- `add_self` up to `read_link_objects`.
unfoldable pub add_objects : List ℕ → List LinkObj → Objects → Objects
add_objects exe [] s = s
add_objects exe (l ∷ ls) s = add_objects exe ls (add_object exe l s)

-- link_object_t: `addr ? addr + slide_ : addr`, and back.
unfoldable pub live_address : LinkObject → ℕ → ℕ
live_address lo addr = if addr == 0 then addr else (addr + lo.slide) % 2 ^ 64

unfoldable pub object_recorded_address : LinkObject → ℕ → ℕ
object_recorded_address lo addr =
    if addr == 0 then addr else (addr + 2 ^ 64 - lo.slide % 2 ^ 64) % 2 ^ 64

unfoldable pub recorded_address : Objects → ℕ → ℕ
recorded_address s addr = elim (find addr s.index) [
  | none ↦ addr
  | some e ↦ elim (get_elem? s.objects e.1) [
    | none ↦ addr
    | some lo ↦ object_recorded_address lo addr
  ]
]

-- A compile unit by its link object, first byte and end in the section.
pub record UnitPlace : Type 0 where
  pub link_object : ℕ
  pub start_offset : ℕ
  pub end_offset : ℕ

-- The unit, by its number, and the offset in it; none stands for the null tuple.
unfoldable pub resolve_from : ℕ → List UnitPlace → ℕ → ℕ → Option (ℕ × ℕ)
resolve_from n [] lo off = none
resolve_from n (cu ∷ cus) lo off =
    let rest = resolve_from (suc n) cus lo off in
    if lo == cu.link_object && (leb cu.start_offset off && ltb off cu.end_offset)
    then some (n, off - cu.start_offset)
    else rest

unfoldable pub resolve_link_object_reference : List UnitPlace → ℕ → ℕ → Option (ℕ × ℕ)
unfolding resolve_from
resolve_link_object_reference = resolve_from 0

abbrev pub dw_at_low_pc : ℕ
dw_at_low_pc = 0x11

abbrev pub dw_at_high_pc : ℕ
dw_at_high_pc = 0x12

abbrev pub dw_at_ranges : ℕ
dw_at_ranges = 0x55

abbrev pub dw_form_addr : ℕ
dw_form_addr = 0x01

-- `_NP_MAXADDR`
abbrev pub maxaddr : ℕ
maxaddr = 2 ^ 64 - 1

unfoldable pub form_in : List AttrSpec → ℕ → ℕ
form_in [] name = 0
form_in (a ∷ as') name = let rest = form_in as' name in if a.name == name then a.form else rest

-- `entry_t::get_attribute_form`
unfoldable pub get_attribute_form : Entry → ℕ → ℕ
unfolding form_in
get_attribute_form e name = elim e.abbrev_used [ none ↦ 0 | some a ↦ form_in a.attr_specs name ]

unfoldable pub has_attribute : ℕ → Entry → Bool
has_attribute name e = elim (get_attribute name e) [ none ↦ false | some v ↦ true ]

-- The loop over a list of ranges. `base` is the base address so far.
unfoldable pub ranges_loop : ℕ → Reference → ℕ → Reader → Tree Reference → Tree Reference
ranges_loop zero funcref base r t = t
ranges_loop (suc fuel) funcref base r t =
    let (first, r') = read_addr r in
    elim first [
      | none ↦ t
      | some start ↦
          let (second, r'') = read_addr r' in
          elim second [
            | none ↦ t
            | some end ↦
                let base' = if start == maxaddr then end else base in
                let t' =
                  if start == maxaddr
                  then t
                  else (insert ((start + base) % 2 ^ 64) ((end + base) % 2 ^ 64) funcref t) in
                let rest = ranges_loop fuel funcref base' r'' t' in
                if start == 0 && end == 0 then t else rest
          ]
    ]

-- `version` is the unit's, `section` the contents of the section of ranges.
unfoldable pub insert_ranges : ℕ → Reader → Entry → Reference → Tree Reference → Tree Reference
unfolding has_attribute get_attribute_form
insert_ranges version section e funcref t =
    let has_lo = has_attribute dw_at_low_pc e in
    let lo = get_uint64_attribute dw_at_low_pc e in
    let has_hi = has_attribute dw_at_high_pc e in
    let hi = get_uint64_attribute dw_at_high_pc e in
    let ranges = get_uint64_attribute dw_at_ranges e in
    if has_lo && has_hi
    then (let relative = version == 4 && not (get_attribute_form e dw_at_high_pc == dw_form_addr) in
        insert lo (if relative then (hi + lo) % 2 ^ 64 else hi) funcref t)
    else (if not (ranges == 0)
        then (let r = (skip ranges section).1 in ranges_loop (suc (get_remains r)) funcref 0 r t)
        else (if has_lo then insert_point lo funcref t else t))

-- The same loop in `is_within`, which gives the offset of the address.
unfoldable pub within_loop : ℕ → ℕ → ℕ → Reader → Option ℕ
within_loop zero addr base r = none
within_loop (suc fuel) addr base r =
    let (first, r') = read_addr r in
    elim first [
      | none ↦ none
      | some start ↦
          let (second, r'') = read_addr r' in
          elim second [
            | none ↦ none
            | some end ↦
                let base' = if start == maxaddr then end else base in
                let rest = within_loop fuel addr base' r'' in
                let low = (start + base) % 2 ^ 64 in
                let high = (end + base) % 2 ^ 64 in
                if start == 0 && end == 0
                then none
                else (if not (start == maxaddr) && (leb low addr && ltb addr high)
                    then some ((addr + 2 ^ 64 - base) % 2 ^ 32)
                    else rest)
          ]
    ]

unfoldable pub is_within : ℕ → Reader → Entry → Option ℕ
unfolding has_attribute
is_within addr section e =
    let has_lo = has_attribute dw_at_low_pc e in
    let lo = get_uint64_attribute dw_at_low_pc e in
    let has_hi = has_attribute dw_at_high_pc e in
    let hi = get_uint64_attribute dw_at_high_pc e in
    let ranges = get_uint64_attribute dw_at_ranges e in
    let at_lo = if has_lo && addr == lo then some 0 else none in
    if has_lo && has_hi
    then (if leb lo addr && leb addr hi then some ((addr - lo) % 2 ^ 32) else none)
    else (if not (ranges == 0)
        then (let r = (skip ranges section).1 in
            elim (within_loop (suc (get_remains r)) addr 0 r) [
              | none ↦ at_lo
              | some offset ↦ some offset
            ])
        else at_lo)

-- `describe_address` where `address_index_` is not empty: the function and the offset in it.
unfoldable pub describe_indexed : ℕ → Tree Reference → Option (Reference × ℕ)
describe_indexed addr t = elim (find addr t) [
  | none ↦ none
  | some e ↦ some (e.1, (addr + 2 ^ 64 - e.0.lo) % 2 ^ 32)
]
