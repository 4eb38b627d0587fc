-- ===== src/Dwarf/LinkObject.antt =====
-- np/spiegel/dwarf/link_object.cxx: the sections of a link object in its mappings. The list of the
-- sections to be mapped is sorted by offset, as qsort leaves it; the BFD library, which finds the
-- sections in the file, is left out.
pub mod Coalesced
pub mod Mapped
use novaprova.Prelude.{
  ℕ, Bool, true, false, Option, none, some, List, [], ◌∷◌, ◌++◌, if◌then◌else◌, leb,
}
use novaprova.Spiegel.Text.{Kernel, page_round_up}
use novaprova.Spiegel.Mapping.{Mapping, get_end, set_end, contains, contains_addr, map_from, mmap}

unfoldable pub is_in_plt : List Mapping → ℕ → Bool
is_in_plt [] addr = false
is_in_plt (p ∷ plts) addr =
    let rest = is_in_plt plts addr in if contains_addr p addr then true else rest

-- The section with its address, if a mapping contains it.
unfoldable pub map_from_system : List Mapping → Mapping → Option Mapping
map_from_system [] m = none
map_from_system (sm ∷ mappings) m =
    let rest = map_from_system mappings m in if contains sm m then some (map_from sm m) else rest

-- The loop that coalesces the sections into mappings. `back` is the last of the mappings.
unfoldable pub coalesce_onto : Kernel → Mapping → List Mapping → List Mapping
coalesce_onto k back [] = back ∷ []
coalesce_onto k back (s ∷ sections) =
    let abuts = leb s.offset (page_round_up k (get_end back)) in
    let rest = coalesce_onto k (if abuts then set_end (get_end s) back else s) sections in
    if abuts then rest else back ∷ rest

unfoldable pub coalesce : Kernel → List Mapping → List Mapping
unfolding coalesce_onto
coalesce k [] = []
coalesce k (s ∷ sections) = coalesce_onto k s sections

-- The loop that maps; none if a mapping fails.
unfoldable pub mmap_all : Kernel → (ℕ → ℕ → Option ℕ) → List Mapping → Option (List Mapping)
mmap_all k mmap_file [] = some []
mmap_all k mmap_file (m ∷ ms) =
    let rest = mmap_all k mmap_file ms in
    elim (mmap k mmap_file m) [
      | none ↦ none
      | some mapped ↦ elim rest [ none ↦ none | some ms' ↦ some (mapped ∷ ms') ]
    ]
