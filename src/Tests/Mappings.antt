-- ===== src/Tests/Mappings.antt =====
-- Sections of a link object in its mappings.
use novaprova.Prelude.{ℕ, ◌≡◌, refl, true, some, Option, List, [], ◌∷◌, All, arith, ◌+◌}
use novaprova.Spiegel.Text.{page_round_up, page_round_down}
use novaprova.Spiegel.Mapping.{Mapping, get_end, set_end, contains_addr, mmap, expand_to_pages}
use novaprova.Dwarf.LinkObject.{map_from_system, coalesce, coalesce_onto, mmap_all}
use novaprova.Dwarf.LinkObject.Coalesced.{Follows}
use novaprova.Dwarf.LinkObject.Mapped.{mmap_all-coalesce}
use novaprova.Tests.Traps.{kernel, kernel-IsKernel}

abbrev section : ℕ → ℕ → Mapping
section offset size = record { offset = offset; size = size; map = 0 }

-- The first two share a page, the third is far behind.
abbrev sections : List Mapping
sections = section 5000 100 ∷ section 5200 50 ∷ section 90000 8 ∷ []

abbrev at_fixed : ℕ → ℕ → Option ℕ
at_fixed offset size = some (1000000 + offset)

abbrev mappings : List Mapping
mappings =
    record { offset = 4096; size = 4096; map = 1004096 }
    ∷ record { offset = 86016; size = 4096; map = 1086016 }
    ∷ []

are_mapped : mmap_all kernel at_fixed (coalesce kernel sections) ≡ some mappings
unfolding mmap_all mmap expand_to_pages coalesce coalesce_onto set_end get_end page_round_up
    page_round_down
are_mapped = refl

mmap_all-coalesce_example :
    All (λ x. (y : Mapping) × (map_from_system mappings x ≡ some y)) sections
unfolding Follows
mmap_all-coalesce_example =
    mmap_all-coalesce kernel kernel-IsKernel at_fixed (section 5000 100)
      (section 5200 50 ∷ section 90000 8 ∷ []) mappings (omega arith)
      (omega arith, omega arith, omega arith, (omega arith, omega arith, omega arith, tt))
      are_mapped

-- A section inside one that begins before it shrinks the mapping of both.
nested : coalesce kernel (section 5000 3000 ∷ section 5200 50 ∷ []) ≡ section 5000 250 ∷ []
unfolding coalesce coalesce_onto set_end get_end page_round_up
nested = refl

-- The address behind the last one of a mapping is in it.
one_behind : contains_addr (record { offset = 0; size = 16; map = 4096 }) 4112 ≡ true
unfolding contains_addr
one_behind = refl
