-- ===== src/Spiegel/Mapping.antt =====
-- A part of a file and where it is mapped: np/spiegel/mapping.hxx and .cxx. An address 0 is a null
-- `map_`. mmap(2) is a parameter: where it maps a range of the file, none if it fails.
use novaprova.Prelude.{ℕ, ◌+◌, ◌-◌, ◌%◌, ◌^◌, Bool, not, ◌&&◌, Option, none, some, ◌==◌, leb}
use novaprova.Spiegel.Text.{Kernel, page_round_up, page_round_down}

pub record Mapping : Type 0 where
  pub offset : ℕ
  pub size : ℕ
  pub map : ℕ

unfoldable pub is_mapped : Mapping → Bool
is_mapped m = not (m.map == 0)

unfoldable pub get_end : Mapping → ℕ
get_end m = (m.offset + m.size) % 2 ^ 64

unfoldable pub set_end : ℕ → Mapping → Mapping
set_end e m = record { offset = m.offset; size = (e + 2 ^ 64 - m.offset) % 2 ^ 64; map = m.map }

-- `contains(const mapping_t &)`.
unfoldable pub contains : Mapping → Mapping → Bool
unfolding get_end
contains m n = leb m.offset n.offset && leb (get_end n) (get_end m)

-- `contains(void *)`.
unfoldable pub contains_addr : Mapping → ℕ → Bool
contains_addr m p = leb m.map p && leb p ((m.map + m.size) % 2 ^ 64)

-- `n.map_from(m)`.
unfoldable pub map_from : Mapping → Mapping → Mapping
map_from m n = record {
  offset = n.offset;
  size = n.size;
  map = (m.map + n.offset + 2 ^ 64 - m.offset) % 2 ^ 64;
}

unfoldable pub expand_to_pages : Kernel → Mapping → Mapping
expand_to_pages k m =
    let end = page_round_up k ((m.offset + m.size) % 2 ^ 64) in
    let start = page_round_down k m.offset in
    record { offset = start; size = (end + 2 ^ 64 - start) % 2 ^ 64; map = m.map }

-- The mapping, or none for a negative result.
unfoldable pub mmap : Kernel → (ℕ → ℕ → Option ℕ) → Mapping → Option Mapping
unfolding expand_to_pages
mmap k mmap_file m =
    let wide = expand_to_pages k m in
    elim (mmap_file wide.offset wide.size) [
      | none ↦ none
      | some map ↦ some (record { offset = wide.offset; size = wide.size; map = map })
    ]
