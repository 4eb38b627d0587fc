-- ===== src/Dwarf/Abbrev.antt =====
-- np/spiegel/dwarf/abbrev.hxx and abbrev.cxx: an abbreviation, and the table of them that a compile
-- unit reads (compile_unit.cxx, `read_abbrevs` and `get_abbrev`).
-- The loops run on fuel. The debug log is left out.
pub mod Layout
pub mod Table
use novaprova.Prelude.{
  ℕ, zero, suc, ◌+◌, ◌%◌, ◌^◌, Bool, ◌&&◌, Option, none, some, List, [], ◌∷◌, ◌==◌, leb,
  if◌then◌else◌, length, get_elem?,
}
use novaprova.Dwarf.Reader.{Reader, M, ◌>>=◌, return, refuse, seek, read_u8, read_uleb128}

pub record AttrSpec : Type 0 where
  pub name : ℕ
  pub form : ℕ

pub record Abbrev : Type 0 where
  pub code : ℕ
  pub tag : ℕ
  pub children : ℕ
  pub attr_specs : List AttrSpec

-- The loop over the attribute specifications, as far as a pair of zeros.
unfoldable pub read_specs : ℕ → M (List AttrSpec)
read_specs zero = refuse
read_specs (suc fuel) = do
  name ← read_uleb128
  form ← read_uleb128
  let more : M (List AttrSpec) = (do
    specs ← read_specs fuel
    return (record { name = name; form = form } ∷ specs))
  if name == 0 && form == 0 then return [] else more

unfoldable pub read : ℕ → ℕ → M Abbrev
read fuel code = do
  tag ← read_uleb128
  children ← read_u8
  specs ← read_specs fuel
  return (record { code = code; tag = tag; children = children; attr_specs = specs })

-- `abbrevs_`, null as none.
abbrev pub Abbrevs : Type 0
Abbrevs = List (Option Abbrev)

-- The table grown with nulls as far as a code, and the abbreviation put there.
unfoldable pub set_at : ℕ → Abbrev → Abbrevs → Abbrevs
set_at zero a [] = some a ∷ []
set_at zero a (x ∷ xs) = some a ∷ xs
set_at (suc i) a [] = none ∷ set_at i a []
set_at (suc i) a (x ∷ xs) = x ∷ set_at i a xs

-- What `read_abbrevs` comes to. The highest code makes the new size 0 in 32 bits, and then an access
-- out of bounds.
pub data Loaded : Type 0 where
  loaded : Abbrevs → Loaded
  out_of_bounds stuck : Loaded

unfoldable pub put : Abbrev → Abbrevs → Option Abbrevs
put a t =
    if (a.code + 1) % 2 ^ 32 == 0 && leb (length t) a.code then none else some (set_at a.code a t)

abbrev pub with_abbrev : Option Abbrev × Reader → Abbrevs → (Abbrevs → Reader → Loaded) → Loaded
with_abbrev (none, r) t go = loaded t
with_abbrev (some a, r) t go = elim (put a t) [ none ↦ out_of_bounds | some t' ↦ go t' r ]

abbrev pub with_code : Option ℕ × Reader → Abbrevs → (Abbrevs → Reader → Loaded) → Loaded
with_code (none, r) t go = loaded t
with_code (some zero, r) t go = loaded t
with_code (some (suc c), r) t go = with_abbrev (read (suc (length r.bytes)) (suc c) r) t go

unfoldable pub abbrevs_loop : ℕ → Abbrevs → Reader → Loaded
abbrevs_loop zero t r = stuck
abbrevs_loop (suc fuel) t r = with_code (read_uleb128 r) t (abbrevs_loop fuel)

-- `read_abbrevs`: the result of `seek` is not looked at.
unfoldable pub read_abbrevs : ℕ → Reader → Loaded
read_abbrevs abbrevs_offset r = abbrevs_loop (suc (length r.bytes)) [] (seek abbrevs_offset r).1

unfoldable pub get_abbrev : ℕ → Abbrevs → Option Abbrev
get_abbrev code t = elim (get_elem? t code) [ none ↦ none | some a ↦ a ]
