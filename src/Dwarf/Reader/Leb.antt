-- ===== src/Dwarf/Reader/Leb.antt =====
-- `read_uleb128` and `read_sleb128` decode what a DWARF producer writes: groups of seven bits,
-- lowest first, with the top bit set on every byte but the last.
use novaprova.Prelude.{
  ℕ, ◌+◌, ◌-◌, ◌*◌, ◌%◌, ◌^◌, ◌≤◌, ◌<◌, ◌≡◌, some, List, [], ◌∷◌, ◌++◌, arith, length, All, ap, ltb,
  if◌then◌else◌,
}
use novaprova.Prelude.Bits.{bit_or_high, low_bits, top_bit, sign_bit}
use novaprova.Dwarf.Reader.{
  Reader, Groups, rest, advance, shl32, add_group, leb_groups, sign_extend, read_uleb128,
  read_sleb128,
}
use native.Mathlib.Nat.{mod-eq_of_lt}
use native.Mathlib.Numerals.{towards_suc}

-- The bytes that encode the groups `g ∷ gs`.
unfoldable pub group_bytes : ℕ → List ℕ → List ℕ
group_bytes g [] = g ∷ []
group_bytes g (h ∷ gs) = (g + 128) ∷ group_bytes h gs

-- The number that the groups stand for.
unfoldable pub group_value : ℕ → List ℕ → ℕ
group_value g [] = g
group_value g (h ∷ gs) = g + 128 * group_value h gs

unfoldable pub last_group : ℕ → List ℕ → ℕ
last_group g [] = g
last_group g (h ∷ gs) = last_group h gs

abbrev pub IsGroup : ℕ → Type 0
IsGroup g = g < 128

add_group-value :
    (acc b shift : ℕ)
    → b < 256
    → shift < 32
    → acc < 2 ^ shift
    → b % 128 * 2 ^ shift < 2 ^ 32
    → add_group acc b shift ≡ acc + b % 128 * 2 ^ shift
add_group-value acc b shift hb hs ha hv =
    rw (low_bits b hb, mod-eq_of_lt hs, mod-eq_of_lt hv) (bit_or_high shift acc (b % 128) ha)

pow_seven : (s : ℕ) → 2 ^ (s + 7) ≡ 128 * 2 ^ s
pow_seven s = simp towards_suc (omega arith)

split_groups : (g v s : ℕ) → (g + 128 * v) * 2 ^ s ≡ g * 2 ^ s + v * 2 ^ (s + 7)
split_groups g v s = omega (arith, ap (λ (t : ℕ). v * t) (pow_seven s))

below_next : (acc g s : ℕ) → acc < 2 ^ s → g < 128 → acc + g * 2 ^ s < 2 ^ (s + 7)
below_next acc g s ha hg = rw (pow_seven s) (grind arith)

-- The loop over an encoding, from any state that it can be in before a byte of five or fewer.
leb_groups-group_bytes :
    (gs : List ℕ) (g acc shift n : ℕ) (more : List ℕ)
    → IsGroup g
    → All IsGroup gs
    → shift + 7 * length gs ≤ 28
    → acc < 2 ^ shift
    → acc + group_value g gs * 2 ^ shift < 2 ^ 32
    → leb_groups (group_bytes g gs ++ more) acc shift n
      ≡ some (record {
        value = acc + group_value g gs * 2 ^ shift;
        shift = shift + 7 * length gs + 7;
        count = n + length gs + 1;
        last = last_group g gs;
      })
unfolding leb_groups group_bytes group_value last_group
leb_groups-group_bytes [] g acc shift n more hg hgs hs ha hv =
    ground (arith, top_bit g, add_group-value acc g shift)
leb_groups-group_bytes (h ∷ gs) g acc shift n more hg hgs hs ha hv = ground (
  arith,
  top_bit (g + 128),
  split_groups g (group_value h gs) shift,
  add_group-value acc (g + 128) shift,
  below_next acc g shift ha hg,
  leb_groups-group_bytes gs h (acc + g * 2 ^ shift) (shift + 7) (n + 1) more hgs.0 hgs.1,
)

-- A number of at most five groups that fits 32 bits is read whole, padded encodings included, and
-- the cursor stands behind its last byte.
pub read_uleb128-group_bytes :
    (r : Reader) (g : ℕ) (gs more : List ℕ)
    → IsGroup g
    → All IsGroup gs
    → length gs ≤ 4
    → group_value g gs < 2 ^ 32
    → rest r ≡ group_bytes g gs ++ more
    → read_uleb128 r ≡ (some (group_value g gs), advance (length gs + 1) r)
unfolding read_uleb128
read_uleb128-group_bytes r g gs more hg hgs hl hv e =
    rw
      (
        e,
        leb_groups-group_bytes gs g 0 0 0 more hg hgs (omega arith) (omega arith) (omega arith),
        read_uleb128,
      )
      (ground arith)

-- What the groups stand for in two's complement, as a 32-bit pattern.
abbrev pub signed_pattern : ℕ → List ℕ → ℕ
signed_pattern g gs =
    if ltb (last_group g gs) 64
    then group_value g gs
    else group_value g gs + 2 ^ 32 - 2 ^ (7 * (length gs + 1))

last_group-IsGroup : (g : ℕ) (gs : List ℕ) → IsGroup g → All IsGroup gs → IsGroup (last_group g gs)
unfolding last_group
last_group-IsGroup g [] hg hgs = hg
last_group-IsGroup g (h ∷ gs) hg hgs = last_group-IsGroup h gs hgs.0 hgs.1

sign_extend-value :
    (raw s q n last : ℕ)
    → last < 128
    → raw < 2 ^ s
    → shl32 (2 ^ 32 - 1) s ≡ q * 2 ^ s
    → sign_extend (record { value = raw; shift = s; count = n; last = last })
      ≡ (if ltb last 64 then raw else raw + q * 2 ^ s)
unfolding sign_extend
sign_extend-value raw s q n last hl hr e = ground (arith, sign_bit last, bit_or_high s raw q hr)

groups_at : ℕ → List ℕ → Groups
groups_at g gs = record {
  value = group_value g gs;
  shift = 7 * length gs + 7;
  count = length gs + 1;
  last = last_group g gs;
}

sign_extend-groups :
    (g : ℕ) (gs : List ℕ)
    → IsGroup g
    → All IsGroup gs
    → length gs ≤ 3
    → sign_extend (groups_at g gs) ≡ signed_pattern g gs
unfolding groups_at group_value last_group
sign_extend-groups g [] hg hgs hl = ground (arith, sign_extend-value g 7 (2 ^ 25 - 1) 1 g hg)
sign_extend-groups g (a ∷ []) hg hgs hl =
    ground (arith, sign_extend-value (g + 128 * a) 14 (2 ^ 18 - 1) 2 a hgs.0)
sign_extend-groups g (a ∷ b ∷ []) hg hgs hl =
    ground (arith, sign_extend-value (g + 128 * (a + 128 * b)) 21 (2 ^ 11 - 1) 3 b hgs.1.0)
sign_extend-groups g (a ∷ b ∷ c ∷ []) hg hgs hl =
    ground
      (arith, sign_extend-value (g + 128 * (a + 128 * (b + 128 * c))) 28 (2 ^ 4 - 1) 4 c hgs.1.1.0)
sign_extend-groups g (a ∷ b ∷ c ∷ d ∷ gs) hg hgs hl = absurd (omega arith)

group_value-lt :
    (g : ℕ) (gs : List ℕ) → IsGroup g → All IsGroup gs → length gs ≤ 3 → group_value g gs < 2 ^ 28
unfolding group_value
group_value-lt g [] hg hgs hl = omega arith
group_value-lt g (a ∷ []) hg hgs hl = omega arith
group_value-lt g (a ∷ b ∷ []) hg hgs hl = omega arith
group_value-lt g (a ∷ b ∷ c ∷ []) hg hgs hl = omega arith
group_value-lt g (a ∷ b ∷ c ∷ d ∷ gs) hg hgs hl = absurd (omega arith)

-- A signed number of at most four groups is read as its two's complement pattern, and the cursor
-- stands behind its last byte.
pub read_sleb128-group_bytes :
    (r : Reader) (g : ℕ) (gs more : List ℕ)
    → IsGroup g
    → All IsGroup gs
    → length gs ≤ 3
    → rest r ≡ group_bytes g gs ++ more
    → read_sleb128 r ≡ (some (signed_pattern g gs), advance (length gs + 1) r)
unfolding read_sleb128 groups_at
read_sleb128-group_bytes r g gs more hg hgs hl e =
    rw
      (
        e,
        leb_groups-group_bytes gs g 0 0 0 more hg hgs (omega arith) (omega arith)
            (omega (arith, group_value-lt g gs hg hgs hl)),
        read_sleb128,
      )
      (ground (arith, sign_extend-groups g gs hg hgs hl))
