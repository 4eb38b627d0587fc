-- ===== src/Dwarf/Reader/Words.antt =====
-- `read_u16`, `read_u32` and `read_u64` decode little-endian words.
use novaprova.Prelude.{
  ℕ, zero, suc, ◌+◌, ◌*◌, ◌/◌, ◌%◌, ◌^◌, ◌<◌, ◌≡◌, refl, some, List, [], ◌∷◌, ◌++◌, arith, length,
  length-drop, get_or, drop, ap, ◌∙◌, bit_or,
}
use novaprova.Prelude.Bytes.{le_bytes}
use novaprova.Prelude.Bits.{bit_or_high}
use novaprova.Dwarf.Reader.{Reader, rest, peek, advance, read_u16, read_u32, read_u64}

get_or-drop : (n i : ℕ) (xs : List ℕ) → get_or (drop n xs) i 0 ≡ get_or xs (n + i) 0
get_or-drop zero i xs = ap (λ k. get_or xs k 0) (omega arith)
get_or-drop (suc n) i [] = refl
get_or-drop (suc n) i (x ∷ xs) = ground (arith, get_or-drop n i xs)

-- A word that lies at the cursor is seen byte by byte.
pub peek-rest : (r : Reader) (i : ℕ) (bs : List ℕ) → rest r ≡ bs → peek r i ≡ get_or bs i 0
peek-rest r i bs e = cc (get_or-drop r.offset i r.bytes)

pub within :
    (r : Reader) (n : ℕ) (bs : List ℕ) → rest r ≡ bs → n < length bs → r.offset + n < length r.bytes
within r n bs e h = omega (arith, ap length e, length-drop r.offset r.bytes)

or4 :
    (a b c d : ℕ)
    → a < 256
    → b < 256
    → c < 256
    → bit_or (bit_or (bit_or a (b * 2 ^ 8)) (c * 2 ^ 16)) (d * 2 ^ 24)
      ≡ a + b * 2 ^ 8 + c * 2 ^ 16 + d * 2 ^ 24
or4 a b c d ha hb hc =
    rw (bit_or_high 8 a b ha, bit_or_high 16 (a + b * 2 ^ 8) c (omega arith))
      (bit_or_high 24 (a + b * 2 ^ 8 + c * 2 ^ 16) d (omega arith))

or8 :
    (a b c d e f g h : ℕ)
    → a < 256
    → b < 256
    → c < 256
    → d < 256
    → e < 256
    → f < 256
    → g < 256
    → bit_or
        (bit_or
          (bit_or
            (bit_or (bit_or (bit_or (bit_or a (b * 2 ^ 8)) (c * 2 ^ 16)) (d * 2 ^ 24)) (e * 2 ^ 32))
            (f * 2 ^ 40))
          (g * 2 ^ 48))
        (h * 2 ^ 56)
      ≡ a + b * 2 ^ 8 + c * 2 ^ 16 + d * 2 ^ 24 + e * 2 ^ 32 + f * 2 ^ 40 + g * 2 ^ 48 + h * 2 ^ 56
or8 a b c d e f g h ha hb hc hd he hf hg =
    rw
      (
        or4 a b c d ha hb hc,
        bit_or_high 32 (a + b * 2 ^ 8 + c * 2 ^ 16 + d * 2 ^ 24) e (omega arith),
        bit_or_high 40 (a + b * 2 ^ 8 + c * 2 ^ 16 + d * 2 ^ 24 + e * 2 ^ 32) f (omega arith),
        bit_or_high 48 (a + b * 2 ^ 8 + c * 2 ^ 16 + d * 2 ^ 24 + e * 2 ^ 32 + f * 2 ^ 40) g
            (omega arith),
      )
      (bit_or_high 56 _ h (omega arith))

u16_value : (v : ℕ) → v < 2 ^ 16 → bit_or (v % 256) (v / 256 % 256 * 2 ^ 8) ≡ v
u16_value v h = rw (bit_or_high 8 (v % 256) (v / 256 % 256) (omega arith)) (omega arith)

u32_value :
    (v : ℕ)
    → v < 2 ^ 32
    → bit_or
        (bit_or (bit_or (v % 256) (v / 256 % 256 * 2 ^ 8)) (v / 256 / 256 % 256 * 2 ^ 16))
        (v / 256 / 256 / 256 % 256 * 2 ^ 24)
      ≡ v
u32_value v h =
    or4 _ _ _ (v / 256 / 256 / 256 % 256) (omega arith) (omega arith) (omega arith) ∙ omega arith

-- A 32-bit word that lies at the cursor is read, and the cursor stands behind it.
pub read_u32-le_bytes :
    (r : Reader) (v : ℕ) (more : List ℕ)
    → v < 2 ^ 32
    → rest r ≡ le_bytes 4 v ++ more
    → read_u32 r ≡ (some v, advance 4 r)
unfolding read_u32
read_u32-le_bytes r v more hv h =
    rw (peek-rest r 0 _ h, peek-rest r 1 _ h, peek-rest r 2 _ h, peek-rest r 3 _ h)
      (ground (arith, u32_value v hv, within r 3 _ h (omega arith)))

pub read_u16-le_bytes :
    (r : Reader) (v : ℕ) (more : List ℕ)
    → v < 2 ^ 16
    → rest r ≡ le_bytes 2 v ++ more
    → read_u16 r ≡ (some v, advance 2 r)
unfolding read_u16
read_u16-le_bytes r v more hv h =
    rw (peek-rest r 0 _ h, peek-rest r 1 _ h)
      (ground (arith, u16_value v hv, within r 1 _ h (omega arith)))

u64_value :
    (v : ℕ)
    → v < 2 ^ 64
    → bit_or
        (bit_or
          (bit_or
            (bit_or
              (bit_or
                (bit_or (bit_or (v % 256) (v / 256 % 256 * 2 ^ 8)) (v / 256 / 256 % 256 * 2 ^ 16))
                (v / 256 / 256 / 256 % 256 * 2 ^ 24))
              (v / 256 / 256 / 256 / 256 % 256 * 2 ^ 32))
            (v / 256 / 256 / 256 / 256 / 256 % 256 * 2 ^ 40))
          (v / 256 / 256 / 256 / 256 / 256 / 256 % 256 * 2 ^ 48))
        (v / 256 / 256 / 256 / 256 / 256 / 256 / 256 % 256 * 2 ^ 56)
      ≡ v
u64_value v h =
    or8 _ _ _ _ _ _ _ (v / 256 / 256 / 256 / 256 / 256 / 256 / 256 % 256) (omega arith)
      (omega arith) (omega arith) (omega arith) (omega arith) (omega arith) (omega arith)
    ∙ omega arith

-- A 64-bit word that lies at the cursor is read, and the cursor stands behind it.
pub read_u64-le_bytes :
    (r : Reader) (v : ℕ) (more : List ℕ)
    → v < 2 ^ 64
    → rest r ≡ le_bytes 8 v ++ more
    → read_u64 r ≡ (some v, advance 8 r)
unfolding read_u64
read_u64-le_bytes r v more hv h =
    rw
      (
        peek-rest r 0 _ h,
        peek-rest r 1 _ h,
        peek-rest r 2 _ h,
        peek-rest r 3 _ h,
        peek-rest r 4 _ h,
        peek-rest r 5 _ h,
        peek-rest r 6 _ h,
        peek-rest r 7 _ h,
      )
      (ground (arith, u64_value v hv, within r 7 _ h (omega arith)))
