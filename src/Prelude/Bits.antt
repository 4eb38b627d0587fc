-- ===== src/Prelude/Bits.antt =====
-- Laws of the bit operations that the byte-level code uses, as arithmetic.
use Prim.Native.Nat.{
  ℕ, zero, suc, ◌+◌, ◌*◌, ◌/◌, ◌%◌, ◌^◌, ◌≤◌, ◌<◌, max, bit_and, bit_or, digits, bit_or-bitwise,
}
use mathlib.Core.Path.{◌≡◌, refl, sym, ap, ◌∙◌, subst}
use mathlib.Core.Logic.{◌⊎◌, inl, inr}
use native.Mathlib.Nat.{pow-suc}
use mathlib.Core.Bool.{Bool, true, ◌&&◌}
use native.Mathlib.Omega.{arith}
use novaprova.Prelude.Tests.{◌==◌, ==_iff}

up_to : (n x : ℕ) → x ≤ suc n → (x ≤ n) ⊎ (x ≡ suc n)
up_to n x fits = ground arith

-- Does a test hold of every byte up to `last`?
holds_to : (ℕ → Bool) → ℕ → Bool
holds_to test zero = test 0
holds_to test (suc last) = holds_to test last && test (suc last)

holds_to-at :
    (test : ℕ → Bool) (last byte : ℕ) → byte ≤ last → holds_to test last ≡ true → test byte ≡ true
unfolding holds_to
holds_to-at test zero zero within all = all
holds_to-at test zero (suc byte) within all = absurd (omega arith)
holds_to-at test (suc last) byte within all =
    ground (arith, up_to last byte within, holds_to-at test last byte)

low_table : holds_to (λ b. bit_and b 0x7f == b % 128) 255 ≡ true
unfolding holds_to
low_table = refl

top_table : holds_to (λ b. bit_and b 0x80 == b / 128 * 128) 255 ≡ true
unfolding holds_to
top_table = refl

sign_table : holds_to (λ b. bit_and b 0x40 == b / 64 % 2 * 64) 255 ≡ true
unfolding holds_to
sign_table = refl

-- `b & 0x7f`, `b & 0x80` and `b & 0x40` of a byte.
pub low_bits : (b : ℕ) → b < 256 → bit_and b 0x7f ≡ b % 128
low_bits b h = (==_iff _ _).0 (holds_to-at _ 255 b (omega arith) low_table)

pub top_bit : (b : ℕ) → b < 256 → bit_and b 0x80 ≡ b / 128 * 128
top_bit b h = (==_iff _ _).0 (holds_to-at _ 255 b (omega arith) top_table)

pub sign_bit : (b : ℕ) → b < 256 → bit_and b 0x40 ≡ b / 64 % 2 * 64
sign_bit b h = (==_iff _ _).0 (holds_to-at _ 255 b (omega arith) sign_table)

abbrev or_rounds : ℕ → ℕ → ℕ → ℕ
or_rounds rounds x y = digits (λ high. high) max rounds x y

-- One round more than `x` needs changes nothing.
idle_round : (rounds x y : ℕ) → x ≤ rounds → or_rounds (suc rounds) x y ≡ or_rounds rounds x y
idle_round zero zero y fits = refl
idle_round (suc rounds) zero y fits = refl
idle_round zero (suc x) y fits = absurd (omega arith)
idle_round (suc rounds) (suc x) y fits =
    omega (arith, idle_round rounds (suc x / 2) (y / 2) (omega arith))

-- So `x | y` comes out with any number of rounds from `x` on.
bit_or-rounds : (rounds x y : ℕ) → x ≤ rounds → bit_or x y ≡ or_rounds rounds x y
bit_or-rounds zero zero y fits = bit_or-bitwise 0 y
bit_or-rounds zero (suc x) y fits = absurd (omega arith)
bit_or-rounds (suc rounds) x y fits = elim (up_to rounds x fits) [
  | inl less ↦ bit_or-rounds rounds x y less ∙ sym (idle_round rounds x y less)
  | inr full ↦ subst (λ n. bit_or x y ≡ or_rounds n x y) full (bit_or-bitwise x y)
]

halve_or : (x y : ℕ) → max (x % 2) (y % 2) + 2 * bit_or (x / 2) (y / 2) ≡ bit_or x y
halve_or zero y = omega (arith, bit_or-bitwise 0 (y / 2), bit_or-bitwise 0 y)
halve_or (suc x) y =
    omega (arith, bit_or-rounds x (suc x / 2) (y / 2) (omega arith), bit_or-bitwise (suc x) y)

shift_up : (field width : ℕ) → 2 * (field * 2 ^ width) ≡ field * 2 ^ suc width
shift_up field width = omega (arith, ap (λ (power : ℕ). field * power) (pow-suc 2 width))

-- A field above `width` low bits: or-ing it in adds it.
pub bit_or_high :
    (width x field : ℕ) → x < 2 ^ width → bit_or x (field * 2 ^ width) ≡ x + field * 2 ^ width
bit_or_high zero (suc x) field fits = absurd (omega arith)
bit_or_high zero zero field fits = bit_or-bitwise 0 (field * 2 ^ 0) ∙ omega arith
bit_or_high (suc width) x field fits = ground (
  arith,
  bit_or_high width (x / 2) field,
  halve_or x (field * 2 ^ suc width),
  shift_up field width,
  pow-suc 2 width,
)
