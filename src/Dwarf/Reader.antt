-- ===== src/Dwarf/Reader.antt =====
-- np/spiegel/dwarf/reader.hxx: the cursor `reader_t` over a section of bytes.
-- `bytes` is the memory from `base_` to `end_`, `offset` is `p_ - base_` in 64 bits, and `base` is
-- the address `base_`. A method that returns bool and writes an out parameter is a function in the
-- state monad `M`: the value is there exactly when the source returns true, and the reader is handed
-- on in both cases.
-- `p_ + n` wraps around for a count n that a caller gives, so that the cursor may come to stand
-- before where it was; a section ends so far below 2^64 that `p_ + 8` does not wrap. Memory outside
-- the section is not in the model: where the cursor has left it, the reads that follow refuse.
-- `_NP_ADDRSIZE` is 8, as on every 64-bit platform. A shift by 32 or more is undefined in C++; it is
-- taken as x86 computes it, with the count modulo 32. Signed values (`int8_t`, `int32_t`) are their
-- bit patterns.
pub mod Moves
pub mod Calls
pub mod Words
pub mod Leb
use novaprova.Prelude.{
  ℕ, suc, ◌+◌, ◌-◌, ◌*◌, ◌%◌, ◌^◌, Bool, true, false, not, ◌&&◌, Option, none, some, List, [], ◌∷◌,
  ltb, leb, ◌==◌, if◌then◌else◌, length, get_or, take, drop, bit_and, bit_or,
}

pub record Reader : Type 0 where
  pub base : ℕ
  pub bytes : List ℕ
  pub offset : ℕ
  pub is64 : Bool

-- A method's answer, and the reader after it.
abbrev pub M : Type 0 → Type 0
M A = Reader → Option A × Reader

abbrev pub and_then : {A B : Type 0} → Option A × Reader → (A → M B) → Option B × Reader
and_then (none, r) f = (none, r)
and_then (some a, r) f = f a r

infixl 5 ◌>>=◌ ◌>>◌
abbrev pub ◌>>=◌ : {A B : Type 0} → M A → (A → M B) → M B
◌>>=◌ m f r = and_then (m r) f

abbrev pub ◌>>◌ : {A B : Type 0} → M A → M B → M B
m >> k = m >>= λ _. k

abbrev pub return : {A : Type 0} → A → M A
return a r = (some a, r)

abbrev pub refuse : {A : Type 0} → M A
refuse r = (none, r)

-- The reader with `p_ += n`.
abbrev pub advance : ℕ → Reader → Reader
advance n r = record r { offset = r.offset + n }

-- `p_[i]`
abbrev pub peek : Reader → ℕ → ℕ
peek r i = get_or r.bytes (r.offset + i) 0

-- The bytes from `p_` to `end_`.
abbrev pub rest : Reader → List ℕ
rest r = drop r.offset r.bytes

abbrev pub get_remains : Reader → ℕ
get_remains r = length r.bytes - r.offset

unfoldable pub open_reader : ℕ → List ℕ → Bool → Reader
open_reader base bytes b = record { base = base; bytes = bytes; offset = 0; is64 = b }

unfoldable pub initial_subset : Reader → ℕ → Reader
unfolding open_reader
initial_subset r len =
    open_reader (r.base + r.offset)
      (take (if ltb (get_remains r) len then get_remains r else len) (rest r)) r.is64

-- `base_ + o <= end_` for an offset o that may have wrapped.
abbrev pub is_inside : Reader → ℕ → Bool
is_inside r o = leb ((r.base + o) % 2 ^ 64) (r.base + length r.bytes)

-- The first test is the second one, for a section that ends below 2^64 and an n that does not wrap.
unfoldable pub seek : ℕ → M (Unit {0})
seek n r =
    if leb n (length r.bytes)
    then (some tt, record r { offset = n })
    else (if is_inside r n then (some tt, record r { offset = n % 2 ^ 64 }) else (none, r))

unfoldable pub skip : ℕ → M (Unit {0})
skip n r =
    if leb (r.offset + n) (length r.bytes)
    then (some tt, advance n r)
    else (if is_inside r (r.offset + n)
        then (some tt, record r { offset = (r.offset + n) % 2 ^ 64 })
        else (none, r))

unfoldable pub read_u32 : M ℕ
read_u32 r = if ltb (length r.bytes) (r.offset + 4) then (none, r) else (
  some (
      bit_or (bit_or (bit_or (peek r 0) (peek r 1 * 2 ^ 8)) (peek r 2 * 2 ^ 16))
        (peek r 3 * 2 ^ 24)),
  advance 4 r,
)

unfoldable pub read_u64 : M ℕ
read_u64 r =
    let low =
      bit_or (bit_or (bit_or (peek r 0) (peek r 1 * 2 ^ 8)) (peek r 2 * 2 ^ 16))
        (peek r 3 * 2 ^ 24) in
    if ltb (length r.bytes) (r.offset + 8) then (none, r) else (
      some (
          bit_or
            (bit_or (bit_or (bit_or low (peek r 4 * 2 ^ 32)) (peek r 5 * 2 ^ 40))
              (peek r 6 * 2 ^ 48))
            (peek r 7 * 2 ^ 56)),
      advance 8 r,
    )

unfoldable pub read_addr : M ℕ
unfolding read_u64
read_addr = read_u64

unfoldable pub read_offset : M ℕ
unfolding read_u64 read_u32
read_offset r = if r.is64 then read_u64 r else read_u32 r

unfoldable pub skip_offset : M (Unit {0})
unfolding skip
skip_offset r = if r.is64 then skip 8 r else skip 4 r

-- `v << s` in 32 bits.
abbrev pub shl32 : ℕ → ℕ → ℕ
shl32 v s = v * 2 ^ (s % 32) % 2 ^ 32

-- What the loop of `read_uleb128` and `read_sleb128` leaves: `vv`, `shift`, the number of bytes
-- taken and the last of them, `pp[-1]`.
pub record Groups : Type 0 where
  pub value : ℕ
  pub shift : ℕ
  pub count : ℕ
  pub last : ℕ

-- `vv |= ((*pp) & 0x7f) << shift` and `shift += 7`.
abbrev pub add_group : ℕ → ℕ → ℕ → ℕ
add_group vv b shift = bit_or vv (shl32 (bit_and b 0x7f) shift)

abbrev pub next_shift : ℕ → ℕ
next_shift shift = (shift + 7) % 2 ^ 32

-- The list is what lies between `pp` and `end_`.
unfoldable pub leb_groups : List ℕ → ℕ → ℕ → ℕ → Option Groups
leb_groups [] vv shift n = none
leb_groups (b ∷ bs) vv shift n =
    let more = leb_groups bs (add_group vv b shift) (next_shift shift) (n + 1) in
    if bit_and b 0x80 == 0
    then some
        (record { value = add_group vv b shift; shift = next_shift shift; count = n + 1; last = b })
    else more

unfoldable pub read_uleb128 : M ℕ
read_uleb128 r = elim (leb_groups (rest r) 0 0 0) [
  | none ↦ (none, r)
  | some g ↦ (some g.value, advance g.count r)
]

-- The sign is extended from the last encoded bit.
unfoldable pub sign_extend : Groups → ℕ
sign_extend g =
    if bit_and g.last 0x40 == 0 then g.value else bit_or g.value (shl32 (2 ^ 32 - 1) g.shift)

unfoldable pub read_sleb128 : M ℕ
read_sleb128 r = elim (leb_groups (rest r) 0 0 0) [
  | none ↦ (none, r)
  | some g ↦ (some (sign_extend g), advance g.count r)
]

-- The loop of `skip_uleb128` and `skip_sleb128`: the number of bytes passed.
unfoldable pub leb_length : List ℕ → ℕ → Option ℕ
leb_length [] n = none
leb_length (b ∷ bs) n =
    let more = leb_length bs (n + 1) in if bit_and b 0x80 == 0 then some (n + 1) else more

unfoldable pub skip_uleb128 : M (Unit {0})
skip_uleb128 r = elim (leb_length (rest r) 0) [ none ↦ (none, r) | some n ↦ (some tt, advance n r) ]

unfoldable pub read_u16 : M ℕ
read_u16 r =
    if ltb (length r.bytes) (r.offset + 2)
    then (none, r)
    else (some (bit_or (peek r 0) (peek r 1 * 2 ^ 8)), advance 2 r)

unfoldable pub read_u8 : M ℕ
read_u8 r = if leb (length r.bytes) r.offset then (none, r) else (some (peek r 0), advance 1 r)

unfoldable pub read_s8 : M ℕ
read_s8 r = if leb (length r.bytes) r.offset then (none, r) else (some (peek r 0), advance 1 r)

-- `memchr(p_, '\0', …)` as an index.
unfoldable pub find_nul : List ℕ → Option ℕ
find_nul [] = none
find_nul (b ∷ bs) =
    let more : Option ℕ = elim (find_nul bs) [ none ↦ none | some i ↦ some (i + 1) ] in
    if b == 0 then some 0 else more

-- The string that `v` points at, without its NUL.
unfoldable pub read_string : M (List ℕ)
read_string r = elim (find_nul (rest r)) [
  | none ↦ (none, r)
  | some i ↦ (some (take i (rest r)), advance (i + 1) r)
]

unfoldable pub skip_string : M (Unit {0})
skip_string r = elim (find_nul (rest r)) [
  | none ↦ (none, r)
  | some i ↦ (some tt, advance (i + 1) r)
]

-- The guard is `e >= end_`, not `e > end_`. The tests are in the order of `skip`. Of the
-- bytes that `v` points at, those of the section.
unfoldable pub read_bytes : ℕ → M (List ℕ)
read_bytes len r =
    if ltb (r.offset + len) (length r.bytes)
    then (some (take len (rest r)), advance len r)
    else (if not (r.offset + len == length r.bytes)
          && ltb ((r.base + (r.offset + len)) % 2 ^ 64) (r.base + length r.bytes)
        then (some (take len (rest r)), record r { offset = (r.offset + len) % 2 ^ 64 })
        else (none, r))

-- The tests of `read_initial_length` on the first word: the length, and whether the section is in
-- the 64-bit format.
unfoldable pub check_length : ℕ → M (ℕ × Bool)
unfolding read_u64
check_length len =
    if len == 0xffffffff
    then (read_u64 >>= λ len64. return (len64, true))
    else (if leb 0xfffffff0 len then refuse else return (len, false))

unfoldable pub read_initial_length : M (ℕ × Bool)
unfolding read_u32 check_length
read_initial_length = do len ← read_u32; check_length len

-- The 32-bit word as a 64-bit one, and the skips that are other calls. `skip_sleb128` is written
-- out as `skip_uleb128` is.
unfoldable pub read_u32_wide : M ℕ
unfolding read_u32
read_u32_wide = do v ← read_u32; return v

unfoldable pub skip_u32 : M (Unit {0})
unfolding skip
skip_u32 = skip 4

unfoldable pub skip_u64 : M (Unit {0})
unfolding skip
skip_u64 = skip 8

unfoldable pub skip_addr : M (Unit {0})
unfolding skip_u64
skip_addr = skip_u64

unfoldable pub skip_u16 : M (Unit {0})
unfolding skip
skip_u16 = skip 2

unfoldable pub skip_u8 : M (Unit {0})
unfolding skip
skip_u8 = skip 1

unfoldable pub skip_s8 : M (Unit {0})
unfolding skip
skip_s8 = skip 1

unfoldable pub skip_bytes : ℕ → M (Unit {0})
unfolding skip
skip_bytes len = skip len

unfoldable pub skip_sleb128 : M (Unit {0})
skip_sleb128 r = elim (leb_length (rest r) 0) [ none ↦ (none, r) | some n ↦ (some tt, advance n r) ]
