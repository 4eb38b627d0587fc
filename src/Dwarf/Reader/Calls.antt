-- ===== src/Dwarf/Reader/Calls.antt =====
-- Histories of calls of reader.hxx, as a client of `reader_t` makes them.
use novaprova.Prelude.{
  ℕ, ◌+◌, ◌^◌, ◌-◌, ◌%◌, ◌≤◌, ◌≡◌, ◌≢◌, ◌↔◌, ◌<◌, refl, Bool, true, false, Option, none, some, List,
  [], ◌∷◌, arith, length,
}
use novaprova.Dwarf.Reader.{
  Reader, rest, skip, read_u32, read_u64, read_addr, read_offset, skip_offset, read_uleb128,
  skip_uleb128, read_sleb128, read_u16, read_u8, read_s8, read_string, skip_string, read_bytes,
  read_initial_length, seek,
}
use novaprova.Dwarf.Reader.Moves.{
  IsValid, Moves, skip-Moves, read_u8-Moves, read_u16-Moves, read_u32-Moves, read_u64-Moves,
  read_uleb128-Moves, read_sleb128-Moves, skip_uleb128-Moves, read_string-Moves, skip_string-Moves,
  read_bytes-Moves, read_initial_length-Moves, leb_length-leb_groups,
}

pub data Call : Type 0 where
  seeks skips takes_bytes : ℕ → Call
  u8 s8 u16 u32 u64 address offset_field skips_offset : Call
  uleb128 sleb128 skips_leb128 string skips_string initial_length : Call

-- What the method returns, and the reader after it.
abbrev success : {A : Type 0} → Option A × Reader → Bool × Reader
success (none, r) = (false, r)
success (some a, r) = (true, r)

unfoldable pub call : Call → Reader → Bool × Reader
unfolding read_addr read_offset skip_offset read_s8 read_u8
call (seeks n) r = success (seek n r)
call (skips n) r = success (skip n r)
call (takes_bytes n) r = success (read_bytes n r)
call u8 r = success (read_u8 r)
call s8 r = success (read_s8 r)
call u16 r = success (read_u16 r)
call u32 r = success (read_u32 r)
call u64 r = success (read_u64 r)
call address r = success (read_addr r)
call offset_field r = success (read_offset r)
call skips_offset r = success (skip_offset r)
call uleb128 r = success (read_uleb128 r)
call sleb128 r = success (read_sleb128 r)
call skips_leb128 r = success (skip_uleb128 r)
call string r = success (read_string r)
call skips_string r = success (skip_string r)
call initial_length r = success (read_initial_length r)

-- The reader after a history of calls.
unfoldable pub run : List Call → Reader → Reader
run [] r = r
run (c ∷ cs) r = run cs (call c r).1

success_reader : {A : Type 0} (p : Option A × Reader) → (success p).1 ≡ p.1
success_reader (none, r) = refl
success_reader (some a, r) = refl

-- How many bytes a call asks for by a count.
unfoldable pub count : Call → ℕ
count (seeks n) = 0
count (skips n) = n
count (takes_bytes n) = n
count skips_offset = 8
count u8 = 0
count s8 = 0
count u16 = 0
count u32 = 0
count u64 = 0
count address = 0
count offset_field = 0
count uleb128 = 0
count sleb128 = 0
count skips_leb128 = 0
count string = 0
count skips_string = 0
count initial_length = 0

-- Every call but `seek` moves the cursor of a valid reader forwards at most to the section's end,
-- and keeps the section and the format, if the count that it is given does not wrap the pointer
-- around.
pub call-Moves :
    (c : Call) (r : Reader)
    → ((n : ℕ) → c ≢ seeks n)
    → IsValid r
    → r.base + r.offset + count c < 2 ^ 64
    → Moves r (call c r).1
unfolding call count
call-Moves (seeks n) r h v s = absurd (h n refl)
call-Moves (skips n) r h v s = rw success_reader (skip-Moves r v n s)
call-Moves (takes_bytes n) r h v s = rw success_reader (read_bytes-Moves r v n s)
call-Moves u8 r h v s = rw success_reader (read_u8-Moves r v)
call-Moves s8 r h v s = ground arith
call-Moves u16 r h v s = rw success_reader (read_u16-Moves r v)
call-Moves u32 r h v s = rw success_reader (read_u32-Moves r v)
call-Moves u64 r h v s = rw success_reader (read_u64-Moves r v)
call-Moves address r h v s = rw success_reader (read_u64-Moves r v)
call-Moves offset_field r h v s = ground (arith, read_u64-Moves r v, read_u32-Moves r v)
call-Moves skips_offset r h v s =
    ground (arith, skip-Moves r v 8 (omega arith), skip-Moves r v 4 (omega arith))
call-Moves uleb128 r h v s = rw success_reader (read_uleb128-Moves r v)
call-Moves sleb128 r h v s = rw success_reader (read_sleb128-Moves r v)
call-Moves skips_leb128 r h v s = rw success_reader (skip_uleb128-Moves r v)
call-Moves string r h v s = rw success_reader (read_string-Moves r v)
call-Moves skips_string r h v s = rw success_reader (skip_string-Moves r v)
call-Moves initial_length r h v s = rw success_reader (read_initial_length-Moves r v)

-- A count of 2^64 - k, k at most the bytes before the cursor, is no refusal: it moves the cursor k
-- bytes back.
pub skip-back :
    (r : Reader) (k : ℕ)
    → IsValid r
    → r.base + length r.bytes < 2 ^ 64
    → 0 < k
    → k ≤ r.offset
    → skip (2 ^ 64 - k) r ≡ (some tt, record r { offset = r.offset - k })
unfolding skip
skip-back r k v small some_byte before =
    let around : (r.offset + (2 ^ 64 - k)) % 2 ^ 64 ≡ r.offset - k = omega arith in
    let address : (r.base + (r.offset + (2 ^ 64 - k))) % 2 ^ 64 ≡ r.base + (r.offset - k) =
      omega arith in
    ground (arith, around, address)

-- A call that returns false leaves the cursor where it was. `read_initial_length` may have passed
-- a first word.
pub call_refused :
    (c : Call) (r : Reader) → c ≢ initial_length → (call c r).0 ≡ false → (call c r).1 ≡ r
unfolding call
call_refused initial_length r h e = absurd (h refl)
call_refused (seeks n) r h e = unfold seek in ground arith
call_refused (skips n) r h e = unfold skip in ground arith
call_refused (takes_bytes n) r h e = unfold read_bytes in ground arith
call_refused u8 r h e = unfold read_u8 in ground arith
call_refused s8 r h e = ground arith
call_refused u16 r h e = unfold read_u16 in ground arith
call_refused u32 r h e = unfold read_u32 in ground arith
call_refused u64 r h e = unfold read_u64 in ground arith
call_refused address r h e = ground arith
call_refused offset_field r h e = unfold read_u64 read_u32 in ground arith
call_refused skips_offset r h e = unfold skip in ground arith
call_refused uleb128 r h e = unfold read_uleb128 in ground arith
call_refused sleb128 r h e = unfold read_sleb128 in ground arith
call_refused skips_leb128 r h e = unfold skip_uleb128 in ground arith
call_refused string r h e = unfold read_string in ground arith
call_refused skips_string r h e = unfold skip_string in ground arith

-- Each skip ends where the read that it stands for ends, and fails exactly when that fails, in a
-- section that ends 8 bytes before 2^64.
pub skips-reads :
    (r : Reader)
    → r.base + r.offset + 8 < 2 ^ 64
    → (call skips_leb128 r ≡ call uleb128 r)
      × (call skips_leb128 r ≡ call sleb128 r)
      × (call skips_string r ≡ call string r)
      × (call skips_offset r ≡ call offset_field r)
unfolding call skip_uleb128 read_uleb128 read_sleb128 read_string skip_string skip read_u32 read_u64
skips-reads r small = (
  ground (arith, leb_length-leb_groups (rest r) 0 0 0),
  ground (arith, leb_length-leb_groups (rest r) 0 0 0),
  ground arith,
  ground (arith, small),
)

-- `skip_bytes` passes any number of bytes up to the end; `read_bytes` reads them only if another
-- byte follows; where the count does not wrap the pointer around.
pub takes_bytes_short :
    (n : ℕ) (r : Reader)
    → r.base + r.offset + n < 2 ^ 64
    → ((call (skips n) r).0 ≡ true ↔ (r.offset + n ≤ length r.bytes))
      × ((call (takes_bytes n) r).0 ≡ true ↔ (r.offset + n < length r.bytes))
unfolding call skip read_bytes
takes_bytes_short n r small = ground (arith, small)
