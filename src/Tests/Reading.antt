-- ===== src/Tests/Reading.antt =====
-- Inputs for Dwarf.Reader: np/spiegel/dwarf/reader.hxx.
use novaprova.Prelude.{◌<◌, ◌≡◌, ◌≢◌, refl, false, some, [], ◌∷◌, ◌++◌, arith}
use novaprova.Dwarf.Reader.{Reader, rest, advance, read_u8, read_uleb128, read_sleb128}
use novaprova.Dwarf.Reader.Moves.{Moves}
use novaprova.Dwarf.Reader.Calls.{
  Call, skips, u8, initial_length, call, count, call-Moves, call_refused,
}
use novaprova.Dwarf.Reader.Leb.{
  group_bytes, group_value, signed_pattern, last_group, read_uleb128-group_bytes,
  read_sleb128-group_bytes,
}

-- 624485 in ULEB128, and a byte more.
abbrev number : Reader
number = record { base = 4096; bytes = 0xe5 ∷ 0x8e ∷ 0x26 ∷ 0 ∷ []; offset = 0; is64 = false }

call-Moves_example : Moves number (call (skips 3) number).1
unfolding count
call-Moves_example = call-Moves (skips 3) number (λ n. cc) (omega arith) (omega arith)

abbrev at_end : Reader
at_end = record { base = 4096; bytes = 0 ∷ []; offset = 1; is64 = false }

at_end_refused : (call u8 at_end).0 ≡ false
unfolding call read_u8
at_end_refused = refl

u8_not_initial : Call.u8 ≢ initial_length
u8_not_initial = cc

call_refused_example : (call u8 at_end).1 ≡ at_end
call_refused_example = call_refused u8 at_end u8_not_initial at_end_refused

number_groups : rest number ≡ group_bytes 0x65 (0x0e ∷ 0x26 ∷ []) ++ 0 ∷ []
unfolding group_bytes
number_groups = refl

number_value : group_value 0x65 (0x0e ∷ 0x26 ∷ []) ≡ 624485
unfolding group_value
number_value = refl

number_fits : group_value 0x65 (0x0e ∷ 0x26 ∷ []) < 4294967296
number_fits = omega (arith, number_value)

read_uleb128-group_bytes_example :
    read_uleb128 number ≡ (some (group_value 0x65 (0x0e ∷ 0x26 ∷ [])), advance 3 number)
read_uleb128-group_bytes_example =
    read_uleb128-group_bytes number 0x65 (0x0e ∷ 0x26 ∷ []) (0 ∷ []) (omega arith)
      (omega arith, (omega arith, _)) (omega arith) number_fits number_groups

-- -129
abbrev minus_129 : Reader
minus_129 = record { base = 4096; bytes = 0xff ∷ 0x7e ∷ 0 ∷ []; offset = 0; is64 = false }

minus_129_groups : rest minus_129 ≡ group_bytes 0x7f (0x7e ∷ []) ++ 0 ∷ []
unfolding group_bytes
minus_129_groups = refl

read_sleb128-group_bytes_example :
    read_sleb128 minus_129 ≡ (some (signed_pattern 0x7f (0x7e ∷ [])), advance 2 minus_129)
read_sleb128-group_bytes_example =
    read_sleb128-group_bytes minus_129 0x7f (0x7e ∷ []) (0 ∷ []) (omega arith) (omega arith, _)
      (omega arith) minus_129_groups

minus_129_pattern : signed_pattern 0x7f (0x7e ∷ []) ≡ 4294967167
unfolding last_group group_value
minus_129_pattern = refl
