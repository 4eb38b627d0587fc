-- ===== src/Dwarf/LineProgram/Special.antt =====
-- The special opcodes as the DWARF standard has a producer choose them, and the extent of a range.
use novaprova.Prelude.{
  ℕ, ◌+◌, ◌-◌, ◌*◌, ◌/◌, ◌%◌, ◌^◌, ◌≤◌, ◌<◌, ◌≡◌, sym, ap, ◌∙◌, ◌↔◌, ◌⊎◌, true, false, arith,
}
use novaprova.Dwarf.Reader.{Reader}
use novaprova.Dwarf.LineProgram.{
  Program, RunState, copies, special_opcode, advance_pc, advance_line, special_opcode_line_advance,
  special_opcode_operation_advance, contains, widen8,
}

adjusted-encoded : (k u w b : ℕ) → k + w * u + b < 256 → (k + w * u + b + 256 - b) % 256 ≡ k + w * u
adjusted-encoded k u w b h = omega arith

row_split : (k u w : ℕ) → k < w → ((k + w * u) % w ≡ k) × ((k + w * u) / w ≡ u)
row_split k u w h = grind arith

below : (a b c : ℕ) → a ≤ b → a * c ≤ b * c
below a b c h = grind arith

-- The start is inclusive and counts operations, the end is exclusive and does not.
pub contains_iff :
    (rs : RunState) (a op_index : ℕ)
    → (contains rs a op_index ≡ true) ↔ (
        ((rs.start.address < a) ⊎ ((rs.start.address ≡ a) × (rs.start.op_index ≤ op_index)))
        × (a < rs.registers.address))
unfolding contains
contains_iff rs a op_index = ground arith

-- The operations of all instructions are counted on: n of them, and u more, m to an instruction.
operations-add :
    (n u m : ℕ) → 0 < m → ((n % m + u) / m + n / m ≡ (n + u) / m) × ((n % m + u) % m ≡ (n + u) % m)
operations-add n u m h =
    let q = n / m in
    let s = (n % m + u) / m in
    let t = (n % m + u) % m in
    let whole : t + m * (q + s) ≡ n + u = grind arith in
    let (rest, times) = row_split t (q + s) m (grind arith) in
    let added : s + q ≡ q + s = omega arith in
    (added ∙ sym times ∙ ap (λ x. x / m) whole, sym rest ∙ ap (λ x. x % m) whole)

div_le : (a m : ℕ) → 0 < m → a / m ≤ a
div_le a m h = grind arith

sum_times : (s q w : ℕ) → (s + q) * w ≡ s * w + q * w
sum_times s q w = grind arith

-- `advance_pc` on the operation n.
operations-address :
    (start n u m w : ℕ)
    → 0 < m
    → m < 256
    → w < 256
    → u < 256
    → (((start + n / m * w) % 2 ^ 64 + (n % m + u) % 2 ^ 32 / m * w % 2 ^ 32) % 2 ^ 64
        ≡ (start + (n + u) / m * w) % 2 ^ 64)
      × ((n % m + u) % 2 ^ 32 % m ≡ (n + u) % m)
operations-address start n u m w h hm hw hu =
    let (times, rest) = operations-add n u m h in
    let o = n % m + u in
    let small : o < 512 = grind arith in
    let fits : o % 2 ^ 32 ≡ o = omega (arith, small) in
    let few : o / m < 512 = omega (arith, div_le o m h, small) in
    let short : o / m * w < 2 ^ 32 = omega (arith, below (o / m) 511 w (omega (arith, few)), hw) in
    let product : (n + u) / m * w ≡ o / m * w + n / m * w =
      ap (λ x. x * w) (sym times) ∙ sum_times (o / m) (n / m) w in
    rw fits (omega (arith, product, short), rest)

-- What a producer that wants to raise the line by `line_base + k` and to go on by u operations writes
-- as one opcode does just that, and appends a row: if the address and the op_index are those of the
-- operation n, counted from an address at m operations to an instruction, they are then those of the
-- operation n + u.
pub special_opcode-encoded :
    (p : Program) (rs : RunState) (r : Reader) (start n k u : ℕ)
    → let m = p.maximum_operations_per_instruction in
      0 < m
      → m < 256
      → p.minimum_instruction_length < 256
      → rs.registers.address ≡ (start + n / m * p.minimum_instruction_length) % 2 ^ 64
      → rs.registers.op_index ≡ n % m
      → k < p.line_range
      → k + p.line_range * u + p.opcode_base < 256
      → u < 256
      → special_opcode p (k + p.line_range * u + p.opcode_base) rs r
        ≡ copies
            (record rs {
              registers = record (rs.registers) {
                address = (start + (n + u) / m * p.minimum_instruction_length) % 2 ^ 64;
                line = (rs.registers.line + widen8 p.line_base + k) % 2 ^ 32;
                op_index = (n + u) % m;
              };
            })
            false
            r
unfolding special_opcode special_opcode_line_advance special_opcode_operation_advance advance_pc
    advance_line
special_opcode-encoded p rs r start n k u some hm hl at_ ho hk hc hu =
    let (split_k, split_u) = row_split k u p.line_range hk in
    let (address, op_index) =
      operations-address start n u p.maximum_operations_per_instruction p.minimum_instruction_length
        some hm hl hu in
    ground (
      arith,
      adjusted-encoded k u p.line_range p.opcode_base hc,
      split_k,
      split_u,
      at_,
      ho,
      address,
      op_index,
    )
