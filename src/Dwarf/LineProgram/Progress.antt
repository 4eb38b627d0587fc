-- ===== src/Dwarf/LineProgram/Progress.antt =====
-- `lineno_program_t::run` ends: each turn of its loop moves the cursor forwards.
use novaprova.Prelude.{
  ℕ, zero, suc, ◌-◌, ◌<◌, ◌≡◌, ◌≢◌, refl, ap, ◌∙◌, Bool, true, false, Option, none, some, arith,
  length, ◌==◌, ◌⊎◌, if◌then◌else◌, leb, ltb, Bool-cases, inl, inr,
}
use novaprova.Dwarf.Reader.{
  Reader, read_u8, read_u16, read_addr, read_uleb128, read_sleb128, read_string, seek, M, and_then,
}
use novaprova.Dwarf.Reader.Moves.{
  IsValid, Moves, read_u8-Moves, read_u16-Moves, read_u64-Moves, read_uleb128-Moves,
  read_sleb128-Moves, read_string-Moves,
}
use novaprova.Dwarf.LineProgram.{
  Program, RunState, Status, Turn, fails, divides_by_zero, goes_on, copies, fetch, unless_crash,
  read_file_entry, define_file, extended_opcode, standard_opcode, special_opcode, dispatch, stuck,
  Next, done, ended, again, finish_turn, opcode_turn, turn, run_loop, run, advance_pc, advance_line,
  special_opcode_operation_advance, special_opcode_line_advance,
}

-- The cursor that a turn hands on lies behind `r`.
abbrev MovesTo : Reader → Turn → Type 0
MovesTo r (fails s) = Unit
MovesTo r divides_by_zero = Unit
MovesTo r (goes_on rs r') = Moves r r'
MovesTo r (copies rs reset r') = Moves r r'

Moves-refl : (r : Reader) → IsValid r → Moves r r
Moves-refl r v = ground arith

Moves-trans : {r r' r'' : Reader} → Moves r r' → Moves r' r'' → Moves r r''
Moves-trans m n = record {
  same_bytes = n.same_bytes ∙ m.same_bytes;
  same_mode = n.same_mode ∙ m.same_mode;
  forward = omega arith;
  within = omega (arith, ap length m.same_bytes);
}

Moves-IsValid : {r r' : Reader} → Moves r r' → IsValid r'
Moves-IsValid m = omega (arith, ap length m.same_bytes)

fetch-MovesTo :
    {A : Type 0} (r : Reader) (m : Option A × Reader) (e : Status) (k : A → Reader → Turn)
    → Moves r m.1
    → ((a : A) (r' : Reader) → Moves r r' → MovesTo r (k a r'))
    → MovesTo r (fetch m e k)
fetch-MovesTo r (none, r') e k m h = tt
fetch-MovesTo r (some a, r') e k m h = h a r' m

crash-MovesTo :
    {A : Type 0} (r : Reader) (o : Option A) (k : A → Turn)
    → ((a : A) → MovesTo r (k a))
    → MovesTo r (unless_crash o k)
crash-MovesTo r none k h = tt
crash-MovesTo r (some a) k h = h a

if-MovesTo :
    (r : Reader) (b : Bool) (x y : Turn)
    → MovesTo r x
    → MovesTo r y
    → MovesTo r (if b then x else y)
if-MovesTo r true x y hx hy = hx
if-MovesTo r false x y hx hy = hy

and_then-Moves :
    {A B : Type 0} (r : Reader) (p : Option A × Reader) (f : A → M B)
    → Moves r p.1
    → ((a : A) (r' : Reader) → Moves r r' → Moves r (f a r').1)
    → Moves r (and_then p f).1
and_then-Moves r (none, r') f m h = m
and_then-Moves r (some a, r') f m h = h a r' m

-- A read behind another read.
next_uleb128 : {r r' : Reader} → Moves r r' → Moves r (read_uleb128 r').1
next_uleb128 {r} {r'} m = Moves-trans m (read_uleb128-Moves r' (Moves-IsValid m))

module _ (r : Reader) (v : IsValid r) where
  read_addr-Moves : Moves r (read_addr r).1
  unfolding read_addr
  read_addr-Moves = read_u64-Moves r v

  define_file-Moves : Moves r (define_file r).1
  unfolding define_file read_file_entry
  define_file-Moves = and_then-Moves r (read_string r) _ (read_string-Moves r v) λ name r1 m1.
      and_then-Moves r (read_uleb128 r1) _ (next_uleb128 m1) λ directory r2 m2.
        and_then-Moves r (read_uleb128 r2) _ (next_uleb128 m2)
          λ mtime r3 m3. and_then-Moves r (read_uleb128 r3) _ (next_uleb128 m3) λ length r4 m4. m4

  extended_opcode-MovesTo : (opcode : ℕ) (rs : RunState) → MovesTo r (extended_opcode opcode rs r)
  unfolding extended_opcode
  extended_opcode-MovesTo opcode rs = if-MovesTo r (opcode == 1) _ _ (Moves-refl r v) (
      if-MovesTo r (opcode == 2) _ _ (fetch-MovesTo r (read_addr r) _ _ read_addr-Moves λ _ _ m. m)
        (if-MovesTo r (opcode == 3) _ _
          (fetch-MovesTo r (define_file r) _ _ define_file-Moves λ _ _ m. m)
          (if-MovesTo r (opcode == 4) _ _
            (fetch-MovesTo r (read_uleb128 r) _ _ (read_uleb128-Moves r v) λ _ _ m. m) tt)))

  uleb_opcode-MovesTo :
      (k : ℕ → RunState)
      → MovesTo r (fetch (read_uleb128 r) Status.operand_fetch λ u r'. goes_on (k u) r')
  uleb_opcode-MovesTo k = fetch-MovesTo r (read_uleb128 r) _ _ (read_uleb128-Moves r v) λ _ _ m. m

  standard_opcode-MovesTo :
      (p : Program) (opcode : ℕ) (rs : RunState) → MovesTo r (standard_opcode p opcode rs r)
  unfolding standard_opcode
  standard_opcode-MovesTo p opcode rs =
      let same = Moves-refl r v in
      if-MovesTo r (opcode == 1) _ _ same (
        if-MovesTo r (opcode == 2) _ _
          (fetch-MovesTo r (read_uleb128 r) _ _ (read_uleb128-Moves r v)
            λ u r' m. crash-MovesTo r (advance_pc p u rs) _ λ _. m)
          (if-MovesTo r (opcode == 3) _ _
            (fetch-MovesTo r (read_sleb128 r) _ _ (read_sleb128-Moves r v) λ _ _ m. m)
            (if-MovesTo r (opcode == 4) _ _ (uleb_opcode-MovesTo _) (
              if-MovesTo r (opcode == 5) _ _ (uleb_opcode-MovesTo _) (
                if-MovesTo r (opcode == 6) _ _ same (
                  if-MovesTo r (opcode == 7) _ _ same (
                    if-MovesTo r (opcode == 8) _ _
                      (crash-MovesTo r (special_opcode_operation_advance p 255) _
                        λ u. crash-MovesTo r (advance_pc p u rs) _ λ _. same)
                      (if-MovesTo r (opcode == 9) _ _
                        (fetch-MovesTo r (read_u16 r) _ _ (read_u16-Moves r v) λ _ _ m. m)
                        (if-MovesTo r (opcode == 10) _ _ same (
                          if-MovesTo r (opcode == 11) _ _ same
                            (if-MovesTo r (opcode == 12) _ _ (uleb_opcode-MovesTo _) same)))))))))))

  special_opcode-MovesTo :
      (p : Program) (opcode : ℕ) (rs : RunState) → MovesTo r (special_opcode p opcode rs r)
  unfolding special_opcode
  special_opcode-MovesTo p opcode rs = crash-MovesTo r (special_opcode_line_advance p opcode) _ λ l.
      crash-MovesTo r (special_opcode_operation_advance p opcode) _
        λ u. crash-MovesTo r (advance_pc p u (advance_line l rs)) _ λ _. Moves-refl r v

-- A turn that moves to behind `r'` moves to behind what `r'` lies behind.
MovesTo-trans : {r r' : Reader} (t : Turn) → Moves r r' → MovesTo r' t → MovesTo r t
MovesTo-trans (fails s) m h = tt
MovesTo-trans divides_by_zero m h = tt
MovesTo-trans (goes_on rs r'') m h = Moves-trans m h
MovesTo-trans (copies rs reset r'') m h = Moves-trans m h

dispatch-MovesTo :
    (p : Program) (opcode : ℕ) (rs : RunState) (r : Reader)
    → IsValid r
    → MovesTo r (dispatch p opcode rs r)
unfolding dispatch
dispatch-MovesTo p opcode rs r v =
    if-MovesTo r (opcode == 0) _ _
      (fetch-MovesTo r (read_uleb128 r) _ _ (read_uleb128-Moves r v) λ nbytes r1 m1.
        fetch-MovesTo r (read_u8 r1) _ _ (Moves-trans m1 (read_u8-Moves r1 (Moves-IsValid m1)))
          λ extended r2 m2.
            MovesTo-trans (extended_opcode extended rs r2) m2
              (extended_opcode-MovesTo r2 (Moves-IsValid m2) extended rs))
      (if-MovesTo r (ltb opcode p.opcode_base) _ _ (standard_opcode-MovesTo r v p opcode rs)
        (special_opcode-MovesTo r v p opcode rs))

-- What one turn leaves to do lies strictly behind `r`.
abbrev Advances : {D : Type 0} → Reader → Next D → Type 0
Advances r (done o) = o ≢ stuck
Advances r (again rs d r') = Moves r r' × (r.offset < r'.offset)

read_u8-progress :
    (r : Reader) (opcode : ℕ) → (read_u8 r).0 ≡ some opcode → r.offset < (read_u8 r).1.offset
unfolding read_u8
read_u8-progress r opcode e = ground arith

module _ {D : Type 0} (receive : RunState → D → Bool × D) where
  finish_turn-Advances :
      (p : Program) (r r1 : Reader) (t : Turn) (d : D)
      → Moves r r1
      → r.offset < r1.offset
      → MovesTo r1 t
      → Advances r (finish_turn receive p t d)
  unfolding finish_turn
  finish_turn-Advances p r r1 (fails s) d m lt h = λ e. cc
  finish_turn-Advances p r r1 divides_by_zero d m lt h = λ e. cc
  finish_turn-Advances p r r1 (goes_on rs r') d m lt h = (Moves-trans m h, omega arith)
  finish_turn-Advances p r r1 (copies rs reset r') d m lt h = (Moves-trans m h, omega arith)

  opcode_turn-Advances :
      (p : Program) (rs : RunState) (d : D) (r : Reader) (q : Option ℕ × Reader)
      → Moves r q.1
      → ((opcode : ℕ) → q.0 ≡ some opcode → r.offset < q.1.offset)
      → Advances r (opcode_turn receive p rs d q)
  unfolding opcode_turn
  opcode_turn-Advances p rs d r (none, r') m h = λ e. cc
  opcode_turn-Advances p rs d r (some opcode, r') m h =
      finish_turn-Advances p r r' (dispatch p opcode rs r') d m (h opcode refl)
        (dispatch-MovesTo p opcode rs r' (Moves-IsValid m))

  turn-Advances :
      (p : Program) (rs : RunState) (d : D) (r : Reader)
      → IsValid r
      → Advances r (turn receive p rs d r)
  unfolding turn
  turn-Advances p rs d r v = elim (Bool-cases rs.running) [
    | inr e ↦ simp e (λ s. cc)
    | inl e ↦ simp e (
        opcode_turn-Advances p rs d r (read_u8 r) (read_u8-Moves r v)
          λ opcode o. read_u8-progress r opcode o)
  ]

  -- The loop ends with the fuel that the bytes left allow.
  run_loop-ne-stuck :
      (fuel : ℕ) (p : Program) (rs : RunState) (d : D) (r : Reader)
      → IsValid r
      → length r.bytes - r.offset < fuel
      → run_loop receive fuel p rs d r ≢ stuck
  unfolding run_loop
  run_loop-ne-stuck zero p rs d r v h = absurd (omega arith)
  run_loop-ne-stuck (suc fuel) p rs d r v h =
      go (turn receive p rs d r) (turn-Advances p rs d r v)
        (λ rs' d' r'. run_loop-ne-stuck fuel p rs' d' r')
    where
      go :
          (n : Next D)
          → Advances r n
          → ((rs' : RunState) (d' : D) (r' : Reader)
              → IsValid r'
              → length r'.bytes - r'.offset < fuel
              → run_loop receive fuel p rs' d' r' ≢ stuck)
          → (elim n [ done o ↦ o | again rs' d' r' ↦ run_loop receive fuel p rs' d' r' ]) ≢ stuck
      go (done o) a ih = a
      go (again rs' d' r') (m, lt) ih =
          ih rs' d' r' (Moves-IsValid m) (omega (arith, ap length m.same_bytes))

  -- Where the cursor has left the section no opcode is read.
  turn-outside :
      (p : Program) (rs : RunState) (d : D) (r : Reader)
      → length r.bytes < r.offset
      → (s : Status) × (turn receive p rs d r ≡ done (ended s d))
  unfolding turn opcode_turn read_u8
  turn-outside p rs d r out =
      let refused : leb (length r.bytes) r.offset ≡ true = ground (arith, out) in
      elim (Bool-cases rs.running) [
        | inl e ↦ (Status.success, simp (e, refused) refl)
        | inr e ↦ (Status.halted_by_delegate, simp e refl)
      ]

  run_loop-outside :
      (fuel : ℕ) (p : Program) (rs : RunState) (d : D) (r : Reader)
      → length r.bytes < r.offset
      → run_loop receive (suc fuel) p rs d r ≢ stuck
  unfolding run_loop
  run_loop-outside fuel p rs d r out =
      let (s, e) = turn-outside p rs d r out in rw (run_loop, e) (λ h. cc h)

  -- A seek keeps the cursor in the section, or takes it outside.
  seek-cases :
      (n : ℕ) (r : Reader)
      → IsValid r
      → ((seek n r).1.bytes ≡ r.bytes)
        × (IsValid (seek n r).1 ⊎ (length (seek n r).1.bytes < (seek n r).1.offset))
  unfolding seek
  seek-cases n r v = ground arith

  -- `run` ends on every program: the fuel that the model gives its loop is enough, whatever the
  -- bytes and the delegate are.
  pub run-ne-stuck : (p : Program) (d : D) → IsValid p.reader → run receive p d ≢ stuck
  unfolding run
  run-ne-stuck p d v =
      let (e, w) = seek-cases p.header_length p.reader v in
      elim w [
        | inl w ↦
            run_loop-ne-stuck (suc (length p.reader.bytes)) p _ d _ w (omega (arith, ap length e))
        | inr out ↦ run_loop-outside (length p.reader.bytes) p _ d _ out
      ]
