-- ===== src/Dwarf/LineProgram/Source.antt =====
-- `get_source_line` against the list of all ranges that the program describes.
use novaprova.Prelude.{
  ℕ, zero, suc, ◌≡◌, refl, sym, ap, ◌∙◌, Bool, true, false, Option, none, some, List, [], ◌∷◌, ◌++◌,
  arith, if◌then◌else◌, Bool-cases, inl, inr,
}
use novaprova.Dwarf.Reader.{Reader, read_u8}
use novaprova.Dwarf.LineProgram.{
  Program, RunState, Status, Turn, fails, divides_by_zero, goes_on, copies, dispatch, Outcome,
  ended, Next, done, again, copy, finish_turn, opcode_turn, turn, run_loop, run, contains,
  seek_address, reported, get_source_line, reset_registers,
}

-- A delegate that lets the program run to its end, and keeps every range.
unfoldable pub record_ranges : RunState → List RunState → Bool × List RunState
record_ranges rs log = (true, log ++ (rs ∷ []))

unfoldable pub first_containing : ℕ → List RunState → Option RunState
first_containing a [] = none
first_containing a (rs ∷ log) = if contains rs a 0 then some rs else first_containing a log

first_containing-append :
    (a : ℕ) (xs ys : List RunState) (x : RunState)
    → first_containing a xs ≡ some x
    → first_containing a (xs ++ ys) ≡ some x
unfolding first_containing
first_containing-append a [] ys x h = cc
first_containing-append a (y ∷ xs) ys x h = ground (arith, first_containing-append a xs ys x)

first_containing-append_none :
    (a : ℕ) (xs ys : List RunState)
    → first_containing a xs ≡ none
    → first_containing a (xs ++ ys) ≡ first_containing a ys
unfolding first_containing
first_containing-append_none a [] ys h = refl
first_containing-append_none a (y ∷ xs) ys h = ground (arith, first_containing-append_none a xs ys)

-- The rest of the loop behind one turn.
module _ {D : Type 0} (receive : RunState → D → Bool × D) (fuel : ℕ) (p : Program) where
  abbrev after_turn : Next D → Outcome D
  after_turn (done o) = o
  after_turn (again rs d r) = run_loop receive fuel p rs d r

  run_loop-suc :
      (rs : RunState) (d : D) (r : Reader)
      → run_loop receive (suc fuel) p rs d r ≡ after_turn (turn receive p rs d r)
  unfolding run_loop
  run_loop-suc rs d r = go (turn receive p rs d r)
    where
      go :
          (n : Next D)
          → (elim n [ done o ↦ o | again rs' d' r' ↦ run_loop receive fuel p rs' d' r' ])
            ≡ after_turn n
      go (done o) = refl
      go (again rs' d' r') = refl

module _ (a : ℕ) (p : Program) where
  -- The loop goes on from any state with `log` recorded and `x` the first hit in it.
  abbrev Keeps : ℕ → Type 0
  Keeps fuel =
      (rs : RunState) (log : List RunState) (r : Reader) (s : Status) (final : List RunState)
      (x : RunState)
      → first_containing a log ≡ some x
      → run_loop record_ranges fuel p rs log r ≡ ended s final
      → first_containing a final ≡ some x

  finish_turn-Keeps :
      (fuel : ℕ)
      → Keeps fuel
      → (t : Turn) (log : List RunState) (s : Status) (final : List RunState) (x : RunState)
      → first_containing a log ≡ some x
      → after_turn record_ranges fuel p (finish_turn record_ranges p t log) ≡ ended s final
      → first_containing a final ≡ some x
  unfolding finish_turn copy record_ranges
  finish_turn-Keeps fuel ih (fails s') log s final x h e = cc
  finish_turn-Keeps fuel ih divides_by_zero log s final x h e = cc
  finish_turn-Keeps fuel ih (goes_on rs r) log s final x h e = ih rs log r s final x h e
  finish_turn-Keeps fuel ih (copies rs reset r) log s final x h e =
      elim (Bool-cases rs.have_start) [
        | inl b ↦
            ih _ (log ++ (rs ∷ [])) r s final x (first_containing-append a log _ x h) (simp b at e)
        | inr b ↦ ih _ log r s final x h (simp b at e)
      ]

  opcode_turn-Keeps :
      (fuel : ℕ)
      → Keeps fuel
      → (rs : RunState) (log : List RunState) (s : Status) (final : List RunState) (x : RunState)
      → first_containing a log ≡ some x
      → (running : Bool) (q : Option ℕ × Reader)
      → after_turn record_ranges fuel p (
          if running
          then opcode_turn record_ranges p rs log q
          else done (ended Status.halted_by_delegate log))
        ≡ ended s final
      → first_containing a final ≡ some x
  unfolding opcode_turn
  opcode_turn-Keeps fuel ih rs log s final x h false q e = cc
  opcode_turn-Keeps fuel ih rs log s final x h true (none, r) e = cc
  opcode_turn-Keeps fuel ih rs log s final x h true (some opcode, r) e =
      finish_turn-Keeps fuel ih (dispatch p opcode rs r) log s final x h e

  recorded_grows : (fuel : ℕ) → Keeps fuel
  unfolding turn
  recorded_grows zero rs log r s final x h e = unfold run_loop in cc
  recorded_grows (suc fuel) rs log r s final x h e =
      opcode_turn-Keeps fuel (recorded_grows fuel) rs log s final x h rs.running (read_u8 r)
        (sym (run_loop-suc record_ranges fuel p rs log r) ∙ e)

  -- A recording from `log`, with no hit so far, and the search from the same state.
  abbrev Agrees : ℕ → Type 0
  Agrees fuel =
      (rs : RunState) (log : List RunState) (r : Reader) (s : Status) (final : List RunState)
      → first_containing a log ≡ none
      → run_loop record_ranges fuel p rs log r ≡ ended s final
      → reported (run_loop (seek_address a) fuel p rs none r) ≡ first_containing a final

  -- The search stops at the test of the loop that follows a hit.
  halted :
      (fuel : ℕ) (rs : RunState) (log final : List RunState) (s : Status) (r r' : Reader)
      (x : RunState) (rs' : RunState)
      → rs.running ≡ false
      → run_loop record_ranges fuel p rs' log r' ≡ ended s final
      → reported (run_loop (seek_address a) fuel p rs (some x) r) ≡ some x
  halted zero rs log final s r r' x rs' h e = unfold run_loop in cc
  halted (suc fuel) rs log final s r r' x rs' h e =
      rw (run_loop-suc (seek_address a) fuel p rs (some x) r) (unfold turn in simp h)

  hit :
      (rs : RunState) (log : List RunState)
      → first_containing a log ≡ none
      → contains rs a 0 ≡ true
      → first_containing a (log ++ (rs ∷ [])) ≡ some rs
  unfolding first_containing
  hit rs log h c = first_containing-append_none a log (rs ∷ []) h ∙ simp c

  miss :
      (rs : RunState) (log : List RunState)
      → first_containing a log ≡ none
      → contains rs a 0 ≡ false
      → first_containing a (log ++ (rs ∷ [])) ≡ none
  unfolding first_containing
  miss rs log h c = first_containing-append_none a log (rs ∷ []) h ∙ simp c

  fails-Agrees : (s : Status) → reported (ended s none) ≡ none
  fails-Agrees Status.halted_by_delegate = refl
  fails-Agrees _ = refl

  reset_stops :
      (reset : Bool) (rs : RunState)
      → (if reset
          then reset_registers p (record rs { running = false })
          else record rs { running = false }).running
        ≡ false
  unfolding reset_registers
  reset_stops true rs = refl
  reset_stops false rs = refl

  finish_turn-Agrees :
      (fuel : ℕ)
      → Agrees fuel
      → (t : Turn) (log : List RunState) (s : Status) (final : List RunState)
      → first_containing a log ≡ none
      → after_turn record_ranges fuel p (finish_turn record_ranges p t log) ≡ ended s final
      → reported (after_turn (seek_address a) fuel p (finish_turn (seek_address a) p t none))
        ≡ first_containing a final
  unfolding finish_turn copy record_ranges seek_address
  finish_turn-Agrees fuel ih (fails s') log s final h e =
      fails-Agrees s' ∙ sym h ∙ ap (first_containing a) (cc)
  finish_turn-Agrees fuel ih divides_by_zero log s final h e = cc
  finish_turn-Agrees fuel ih (goes_on rs r) log s final h e = ih rs log r s final h e
  finish_turn-Agrees fuel ih (copies rs reset r) log s final h e = elim (Bool-cases rs.have_start) [
    | inl b ↦ elim (Bool-cases (contains rs a 0)) [
      | inl c ↦
          let recorded : run_loop record_ranges fuel p _ (log ++ (rs ∷ [])) r ≡ ended s final =
            simp b at e in
          simp (b, c)
            (halted fuel _ _ final s r r rs _ (reset_stops reset (record rs { have_start = true }))
                recorded
              ∙ sym (recorded_grows fuel _ _ r s final rs (hit rs log h c) recorded))
      | inr c ↦ simp (b, c) (ih _ (log ++ (rs ∷ [])) r s final (miss rs log h c) (simp b at e))
    ]
    | inr b ↦ simp b (ih _ log r s final h (simp b at e))
  ]

  opcode_turn-Agrees :
      (fuel : ℕ)
      → Agrees fuel
      → (rs : RunState) (log : List RunState) (s : Status) (final : List RunState)
      → first_containing a log ≡ none
      → (running : Bool) (q : Option ℕ × Reader)
      → after_turn record_ranges fuel p (
          if running
          then opcode_turn record_ranges p rs log q
          else done (ended Status.halted_by_delegate log))
        ≡ ended s final
      → reported (
          after_turn (seek_address a) fuel p (
            if running
            then opcode_turn (seek_address a) p rs none q
            else done (ended Status.halted_by_delegate none)))
        ≡ first_containing a final
  unfolding opcode_turn
  opcode_turn-Agrees fuel ih rs log s final h false q e = sym h ∙ ap (first_containing a) (cc)
  opcode_turn-Agrees fuel ih rs log s final h true (none, r) e =
      sym h ∙ ap (first_containing a) (cc)
  opcode_turn-Agrees fuel ih rs log s final h true (some opcode, r) e =
      finish_turn-Agrees fuel ih (dispatch p opcode rs r) log s final h e

  search-Agrees : (fuel : ℕ) → Agrees fuel
  unfolding turn
  search-Agrees zero rs log r s final h e = unfold run_loop in cc
  search-Agrees (suc fuel) rs log r s final h e =
      ap reported (run_loop-suc (seek_address a) fuel p rs none r)
      ∙ opcode_turn-Agrees fuel (search-Agrees fuel) rs log s final h rs.running (read_u8 r)
          (sym (run_loop-suc record_ranges fuel p rs log r) ∙ e)

  -- The search reports the first range that holds the address among all that the program
  -- describes, in the program's order, and nothing where none holds it.
  pub get_source_line-first_containing :
      (s : Status) (ranges : List RunState)
      → run record_ranges p [] ≡ ended s ranges
      → get_source_line p a ≡ first_containing a ranges
  unfolding get_source_line run first_containing
  get_source_line-first_containing s ranges e = search-Agrees _ _ [] _ s ranges refl e
