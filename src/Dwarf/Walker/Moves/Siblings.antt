-- ===== src/Dwarf/Walker/Moves/Siblings.antt =====
-- To the next sibling, past all that is below an entry.
use novaprova.Prelude.{
  ℕ, suc, ◌≤◌, ◌<◌, ◌≡◌, refl, sym, ap, ◌∙◌, true, false, Option, none, some, arith,
}
use novaprova.Dwarf.Entry.{get_attribute, has_children}
use novaprova.Dwarf.Walker.{UnitView, Walker, enters, Answer, eof, eol, ok, filtered, read_entry}
use novaprova.Dwarf.Walker.Moves.{
  Resolve, Moved, finds, nowhere, stops, goes, after_read, next_turn, next_loop, move_next, one_up,
  ended,
}
use novaprova.Dwarf.Walker.Moves.Entries.{
  Forest, end, leaf, node, reads, Enters, Reads, entry-Levels, leaf_level, node_level, Reads-level,
}
use novaprova.Dwarf.Walker.Moves.Levels.{below}

module _ (cu : UnitView) where
  module _ (target : ℕ) where
    -- A turn of the loop that goes on.
    turn_goes :
        (w w1 : Walker) (fuel : ℕ)
        → next_turn cu target w ≡ goes w1
        → next_loop cu target (suc fuel) w ≡ next_loop cu target fuel w1
    unfolding next_loop
    turn_goes w w1 fuel e = rw (next_loop, e) refl

    eol_goes :
        (w w1 : Walker)
        → target ≤ w.level
        → read_entry cu w ≡ enters eol w1
        → next_turn cu target w ≡ goes w1
    unfolding next_turn after_read
    eol_goes w w1 h e = rw e (ground arith)

    entry_goes :
        (w w1 : Walker) → target < w.level → Enters cu w w1 → next_turn cu target w ≡ goes w1
    unfolding next_turn after_read
    entry_goes w w1 h (ok, i, e) =
        let (l, _) = entry-Levels cu w w1 (ok, i, e) in rw e (ground (arith, l))
    entry_goes w w1 h (filtered, i, e) = rw e (ground arith)
    entry_goes w w1 h (eof, i, e) = absurd i
    entry_goes w w1 h (eol, i, e) = absurd i

    -- The loop passes a whole list that is below its level.
    next_loop-Reads :
        (f : Forest) (w w' : Walker) (fuel : ℕ)
        → target < w.level
        → Reads cu f w w'
        → next_loop cu target (reads f fuel) w ≡ next_loop cu target fuel w'
    unfolding reads Reads
    next_loop-Reads end w w' fuel h e = turn_goes w w' fuel (eol_goes w w' (omega (arith, h)) e)
    next_loop-Reads (leaf rest) w w' fuel h (w1, en, c, more) =
        turn_goes w w1 (reads rest fuel) (entry_goes w w1 h en)
        ∙ next_loop-Reads rest w1 w' fuel (omega (arith, h, leaf_level cu w w1 en c)) more
    next_loop-Reads (node children rest) w w' fuel h (w1, en, c, w2, inner, more) =
        let a = node_level cu w w1 en c in
        let b = Reads-level cu children w1 w2 inner in
        turn_goes w w1 (reads children (reads rest fuel)) (entry_goes w w1 h en)
        ∙ next_loop-Reads children w1 w2 (reads rest fuel) (omega (arith, h, a)) inner
        ∙ next_loop-Reads rest w2 w' fuel (omega (arith, h, a, b)) more

-- What is below an entry that has just been read, if it has children, and the walker behind it.
unfoldable pub Below : UnitView → Option Forest → Walker → Walker → Type 0
unfolding Reads
Below cu none w w' = (has_children w.entry ≡ false) × (w ≡ w')
Below cu (some f) w w' = (has_children w.entry ≡ true) × Reads cu f w w'

-- The calls of `read_entry` for it, and m.
unfoldable pub reads_below : Option Forest → ℕ → ℕ
unfolding reads
reads_below none m = m
reads_below (some f) m = reads f m

-- What the walker comes to at a level: the next entry of the list, or the end of the list.
unfoldable pub arrival : UnitView → ℕ → Answer → Walker → Moved
arrival cu level ok w = finds cu w
arrival cu level eol w = nowhere cu (one_up level w)
arrival cu level eof w = ended
arrival cu level filtered w = ended

abbrev pub IsBehind : Answer → Type 0
IsBehind ok = Unit {0}
IsBehind eol = Unit {0}
IsBehind eof = ⊥
IsBehind filtered = ⊥

module _ (cu : UnitView) (resolve : Resolve) where
  without_sibling :
      (w : Walker) (fuel : ℕ)
      → get_attribute 0x01 w.entry ≡ none
      → move_next resolve fuel cu w ≡ next_loop cu w.entry.level fuel w
  unfolding move_next
  without_sibling w fuel e = rw (move_next, e) refl

  next_loop-Below :
      (o : Option Forest) (w w' : Walker) (fuel : ℕ)
      → w.level ≡ below w.entry w.entry.level
      → Below cu o w w'
      → (next_loop cu w.entry.level (reads_below o fuel) w ≡ next_loop cu w.entry.level fuel w')
        × (w'.level ≡ w.entry.level)
  unfolding Below reads_below
  next_loop-Below none w w' fuel l (h, e) =
      let stays : w.level ≡ w.entry.level = l ∙ rw h refl in
      (ap (next_loop cu w.entry.level fuel) e, ap (λ x. x.level) (sym e) ∙ stays)
  next_loop-Below (some f) w w' fuel l (h, e) =
      let deeper : w.level ≡ suc w.entry.level = l ∙ rw h refl in
      (
        next_loop-Reads cu w.entry.level f w w' fuel (omega (arith, deeper)) e,
        omega (arith, deeper, Reads-level cu f w w' e),
      )

  module _ (target : ℕ) (w : Walker) where
    turn_stops :
        (fuel : ℕ) (m : Moved)
        → next_turn cu target w ≡ stops m
        → next_loop cu target (suc fuel) w ≡ some m
    unfolding next_loop
    turn_stops fuel m e = rw (next_loop, e) refl

    ok_stops :
        (w' : Walker)
        → w.level ≡ target
        → read_entry cu w ≡ enters ok w'
        → next_turn cu target w ≡ stops (finds cu w')
    unfolding next_turn after_read
    ok_stops w' l e = let (k, _) = entry-Levels cu w w' (ok, tt, e) in rw e (ground (arith, k))

    up_stops : w.level < target → next_turn cu target w ≡ stops (nowhere cu (one_up target w))
    unfolding next_turn
    up_stops h = ground arith

  ended_list : (w w' : Walker) → read_entry cu w ≡ enters eol w' → Reads cu end w w'
  unfolding Reads
  ended_list w w' e = e

  arrives :
      (target fuel : ℕ) (w w' : Walker) (a : Answer)
      → w.level ≡ target
      → IsBehind a
      → read_entry cu w ≡ enters a w'
      → next_loop cu target (suc (suc fuel)) w ≡ some (arrival cu target a w')
  unfolding arrival
  arrives target fuel w w' ok l i e =
      turn_stops target w (suc fuel) (finds cu w') (ok_stops target w w' l e)
  arrives target fuel w w' eol l i e =
      let turn : next_turn cu target w ≡ goes w' = eol_goes cu target w w' (omega (arith, l)) e in
      let down : w.level ≡ suc w'.level = Reads-level cu end w w' (ended_list w w' e) in
      turn_goes cu target w w' (suc fuel) turn
      ∙ turn_stops target w' fuel (nowhere cu (one_up target w'))
          (up_stops target w' (omega (arith, l, down)))
  arrives target fuel w w' eof l i e = absurd i
  arrives target fuel w w' filtered l i e = absurd i

  -- From an entry that has just been read, `move_next` passes all that is below it and comes to the
  -- next sibling, or at the end of the list back up and returns 0; if the entry has no DW_AT_sibling
  -- and the loop has fuel for the entries below and two more.
  pub move_next-Below :
      (o : Option Forest) (w w' w'' : Walker) (a : Answer) (fuel : ℕ)
      → get_attribute 0x01 w.entry ≡ none
      → w.level ≡ below w.entry w.entry.level
      → Below cu o w w'
      → IsBehind a
      → read_entry cu w' ≡ enters a w''
      → move_next resolve (reads_below o (suc (suc fuel))) cu w
        ≡ some (arrival cu w.entry.level a w'')
  move_next-Below o w w' w'' a fuel s l b i e =
      let (passes, level) = next_loop-Below o w w' (suc (suc fuel)) l b in
      without_sibling w (reads_below o (suc (suc fuel))) s
      ∙ passes
      ∙ arrives w.entry.level fuel w' w'' a level i e
