-- ===== src/Dwarf/Walker/Moves.antt =====
-- np/spiegel/dwarf/walker.cxx: the moves of `walker_t` between the entries of a unit. The resolution
-- of a reference is a parameter: the unit, its contents and an offset, none for no unit. To read a
-- null `abbrev_` ends the process. `get_path` and `move_up` are left out.
pub mod Levels
pub mod Entries
pub mod Siblings
use novaprova.Prelude.{
  ℕ, zero, suc, Bool, true, false, Option, none, some, List, [], ◌∷◌, ltb, ◌==◌, if◌then◌else◌,
}
use novaprova.Dwarf.Reader.{Reader, seek}
use novaprova.Dwarf.Entry.{
  Reference, to_unit, ref, new_entry, partial_setup, get_attribute, has_children,
}
use novaprova.Dwarf.Walker.{
  UnitView, Walker, Entered, dies, enters, eof, eol, ok, filtered, read_entry,
}

abbrev pub Resolve : Type 0
Resolve = UnitView → Reference → Option (UnitView × Reader × ℕ)

-- A move ends the process, returns the entry, or returns 0; with the walker in its unit.
pub data Moved : Type 0 where
  ended : Moved
  finds : UnitView → Walker → Moved
  nowhere : UnitView → Walker → Moved

unfoldable pub if_ok : UnitView → Entered → Moved
if_ok cu dies = ended
if_ok cu (enters ok w) = finds cu w
if_ok cu (enters eof w) = nowhere cu w
if_ok cu (enters eol w) = nowhere cu w
if_ok cu (enters filtered w) = nowhere cu w

unfoldable pub move_to : Resolve → Reference → UnitView → Walker → Moved
move_to resolve r cu w = elim (resolve cu r) [
  | none ↦ ended
  | some (cu', contents, off) ↦
      if_ok cu' (read_entry cu' (record w { reader = (seek off contents).1; level = 0 }))
]

unfoldable pub move_down : UnitView → Walker → Moved
move_down cu w = elim w.entry.abbrev_used [
  | none ↦ ended
  | some a ↦ if has_children w.entry then if_ok cu (read_entry cu w) else nowhere cu w
]

-- A turn of a loop: it is left, or goes on with a walker.
pub data Turn : Type 0 where
  stops : Moved → Turn
  goes : Walker → Turn

unfoldable pub preorder_turn : UnitView → Entered → Turn
preorder_turn cu dies = stops ended
preorder_turn cu (enters eof w) = stops (nowhere cu w)
preorder_turn cu (enters ok w) = stops (finds cu w)
preorder_turn cu (enters eol w) = goes w
preorder_turn cu (enters filtered w) = goes w

unfoldable pub move_preorder : ℕ → UnitView → Walker → Option Moved
move_preorder zero cu w = none
move_preorder (suc fuel) cu w = elim (preorder_turn cu (read_entry cu w)) [
  | stops m ↦ some m
  | goes w' ↦ move_preorder fuel cu w'
]

unfoldable pub after_read : UnitView → ℕ → Entered → Turn
after_read cu target dies = stops ended
after_read cu target (enters eof w) = stops (nowhere cu w)
after_read cu target (enters ok w) = if w.entry.level == target then stops (finds cu w) else goes w
after_read cu target (enters eol w) = goes w
after_read cu target (enters filtered w) = goes w

-- The entry of the walker that has come back up.
abbrev pub one_up : ℕ → Walker → Walker
one_up target w = elim target [
  | zero ↦ w
  | suc level ↦ record w { entry = partial_setup w.entry.offset level none w.entry }
]

unfoldable pub next_turn : UnitView → ℕ → Walker → Turn
next_turn cu target w =
    if ltb w.level target
    then stops (nowhere cu (one_up target w))
    else after_read cu target (read_entry cu w)

unfoldable pub next_loop : UnitView → ℕ → ℕ → Walker → Option Moved
next_loop cu target zero w = none
next_loop cu target (suc fuel) w = elim (next_turn cu target w) [
  | stops m ↦ some m
  | goes w' ↦ next_loop cu target fuel w'
]

unfoldable pub move_next : Resolve → ℕ → UnitView → Walker → Option Moved
move_next resolve fuel cu w = elim (get_attribute 0x01 w.entry) [
  | some (ref r) ↦ some (move_to resolve r cu w)
  | _ ↦ next_loop cu w.entry.level fuel w
]
