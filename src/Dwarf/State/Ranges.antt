-- ===== src/Dwarf/State/Ranges.antt =====
-- A list of ranges in its section, and the index that it fills.
use novaprova.Prelude.{
  ℕ, zero, suc, ◌+◌, ◌%◌, ◌^◌, ◌<◌, ◌≡◌, ◌∙◌, false, ◌&&◌, some, List, [], ◌∷◌, ◌++◌, append_assoc,
  map, ◌==◌, length, All, arith,
}
use novaprova.Prelude.Bytes.{le_bytes}
use novaprova.Util.RangeTree.{Range, Tree, insert, insert_range}
use novaprova.Util.RangeTree.Filled.{insert_all}
use novaprova.Dwarf.Reader.{Reader, read_addr, rest, advance}
use novaprova.Dwarf.Reader.Words.{read_u64-le_bytes}
use novaprova.Dwarf.LineProgram.Parsing.{rest-advance}
use novaprova.Dwarf.Entry.{Reference}
use novaprova.Dwarf.State.{ranges_loop, maxaddr}

-- What a list of ranges is made of.
pub data Item : Type 0 where
  selects : ℕ → Item
  spans : ℕ → ℕ → Item

unfoldable pub item_bytes : Item → List ℕ
item_bytes (selects b) = le_bytes 8 maxaddr ++ le_bytes 8 b
item_bytes (spans start end) = le_bytes 8 start ++ le_bytes 8 end

unfoldable pub list_bytes : List Item → List ℕ
unfolding item_bytes
list_bytes [] = le_bytes 8 0 ++ le_bytes 8 0
list_bytes (i ∷ is) = item_bytes i ++ list_bytes is

-- An item is of 64-bit words and is not taken for another.
unfoldable pub IsItem : Item → Type 0
IsItem (selects b) = b < 2 ^ 64
IsItem (spans start end) = (start < maxaddr) × (end < 2 ^ 64) × (0 < start + end)

-- The ranges of a list from a base address on.
unfoldable pub decoded : ℕ → List Item → List Range
decoded base [] = []
decoded base (selects b ∷ is) = decoded b is
decoded base (spans start end ∷ is) =
    record { lo = (start + base) % 2 ^ 64; hi = (end + base) % 2 ^ 64 } ∷ decoded base is

abbrev pub tagged : Reference → List Range → List (Range × Reference)
tagged funcref rs = map (λ (r : Range). (r, funcref)) rs

-- Two words at the cursor.
pub two_words :
    (r : Reader) (a b : ℕ) (more : List ℕ)
    → a < 2 ^ 64
    → b < 2 ^ 64
    → rest r ≡ (le_bytes 8 a ++ le_bytes 8 b) ++ more
    → (read_addr r ≡ (some a, advance 8 r))
      × (read_addr (advance 8 r) ≡ (some b, advance 8 (advance 8 r)))
      × (rest (advance 8 (advance 8 r)) ≡ more)
unfolding read_addr
two_words r a b more ha hb h =
    let at_first = h ∙ append_assoc (le_bytes 8 a) (le_bytes 8 b) more in
    let at_second = rest-advance r (le_bytes 8 a) (le_bytes 8 b ++ more) at_first in
    let behind = rest-advance (advance 8 r) (le_bytes 8 b) more at_second in
    (
      read_u64-le_bytes r a (le_bytes 8 b ++ more) ha at_first,
      read_u64-le_bytes (advance 8 r) b more hb at_second,
      behind,
    )

pub not_max : (start : ℕ) → start < maxaddr → (start == maxaddr) ≡ false
not_max start h = ground arith

pub not_end : (start end : ℕ) → 0 < start + end → (start == 0 && end == 0) ≡ false
not_end start end h = ground arith

-- `ranges_loop` on a list of ranges makes the insertions of its ranges, if it has a turn for each
-- item and one for the end.
pub ranges_loop-list_bytes :
    (fuel : ℕ) (funcref : Reference) (base : ℕ) (is : List Item) (r : Reader) (more : List ℕ)
    (t : Tree Reference)
    → length is < fuel
    → All IsItem is
    → rest r ≡ list_bytes is ++ more
    → ranges_loop fuel funcref base r t ≡ insert_all (tagged funcref (decoded base is)) t
unfolding ranges_loop list_bytes IsItem decoded insert_all insert item_bytes
ranges_loop-list_bytes zero funcref base is r more t enough fit h = absurd (omega arith)
ranges_loop-list_bytes (suc fuel) funcref base [] r more t enough fit h =
    let (first, second, _) = two_words r 0 0 more (omega arith) (omega arith) h in
    rw (ranges_loop, first) (rw (first, second))
ranges_loop-list_bytes (suc fuel) funcref base (selects b ∷ is) r more t enough (fits, fit) h =
    let e = h ∙ append_assoc (item_bytes (selects b)) (list_bytes is) more in
    let (first, second, behind) =
      two_words r maxaddr b (list_bytes is ++ more) (omega arith) fits e in
    rw (ranges_loop, first)
      (rw (first, second)
        (rw (first, second)
          (ranges_loop-list_bytes fuel funcref b is (advance 8 (advance 8 r)) more t (omega arith)
            fit behind)))
ranges_loop-list_bytes (suc fuel) funcref base (spans start end ∷ is) r more t enough (fits, fit)
      h =
    let e = h ∙ append_assoc (item_bytes (spans start end)) (list_bytes is) more in
    let (first, second, behind) =
      two_words r start end (list_bytes is ++ more) (omega arith) fits.1 e in
    let range : Range = record { lo = (start + base) % 2 ^ 64; hi = (end + base) % 2 ^ 64 } in
    rw (ranges_loop, first)
      (rw (first, second)
        (rw (first, second, not_max start fits.0, not_end start end fits.2)
          (ranges_loop-list_bytes fuel funcref base is (advance 8 (advance 8 r)) more
            (insert_range range funcref t) (omega arith) fit behind)))
