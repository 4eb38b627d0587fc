-- ===== src/Dwarf/State/Indexed.antt =====
-- A function in the index by address: what insert_ranges adds, and what is_within says of it.
use novaprova.Prelude.{
  ℕ, zero, suc, ◌+◌, ◌*◌, ◌%◌, ◌^◌, ◌<◌, ◌≡◌, refl, sym, ◌∙◌, ap, Bool, true, false, ◌&&◌, Option,
  none, some, List, [], ◌∷◌, ◌++◌, append_assoc, ◌==◌, if◌then◌else◌, ltb, leb, length,
  length-append, length-drop, All, arith, Bool-cases, inl, inr,
}
use novaprova.Prelude.Bytes.{le_bytes}
use novaprova.Util.RangeTree.{Range, Tree, find}
use novaprova.Util.RangeTree.Lookup.{covers, first_covering, IsOrdered}
use novaprova.Util.RangeTree.Filled.{insert_all, AreSeparate, AreNew, or_else, find-insert_all}
use novaprova.Dwarf.Reader.{Reader, skip, rest, advance, get_remains}
use novaprova.Dwarf.Entry.{Entry, Reference, get_uint64_attribute}
use novaprova.Dwarf.State.{
  within_loop, maxaddr, insert_ranges, is_within, has_attribute, dw_at_low_pc, dw_at_high_pc,
  dw_at_ranges,
}
use novaprova.Dwarf.State.Ranges.{
  Item, selects, spans, item_bytes, list_bytes, IsItem, decoded, tagged, two_words, not_max,
  not_end, ranges_loop-list_bytes,
}

abbrev pub is_some {ℓ} : {A : Type ℓ} → Option A → Bool
is_some none = false
is_some (some a) = true

length-list_bytes : (is : List Item) → length (list_bytes is) ≡ 16 + 16 * length is
unfolding list_bytes item_bytes
length-list_bytes [] = refl
length-list_bytes (selects b ∷ is) =
    length-append (le_bytes 8 maxaddr ++ le_bytes 8 b) (list_bytes is)
    ∙ omega (arith, length-list_bytes is)
length-list_bytes (spans start end ∷ is) =
    length-append (le_bytes 8 start ++ le_bytes 8 end) (list_bytes is)
    ∙ omega (arith, length-list_bytes is)

-- The low end is in the range, and the high end is behind it.
abbrev pub IsSpan : Range → Type 0
IsSpan r = r.lo < r.hi

half_open : (addr : ℕ) (r : Range) → IsSpan r → covers r addr ≡ (leb r.lo addr && ltb addr r.hi)
unfolding covers
half_open addr r span = ground arith

either :
    {A B : Type 0} (addr : ℕ) (r : Range) (a : A) (b : B) (o : Option A) (o' : Option B)
    → IsSpan r
    → is_some o ≡ is_some o'
    → is_some (if leb r.lo addr && ltb addr r.hi then some a else o)
      ≡ is_some (if covers r addr then some b else o')
either addr r a b o o' span same =
    let e = half_open addr r span in
    elim (Bool-cases (leb r.lo addr && ltb addr r.hi)) [
      | inl inside ↦ rw (e, inside)
      | inr outside ↦ rw (e, outside) same
    ]

-- `within_loop` finds an address in the ranges of a list, and no other.
within_loop-list_bytes :
    (fuel addr base : ℕ) (funcref : Reference) (is : List Item) (r : Reader) (more : List ℕ)
    → length is < fuel
    → All IsItem is
    → All IsSpan (decoded base is)
    → rest r ≡ list_bytes is ++ more
    → is_some (within_loop fuel addr base r)
      ≡ is_some (first_covering addr (tagged funcref (decoded base is)))
unfolding within_loop list_bytes IsItem decoded item_bytes first_covering
within_loop-list_bytes zero addr base funcref is r more enough fit wide h = absurd (omega arith)
within_loop-list_bytes (suc fuel) addr base funcref [] r more enough fit wide h =
    let (first, second, _) = two_words r 0 0 more (omega arith) (omega arith) h in
    rw (within_loop, first) (rw (first, second))
within_loop-list_bytes (suc fuel) addr base funcref (selects b ∷ is) r more enough (fits, fit) wide
      h =
    let e = h ∙ append_assoc (item_bytes (selects b)) (list_bytes is) more in
    let (first, second, behind) =
      two_words r maxaddr b (list_bytes is ++ more) (omega arith) fits e in
    rw (within_loop, first)
      (rw (first, second)
        (rw (first, second)
          (within_loop-list_bytes fuel addr b funcref is (advance 8 (advance 8 r)) more
            (omega arith) fit wide behind)))
within_loop-list_bytes (suc fuel) addr base funcref (spans start end ∷ is) r more enough (fits, fit)
      (span, wide) h =
    let e = h ∙ append_assoc (item_bytes (spans start end)) (list_bytes is) more in
    let (first, second, behind) =
      two_words r start end (list_bytes is ++ more) (omega arith) fits.1 e in
    let range : Range = record { lo = (start + base) % 2 ^ 64; hi = (end + base) % 2 ^ 64 } in
    rw (within_loop, first)
      (rw (first, second)
        (rw (first, second, not_max start fits.0, not_end start end fits.2)
          (either addr range _ _ _ _ span (
            within_loop-list_bytes fuel addr base funcref is (advance 8 (advance 8 r)) more
              (omega arith) fit wide behind))))

kept :
    (o d : Option ℕ)
    → d ≡ none
    → is_some (elim o as (λ _. Option ℕ) [ none ↦ d | some x ↦ some x ]) ≡ is_some o
kept none d e = rw e
kept (some x) d e = refl

or_none : (o : Option (Range × Reference)) → is_some (or_else o none) ≡ is_some o
or_none none = refl
or_none (some p) = refl

new_empty : (ps : List (Range × Reference)) → AreNew ps []
new_empty [] = tt
new_empty (p ∷ ps) = (tt, new_empty ps)

and_false : (b : Bool) → (b && false) ≡ false
and_false true = refl
and_false false = refl

module _ (section : Reader) (e : Entry) (is : List Item) (more : List ℕ)
    (listed : (get_uint64_attribute dw_at_ranges e == 0) ≡ false)
    (no_high : has_attribute dw_at_high_pc e ≡ false) (fit : All IsItem is)
    (laid : rest (skip (get_uint64_attribute dw_at_ranges e) section).1
      ≡ list_bytes is ++ more) where
  turns : length is < suc (get_remains (skip (get_uint64_attribute dw_at_ranges e) section).1)
  turns =
      let r = (skip (get_uint64_attribute dw_at_ranges e) section).1 in
      omega (
        arith,
        ap length laid,
        length-drop r.offset r.bytes,
        length-append (list_bytes is) more,
        length-list_bytes is,
      )

  insert_ranges-decoded :
      (version : ℕ) (funcref : Reference) (t : Tree Reference)
      → insert_ranges version section e funcref t ≡ insert_all (tagged funcref (decoded 0 is)) t
  unfolding insert_ranges
  insert_ranges-decoded version funcref t =
      rw (no_high, and_false (has_attribute dw_at_low_pc e), listed)
        (ranges_loop-list_bytes _ funcref 0 is _ more t turns fit laid)

  -- An entry with a list of ranges and no high end, the ranges all apart from each other and from
  -- those of the index, is found from then on for the addresses of its ranges, and what the index had
  -- is found as before.
  pub insert_ranges-found :
      (version : ℕ) (funcref : Reference) (t : Tree Reference) (addr : ℕ)
      → AreSeparate (tagged funcref (decoded 0 is))
      → AreNew (tagged funcref (decoded 0 is)) t
      → IsOrdered t
      → find addr (insert_ranges version section e funcref t)
        ≡ or_else (first_covering addr (tagged funcref (decoded 0 is))) (find addr t)
  insert_ranges-found version funcref t addr separate new ordered =
      rw (insert_ranges-decoded version funcref t)
        (find-insert_all (tagged funcref (decoded 0 is)) t addr separate new ordered)

  -- An index of one entry, with a list of ranges that are apart and not empty, without a low or a high
  -- end, finds an address exactly if is_within says that the entry has it.
  pub is_within-insert_ranges :
      (version : ℕ) (funcref : Reference) (addr : ℕ)
      → has_attribute dw_at_low_pc e ≡ false
      → All IsSpan (decoded 0 is)
      → AreSeparate (tagged funcref (decoded 0 is))
      → is_some (is_within addr section e)
        ≡ is_some (find addr (insert_ranges version section e funcref []))
  unfolding is_within find IsOrdered
  is_within-insert_ranges version funcref addr no_low wide separate =
      let r = (skip (get_uint64_attribute dw_at_ranges e) section).1 in
      let found = first_covering addr (tagged funcref (decoded 0 is)) in
      rw (insert_ranges-found version funcref [] addr separate (new_empty _) tt) (
        rw (no_low, listed)
          (kept (within_loop (suc (get_remains r)) addr 0 r) _ (rw no_low refl)
            ∙ within_loop-list_bytes _ addr 0 funcref is r more turns fit wide laid
            ∙ sym (or_none found)))
