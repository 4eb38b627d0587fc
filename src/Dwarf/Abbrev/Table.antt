-- ===== src/Dwarf/Abbrev/Table.antt =====
-- What `read_abbrevs` reads of a table, and what `get_abbrev` finds in it.
use novaprova.Prelude.{
  ℕ, zero, suc, ◌≤◌, ◌<◌, ◌≡◌, ◌≢◌, refl, ap, ◌∙◌, Option, none, some, List, [], ◌∷◌, ◌++◌,
  append_assoc, arith, ◌==◌, ==_iff, if◌then◌else◌, length, length-append, length-drop, All,
  Bool-cases, inl, inr, drop,
}
use novaprova.Dwarf.Reader.{Reader, rest, advance, seek}
use novaprova.Dwarf.LineProgram.Parsing.{Parses-read_uleb128, leb_bytes, leb_value, rest-advance}
use novaprova.Dwarf.Abbrev.{
  Abbrev, Abbrevs, read, set_at, put, with_abbrev, with_code, abbrevs_loop, read_abbrevs, Loaded,
  loaded, get_abbrev,
}
use novaprova.Dwarf.Abbrev.Layout.{
  AbbrevLayout, IsAbbrev, abbrev_of, body_bytes, table_bytes, Parses-nought, Parses-read,
  length-body_bytes, length-table_bytes,
}

rest-le : (r : Reader) (bs more : List ℕ) → rest r ≡ bs ++ more → length bs ≤ length r.bytes
rest-le r bs more h =
    omega (arith, length-drop r.offset r.bytes, ap length h, length-append bs more)

with_code_positive :
    (n : ℕ) (r : Reader) (t : Abbrevs) (go : Abbrevs → Reader → Loaded)
    → 0 < n
    → with_code (some n, r) t go ≡ with_abbrev (read (suc (length r.bytes)) n r) t go
with_code_positive zero r t go h = absurd (omega arith)
with_code_positive (suc n) r t go h = refl

put-some :
    (a : AbbrevLayout) (t : Abbrevs)
    → IsAbbrev a
    → put (abbrev_of a) t ≡ some (set_at (leb_value a.code) (abbrev_of a) t)
unfolding put
put-some a t h = ground (arith, h.not_highest)

-- The table that a list of abbreviations makes of one.
unfoldable pub load : List AbbrevLayout → Abbrevs → Abbrevs
load [] t = t
load (a ∷ as_) t = load as_ (set_at (leb_value a.code) (abbrev_of a) t)

abbrevs_loop-table_bytes :
    (fuel : ℕ) (as_ : List AbbrevLayout) (t : Abbrevs) (r : Reader) (more : List ℕ)
    → All IsAbbrev as_
    → length as_ < fuel
    → rest r ≡ table_bytes as_ ++ more
    → abbrevs_loop fuel t r ≡ loaded (load as_ t)
unfolding abbrevs_loop load table_bytes
abbrevs_loop-table_bytes zero as_ t r more h lt e = absurd (omega arith)
abbrevs_loop-table_bytes (suc fuel) [] t r more h lt e =
    ap (λ q. with_code q t (abbrevs_loop fuel))
      ((Parses-nought {b = r.is64} {o = r.offset}).parses r more refl refl e)
abbrevs_loop-table_bytes (suc fuel) (a ∷ as_) t r more (h, hs) lt e =
    let code = leb_bytes a.code in
    let behind = body_bytes a ++ table_bytes as_ in
    let e1 : rest r ≡ code ++ (behind ++ more) = e ∙ append_assoc code behind more in
    let r1 = advance (length code) r in
    let e2 : rest r1 ≡ body_bytes a ++ (table_bytes as_ ++ more) =
      rest-advance r code (behind ++ more) e1
      ∙ append_assoc (body_bytes a) (table_bytes as_) more in
    let fits : length a.specs < suc (length r1.bytes) =
      omega (arith, length-body_bytes a, rest-le r1 (body_bytes a) (table_bytes as_ ++ more) e2) in
    let coded = Parses-read_uleb128 {b = r.is64} {o = r.offset} a.code h.has_code in
    let bodied = Parses-read {b = r.is64} {o = r1.offset} (suc (length r1.bytes)) a h fits in
    ap (λ q. with_code q t (abbrevs_loop fuel)) (coded.parses r (behind ++ more) refl refl e1)
    ∙ with_code_positive (leb_value a.code) r1 t (abbrevs_loop fuel) h.not_zero
    ∙ ap (λ q. with_abbrev q t (abbrevs_loop fuel))
        (bodied.parses r1 (table_bytes as_ ++ more) refl refl e2)
    ∙ rw (put-some a t h, with_abbrev)
        (abbrevs_loop-table_bytes fuel as_ (set_at (leb_value a.code) (abbrev_of a) t)
          (advance (length (body_bytes a)) r1) more hs (omega arith)
          (rest-advance r1 (body_bytes a) (table_bytes as_ ++ more) e2))

get_abbrev-set_at : (i : ℕ) (a : Abbrev) (t : Abbrevs) → get_abbrev i (set_at i a t) ≡ some a
unfolding get_abbrev set_at
get_abbrev-set_at zero a [] = refl
get_abbrev-set_at zero a (x ∷ t) = refl
get_abbrev-set_at (suc i) a [] = get_abbrev-set_at i a []
get_abbrev-set_at (suc i) a (x ∷ t) = get_abbrev-set_at i a t

get_abbrev-set_at_other :
    (c i : ℕ) (a : Abbrev) (t : Abbrevs) → c ≢ i → get_abbrev c (set_at i a t) ≡ get_abbrev c t
unfolding get_abbrev set_at
get_abbrev-set_at_other zero zero a t h = absurd (h refl)
get_abbrev-set_at_other (suc c) zero a [] h = refl
get_abbrev-set_at_other (suc c) zero a (x ∷ t) h = refl
get_abbrev-set_at_other zero (suc i) a [] h = refl
get_abbrev-set_at_other zero (suc i) a (x ∷ t) h = refl
get_abbrev-set_at_other (suc c) (suc i) a [] h = get_abbrev-set_at_other c i a [] λ e. h (ap suc e)
get_abbrev-set_at_other (suc c) (suc i) a (x ∷ t) h =
    get_abbrev-set_at_other c i a t λ e. h (ap suc e)

-- The last of the abbreviations that has the code.
unfoldable pub last_with : ℕ → List AbbrevLayout → Option Abbrev → Option Abbrev
last_with code [] o = o
last_with code (a ∷ as_) o =
    last_with code as_ (if code == leb_value a.code then some (abbrev_of a) else o)

get_abbrev-load :
    (code : ℕ) (as_ : List AbbrevLayout) (t : Abbrevs)
    → get_abbrev code (load as_ t) ≡ last_with code as_ (get_abbrev code t)
unfolding load last_with
get_abbrev-load code [] t = refl
get_abbrev-load code (a ∷ as_) t =
    get_abbrev-load code as_ (set_at (leb_value a.code) (abbrev_of a) t)
    ∙ ap (last_with code as_) (elim (Bool-cases (code == leb_value a.code)) [
      | inl e ↦
          let same_code = (==_iff code (leb_value a.code)).0 e in
          rw e (
            ap (λ c. get_abbrev c (set_at (leb_value a.code) (abbrev_of a) t)) same_code
            ∙ get_abbrev-set_at (leb_value a.code) (abbrev_of a) t)
      | inr e ↦
          let other : code ≢ leb_value a.code =
            λ same_code. cc (e, (==_iff code (leb_value a.code)).1 same_code) in
          rw e (get_abbrev-set_at_other code (leb_value a.code) (abbrev_of a) t other)
    ])

-- Where the section holds a table of abbreviations at the unit's offset, `read_abbrevs` reads all of
-- it, and `get_abbrev` then gives for each code the last abbreviation of the table that has it.
pub read_abbrevs-table_bytes :
    (as_ : List AbbrevLayout) (r : Reader) (abbrevs_offset : ℕ) (more : List ℕ)
    → All IsAbbrev as_
    → abbrevs_offset ≤ length r.bytes
    → drop abbrevs_offset r.bytes ≡ table_bytes as_ ++ more
    → (t : Abbrevs) × (read_abbrevs abbrevs_offset r ≡ loaded t)
      × ((code : ℕ) → get_abbrev code t ≡ last_with code as_ none)
unfolding read_abbrevs seek get_abbrev
read_abbrevs-table_bytes as_ r abbrevs_offset more h inside e =
    let at : Reader = record r { offset = abbrevs_offset } in
    let sought : (seek abbrevs_offset r).1 ≡ at = ground (arith, inside) in
    let fits : length as_ < suc (length r.bytes) =
      omega (arith, rest-le at (table_bytes as_) more e, length-table_bytes as_) in
    (
      load as_ [],
      ap (abbrevs_loop (suc (length r.bytes)) []) sought
          ∙ abbrevs_loop-table_bytes (suc (length r.bytes)) as_ [] at more h fits e,
      λ code. get_abbrev-load code as_ [],
    )
