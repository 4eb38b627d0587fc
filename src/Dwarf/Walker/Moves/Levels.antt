-- ===== src/Dwarf/Walker/Moves/Levels.antt =====
-- The levels of the walker and of the entry that it reads.
use novaprova.Prelude.{
  ℕ, zero, suc, ◌≡◌, refl, ◌∙◌, Bool, true, false, not, ◌&&◌, Option, none, some, List, [], ◌∷◌,
  ◌==◌, if◌then◌else◌, Bool-cases, inl, inr,
}
use novaprova.Dwarf.Reader.{Reader, M, read_uleb128}
use novaprova.Dwarf.Abbrev.{AttrSpec, Abbrev}
use novaprova.Dwarf.Entry.{
  Entry, Value, setup, partial_setup, add_attribute, has_children, is_known,
}
use novaprova.Dwarf.Walker.{
  UnitView, Walker, Entered, dies, enters, eof, eol, ok, filtered, read_entry, Walked, gives, fatal,
  read_attributes, skip_attributes, with_value, when_skipped, read_form, skip_form, enter_with,
  as_filtered, enter_abbrev, end_list, with_code,
}

-- The attributes leave the level and the abbreviation of their entry, and end no list.
unfoldable Attributes : Entry → Walked → Type 0
Attributes e fatal = Unit {0}
Attributes e (gives eof e' r) = (e'.level ≡ e.level) × (e'.abbrev_used ≡ e.abbrev_used)
Attributes e (gives ok e' r) = (e'.level ≡ e.level) × (e'.abbrev_used ≡ e.abbrev_used)
Attributes e (gives eol e' r) = ⊥
Attributes e (gives filtered e' r) = ⊥

Attributes-from :
    (e0 e : Entry) (w : Walked)
    → e0.level ≡ e.level
    → e0.abbrev_used ≡ e.abbrev_used
    → Attributes e0 w
    → Attributes e w
unfolding Attributes
Attributes-from e0 e fatal l a h = tt
Attributes-from e0 e (gives eof e' r) l a (h, k) = (h ∙ l, k ∙ a)
Attributes-from e0 e (gives ok e' r) l a (h, k) = (h ∙ l, k ∙ a)
Attributes-from e0 e (gives eol e' r) l a h = h
Attributes-from e0 e (gives filtered e' r) l a h = h

added :
    (name : ℕ) (v : Value) (e : Entry)
    → ((add_attribute name v e).level ≡ e.level)
      × ((add_attribute name v e).abbrev_used ≡ e.abbrev_used)
unfolding add_attribute
added name v e = elim (Bool-cases (is_known name)) [
  | inl k ↦ rw k (refl, refl)
  | inr k ↦ rw k (refl, refl)
]

read_attributes-Attributes :
    (cu : UnitView) (specs : List AttrSpec) (e : Entry) (r : Reader)
    → Attributes e (read_attributes cu specs e r)
unfolding read_attributes Attributes
read_attributes-Attributes cu [] e r = (refl, refl)
read_attributes-Attributes cu (s ∷ specs) e r =
    form (read_form cu s.form) (read_attributes-Attributes cu specs)
  where
    value :
        (q : Option Value × Reader)
        → ((e' : Entry) (r' : Reader) → Attributes e' (read_attributes cu specs e' r'))
        → Attributes e (with_value q e s.name (read_attributes cu specs))
    value (none, r') more = (refl, refl)
    value (some v, r') more =
        let (l, a) = added s.name v e in
        Attributes-from (add_attribute s.name v e) e
          (read_attributes cu specs (add_attribute s.name v e) r') l a
          (more (add_attribute s.name v e) r')

    form :
        (o : Option (M Value))
        → ((e' : Entry) (r' : Reader) → Attributes e' (read_attributes cu specs e' r'))
        → Attributes e (elim o [
          | none ↦ fatal
          | some m ↦ with_value (m r) e s.name (read_attributes cu specs)
        ])
    form none more = tt
    form (some m) more = value (m r) more

skip_attributes-Attributes :
    (cu : UnitView) (specs : List AttrSpec) (e : Entry) (r : Reader)
    → Attributes e (skip_attributes cu specs e r)
unfolding skip_attributes Attributes
skip_attributes-Attributes cu [] e r = (refl, refl)
skip_attributes-Attributes cu (s ∷ specs) e r =
    form (skip_form cu s.form) (skip_attributes-Attributes cu specs e)
  where
    skipped :
        (q : Option (Unit {0}) × Reader)
        → ((r' : Reader) → Attributes e (skip_attributes cu specs e r'))
        → Attributes e (when_skipped q e (skip_attributes cu specs e))
    skipped (none, r') more = (refl, refl)
    skipped (some u, r') more = more r'

    form :
        (o : Option (M (Unit {0})))
        → ((r' : Reader) → Attributes e (skip_attributes cu specs e r'))
        → Attributes e
            (elim o [ none ↦ fatal | some m ↦ when_skipped (m r) e (skip_attributes cu specs e) ])
    form none more = tt
    form (some m) more = skipped (m r) more

-- The level of the walker below an entry that is at level l.
abbrev pub below : Entry → ℕ → ℕ
below e l = if has_children e then suc l else l

-- What `read_entry` does to the level l of the walker.
unfoldable pub Levels : ℕ → Entered → Type 0
Levels l dies = Unit {0}
Levels l (enters eof w) = Unit {0}
Levels l (enters eol w) = l ≡ suc w.level
Levels l (enters ok w) = (w.entry.level ≡ l) × (w.level ≡ below w.entry l)
Levels l (enters filtered w) = (w.entry.level ≡ l) × (w.level ≡ below w.entry l)

children_of :
    (a : Abbrev) (e : Entry) (l : ℕ)
    → e.abbrev_used ≡ some a
    → (if a.children == 0 then l else suc l) ≡ below e l
unfolding has_children
children_of a e l h = elim (Bool-cases (a.children == 0)) [
  | inl z ↦ rw (h, z) refl
  | inr z ↦ rw (h, z) refl
]

module _ (a : Abbrev) (w : Walker) (e : Entry) (level : e.level ≡ w.level)
    (uses : e.abbrev_used ≡ some a) where
  read_in : (x : Walked) → Attributes e x → Levels w.level (enter_with (λ answer. answer) a w x)
  unfolding Attributes Levels
  read_in fatal h = tt
  read_in (gives eof e' r) h = tt
  read_in (gives ok e' r) (h, k) = (h ∙ level, children_of a e' w.level (k ∙ uses))
  read_in (gives eol e' r) h = absurd h
  read_in (gives filtered e' r) h = absurd h

  skipped_over : (x : Walked) → Attributes e x → Levels w.level (enter_with as_filtered a w x)
  unfolding Attributes Levels
  skipped_over fatal h = tt
  skipped_over (gives eof e' r) h = tt
  skipped_over (gives ok e' r) (h, k) = (h ∙ level, children_of a e' w.level (k ∙ uses))
  skipped_over (gives eol e' r) h = absurd h
  skipped_over (gives filtered e' r) h = absurd h

either :
    (c : Bool) (l : ℕ) (x y : Entered) → Levels l x → Levels l y → Levels l (if c then x else y)
either true l x y p q = p
either false l x y p q = q

enter_abbrev-Levels :
    (cu : UnitView) (offset : ℕ) (o : Option Abbrev) (w : Walker)
    → Levels w.level (enter_abbrev cu offset o w)
unfolding enter_abbrev Levels setup partial_setup
enter_abbrev-Levels cu offset none w = tt
enter_abbrev-Levels cu offset (some a) w =
    let e1 = partial_setup offset w.level (some a) w.entry in
    let e2 = setup offset w.level a w.entry in
    either (not (w.filter_tag == 0) && not (a.tag == w.filter_tag)) w.level _ _
      (skipped_over a w e1 refl refl _ (skip_attributes-Attributes cu a.attr_specs e1 w.reader))
      (read_in a w e2 refl refl _ (read_attributes-Attributes cu a.attr_specs e2 w.reader))

end_list-Levels : (l : ℕ) (w : Walker) → l ≡ w.level → Levels l (end_list w)
unfolding Levels
end_list-Levels l w h = by_level w.level h
  where
    by_level :
        (k : ℕ)
        → l ≡ k
        → Levels l
            (elim k [ zero ↦ enters eof w | suc level ↦ enters eol (record w { level = level }) ])
    by_level zero h = tt
    by_level (suc k) h = h

pub read_entry-Levels : (cu : UnitView) (w : Walker) → Levels w.level (read_entry cu w)
unfolding read_entry Levels
read_entry-Levels cu w = by_code (read_uleb128 w.reader)
  where
    by_code : (q : Option ℕ × Reader) → Levels w.level (with_code cu w.reader.offset w q)
    by_code (none, r) = tt
    by_code (some zero, r) = end_list-Levels w.level (record w { reader = r }) refl
    by_code (some (suc c), r) =
        enter_abbrev-Levels cu w.reader.offset (cu.get_abbrev (suc c)) (record w { reader = r })
