-- ===== src/Dwarf/State/Loaded.antt =====
-- The link objects of the process, and addresses as they are recorded in them.
use novaprova.Prelude.{
  ℕ, ◌+◌, ◌%◌, ◌^◌, ◌<◌, ◌≡◌, ◌≢◌, ◌⊎◌, refl, ◌∙◌, ap, false, none, some, List, [], ◌∷◌, ◌++◌,
  length, get_elem?, arith, Option-cases, inl, inr,
}
use novaprova.Util.RangeTree.{Range, Tree, insert, find}
use novaprova.Util.RangeTree.Lookup.{first_covering, IsOrdered}
use novaprova.Util.RangeTree.Filled.{insert_all, AreSeparate, AreNew, find-insert_all}
use novaprova.Dwarf.State.{
  Mapped, LinkObj, LinkObject, Objects, filename_is_ignored, same_text, find_object,
  get_link_object, make_link_object, index_mappings, add_object, add_objects, live_address,
  object_recorded_address, recorded_address,
}

-- An address in a link object reads as recorded in it, and back.
pub object_recorded_address-live_address :
    (lo : LinkObject) (a : ℕ)
    → a < 2 ^ 64
    → (live_address lo a ≢ 0) ⊎ (a ≡ 0)
    → object_recorded_address lo (live_address lo a) ≡ a
unfolding object_recorded_address live_address
object_recorded_address-live_address lo a h (inl real) = ground arith
object_recorded_address-live_address lo a h (inr zero_a) = ground arith

-- The ranges of mappings, for an object.
unfoldable pub pieces : ℕ → List Mapped → List (Range × ℕ)
pieces n [] = []
pieces n (m ∷ ms) = (record { lo = m.map; hi = (m.map + m.size) % 2 ^ 64 }, n) ∷ pieces n ms

index_mappings-insert_all :
    (n : ℕ) (ms : List Mapped) (t : Tree ℕ) → index_mappings n ms t ≡ insert_all (pieces n ms) t
unfolding index_mappings insert_all pieces insert
index_mappings-insert_all n [] t = refl
index_mappings-insert_all n (m ∷ ms) t = index_mappings-insert_all n ms _

get_elem?_last : {A : Type 0} (xs : List A) (x : A) → get_elem? (xs ++ x ∷ []) (length xs) ≡ some x
get_elem?_last [] x = refl
get_elem?_last (y ∷ ys) x = get_elem?_last ys x

covered_by :
    (n addr : ℕ) (ms : List Mapped) (e : Range × ℕ)
    → first_covering addr (pieces n ms) ≡ some e
    → e.1 ≡ n
unfolding first_covering pieces
covered_by n addr [] e h = cc h
covered_by n addr (m ∷ ms) e h =
    let r : Range = record { lo = m.map; hi = (m.map + m.size) % 2 ^ 64 } in
    ground (arith, covered_by n addr ms e)

recorded_by :
    (s : Objects) (addr : ℕ) (e : Range × ℕ) (lo : LinkObject)
    → find addr s.index ≡ some e
    → get_elem? s.objects e.1 ≡ some lo
    → recorded_address s addr ≡ object_recorded_address lo addr
unfolding recorded_address
recorded_by s addr e lo found held = rw (recorded_address, found) (rw held)

-- The link object that add_self makes of one of the platform's.
abbrev pub object_of : List ℕ → LinkObj → LinkObject
object_of filename l = record { filename = filename; slide = l.slide; system_mappings = l.mappings }

abbrev pub name_of : List ℕ → LinkObj → List ℕ
name_of exe l = elim l.name [ none ↦ exe | some name ↦ name ]

module _ (exe : List ℕ) (l : LinkObj) (s : Objects)
    (loads : filename_is_ignored (name_of exe l) ≡ none)
    (new_name : get_link_object s (name_of exe l) ≡ none) where
  added : add_object exe l s ≡ record {
    objects = s.objects ++ object_of (name_of exe l) l ∷ [];
    index = index_mappings (length s.objects) l.mappings s.index;
  }
  unfolding add_object make_link_object
  added = rw (loads, new_name) refl

  -- When a link object, neither ignored nor loaded before, is loaded, with mappings apart from each
  -- other and from those before, an address that is live in one of them is recorded as the address in
  -- the object that it is the live one of.
  pub recorded_address-add_object :
      (a : ℕ) (e : Range × ℕ)
      → AreSeparate (pieces (length s.objects) l.mappings)
      → AreNew (pieces (length s.objects) l.mappings) s.index
      → IsOrdered s.index
      → a < 2 ^ 64
      → first_covering
          (live_address (object_of (name_of exe l) l) a)
          (pieces (length s.objects) l.mappings)
        ≡ some e
      → live_address (object_of (name_of exe l) l) a ≢ 0
      → recorded_address (add_object exe l s) (live_address (object_of (name_of exe l) l) a) ≡ a
  recorded_address-add_object a e separate new ordered fits here live =
      let lo = object_of (name_of exe l) l in
      let n = length s.objects in
      let addr = live_address lo a in
      let s' : Objects = record {
        objects = s.objects ++ lo ∷ [];
        index = index_mappings n l.mappings s.index;
      } in
      let found : find addr s'.index ≡ some e =
        rw (index_mappings-insert_all n l.mappings s.index) (
          find-insert_all (pieces n l.mappings) s.index addr separate new ordered ∙ rw here refl) in
      let held = ap (get_elem? s'.objects) (covered_by n addr l.mappings e here) in
      rw added (
        recorded_by s' addr e lo found (held ∙ get_elem?_last s.objects lo)
        ∙ object_recorded_address-live_address lo a fits (inl live))

ignored :
    (exe : List ℕ) (l : LinkObj) (s : Objects) (prefix : List ℕ)
    → filename_is_ignored (name_of exe l) ≡ some prefix
    → add_object exe l s ≡ s
unfolding add_object
ignored exe l s prefix e = rw e refl

duplicate :
    (exe : List ℕ) (l : LinkObj) (s : Objects)
    → filename_is_ignored (name_of exe l) ≡ none
    → (lo : LinkObject) → get_link_object s (name_of exe l) ≡ some lo
    → add_object exe l s ≡ s
unfolding add_object
duplicate exe l s loads lo e = rw (loads, e) refl

new_here :
    (s : Objects) (name : List ℕ)
    → get_link_object s name ≡ none
    → find_object s.objects name ≡ none
unfolding get_link_object
new_here s name e = e

-- The names of the link objects that are loaded are all different, and none is ignored.
unfoldable pub AreNamed : List LinkObject → Type 0
AreNamed [] = Unit
AreNamed (o ∷ os) =
    (filename_is_ignored o.filename ≡ none) × (find_object os o.filename ≡ none) × AreNamed os

find_object-append :
    (os : List LinkObject) (o : LinkObject) (name : List ℕ)
    → find_object os name ≡ none
    → same_text o.filename name ≡ false
    → find_object (os ++ o ∷ []) name ≡ none
unfolding find_object
find_object-append [] o name e n = rw n
find_object-append (p ∷ os) o name e n = ground (arith, find_object-append os o name)

same_text_comm : (a b : List ℕ) → same_text a b ≡ same_text b a
unfolding same_text
same_text_comm [] [] = refl
same_text_comm [] (d ∷ ds) = refl
same_text_comm (c ∷ cs) [] = refl
same_text_comm (c ∷ cs) (d ∷ ds) = rw (same_text_comm cs ds) (ground arith)

not_first :
    (p : LinkObject) (os : List LinkObject) (name : List ℕ)
    → find_object (p ∷ os) name ≡ none
    → (same_text p.filename name ≡ false) × (find_object os name ≡ none)
unfolding find_object
not_first p os name h = ground arith

AreNamed-append :
    (os : List LinkObject) (o : LinkObject)
    → filename_is_ignored o.filename ≡ none
    → find_object os o.filename ≡ none
    → AreNamed os
    → AreNamed (os ++ o ∷ [])
unfolding AreNamed find_object
AreNamed-append [] o loads new named = (loads, refl, tt)
AreNamed-append (p ∷ os) o loads new (first, alone, named) =
    let (other, rest) = not_first p os o.filename new in
    (
      first,
      find_object-append os o p.filename alone (same_text_comm o.filename p.filename ∙ other),
      AreNamed-append os o loads rest named,
    )

add_object-AreNamed :
    (exe : List ℕ) (l : LinkObj) (s : Objects)
    → AreNamed s.objects
    → AreNamed (add_object exe l s).objects
add_object-AreNamed exe l s named = elim (Option-cases (filename_is_ignored (name_of exe l))) [
  | inr (prefix, e) ↦ rw (ignored exe l s prefix e) named
  | inl loads ↦ elim (Option-cases (get_link_object s (name_of exe l))) [
    | inr (lo, e) ↦ rw (duplicate exe l s loads lo e) named
    | inl new ↦
        rw (added exe l s loads new)
          (AreNamed-append s.objects (object_of (name_of exe l) l) loads (new_here s _ new) named)
  ]
]

-- Loading the platform's link objects keeps their names different, and loads none that is ignored.
pub add_objects-AreNamed :
    (exe : List ℕ) (ls : List LinkObj) (s : Objects)
    → AreNamed s.objects
    → AreNamed (add_objects exe ls s).objects
unfolding add_objects
add_objects-AreNamed exe [] s named = named
add_objects-AreNamed exe (l ∷ ls) s named =
    add_objects-AreNamed exe ls (add_object exe l s) (add_object-AreNamed exe l s named)
