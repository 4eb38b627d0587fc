-- ===== src/Dwarf/Walker/Moves/Entries.antt =====
-- The entries of a list as the walker reads them, and its level before and behind.
use novaprova.Prelude.{ℕ, suc, ◌≡◌, refl, sym, ◌∙◌, true, false, arith, subst}
use novaprova.Dwarf.Entry.{has_children}
use novaprova.Dwarf.Walker.{UnitView, Walker, enters, Answer, eof, eol, ok, filtered, read_entry}
use novaprova.Dwarf.Walker.Moves.Levels.{below, Levels, read_entry-Levels}

-- The entries of a list, up to the code 0 that ends it: each with the list of its children or none.
pub data Forest : Type 0 where
  end : Forest
  leaf : Forest → Forest
  node : Forest → Forest → Forest

-- How many times `read_entry` is called for it, and m.
unfoldable pub reads : Forest → ℕ → ℕ
reads end m = suc m
reads (leaf rest) m = suc (reads rest m)
reads (node children rest) m = suc (reads children (reads rest m))

abbrev pub IsEntry : Answer → Type 0
IsEntry ok = Unit {0}
IsEntry filtered = Unit {0}
IsEntry eof = ⊥
IsEntry eol = ⊥

-- An entry is read, maybe one that is filtered out.
abbrev pub Enters : UnitView → Walker → Walker → Type 0
Enters cu w w1 = (a : Answer) × IsEntry a × (read_entry cu w ≡ enters a w1)

-- A walker reads the list and is then another one.
unfoldable pub Reads : UnitView → Forest → Walker → Walker → Type 0
Reads cu end w w' = read_entry cu w ≡ enters eol w'
Reads cu (leaf rest) w w' =
    (w1 : Walker) × Enters cu w w1 × (has_children w1.entry ≡ false) × Reads cu rest w1 w'
Reads cu (node children rest) w w' =
    (w1 : Walker) × Enters cu w w1
    × (has_children w1.entry ≡ true)
    × (w2 : Walker) × Reads cu children w1 w2
    × Reads cu rest w2 w'

module _ (cu : UnitView) where
  -- The levels of an entry that is read.
  pub entry-Levels :
      (w w1 : Walker)
      → Enters cu w w1
      → (w1.entry.level ≡ w.level) × (w1.level ≡ below w1.entry w.level)
  unfolding Levels
  entry-Levels w w1 (ok, i, e) = subst (Levels w.level) e (read_entry-Levels cu w)
  entry-Levels w w1 (filtered, i, e) = subst (Levels w.level) e (read_entry-Levels cu w)
  entry-Levels w w1 (eof, i, e) = absurd i
  entry-Levels w w1 (eol, i, e) = absurd i

  pub leaf_level :
      (w w1 : Walker) → Enters cu w w1 → has_children w1.entry ≡ false → w1.level ≡ w.level
  leaf_level w w1 en h = let (_, l) = entry-Levels w w1 en in l ∙ rw h refl

  pub node_level :
      (w w1 : Walker) → Enters cu w w1 → has_children w1.entry ≡ true → w1.level ≡ suc w.level
  node_level w w1 en h = let (_, l) = entry-Levels w w1 en in l ∙ rw h refl

  -- The list of children is one level below the walker behind it.
  pub Reads-level : (f : Forest) (w w' : Walker) → Reads cu f w w' → w.level ≡ suc w'.level
  unfolding Reads Levels
  Reads-level end w w' e = subst (Levels w.level) e (read_entry-Levels cu w)
  Reads-level (leaf rest) w w' (w1, en, h, more) =
      sym (leaf_level w w1 en h) ∙ Reads-level rest w1 w' more
  Reads-level (node children rest) w w' (w1, en, h, w2, inner, more) =
      let a = node_level w w1 en h in
      let b = Reads-level children w1 w2 inner in
      let c = Reads-level rest w2 w' more in omega (arith, a, b, c)
