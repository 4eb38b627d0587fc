-- ===== src/Suite/Tree/Paths.antt =====
-- `make_path` makes a path once.
use novaprova.Prelude.{
  some-injective, ℕ, zero, suc, ◌≡◌, refl, sym, ap, ◌∙◌, subst, true, false, some, List, [], ◌∷◌,
  length, Bool-cases, inl, inr,
}
use novaprova.Util.FileName.Push.{same_refl}
use novaprova.Suite.Tree.{
  path_parts, lead_to, Node, Nodes, nil, cons, Members, Above, Place, members, children, close,
  put_before, is_called, new_node, child_at, enter, make_parts, make_path,
}

abbrev Unlike : List ℕ → Nodes → Type 0
Unlike part nil = Unit {0}
Unlike part (cons n ns) = (is_called part (members n) ≡ false) × Unlike part ns

-- The search passes the children that have another name.
child_at-put_before :
    (m : Members) (part : List ℕ) (before ns : Nodes) (above : List Above)
    → Unlike part before
    → child_at m part nil (put_before before ns) above ≡ child_at m part before ns above
unfolding put_before
child_at-put_before m part nil ns above u = refl
child_at-put_before m part (cons n before) ns above u =
    child_at-put_before m part before (cons n ns) above u.1 ∙ unfold child_at in rw u.0

-- Where the search ends: at a child of the name, behind others that have it not.
abbrev Enters : Members → List ℕ → List Above → Place → Type 0
Enters m part above q =
    (b : Nodes) × (s : Nodes) × (q.above ≡ record { parent = m; before = b; behind = s } ∷ above)
    × Unlike part b
    × (is_called part (members q.focus) ≡ true)

child_at-Enters :
    (m : Members) (part : List ℕ) (before ns : Nodes) (above : List Above)
    → Unlike part before
    → Enters m part above (child_at m part before ns above)
unfolding child_at new_node
child_at-Enters m part before nil above u = (before, nil, refl, u, same_refl part)
child_at-Enters m part before (cons n ns) above u = elim (Bool-cases (is_called part (members n))) [
  | inl e ↦ rw (e, child_at) (before, ns, refl, u, e)
  | inr e ↦ rw (e, child_at) (child_at-Enters m part (cons n before) ns above (e, u))
]

abbrev up_from : Node → List Above → Place
up_from n [] = record { focus = n; above = [] }
up_from n (a ∷ above) = record { focus = close n a; above = above }

-- The parent of a place.
pub up : Place → Place
up p = up_from p.focus p.above

pub ups : ℕ → Place → Place
ups zero p = p
ups (suc n) p = up (ups n p)

abbrev Leads : List (List ℕ) → Place → Place → Type 0
Leads ps p q =
    let top = ups (length ps) q in
    (top.above ≡ p.above) × (members top.focus ≡ members p.focus) × (make_parts ps top ≡ q)

-- What the parent of a place is: entered again, it comes back to the place.
abbrev Returns : Members → List ℕ → List Above → Place → Type 0
Returns m part above t =
    ((up t).above ≡ above) × (members (up t).focus ≡ m) × (enter part (up t) ≡ t)

enter-up :
    (m : Members) (part : List ℕ) (b s : Nodes) (n : Node) (above : List Above)
    → Unlike part b
    → is_called part (members n) ≡ true
    → Returns m part above
        (record { focus = n; above = record { parent = m; before = b; behind = s } ∷ above })
unfolding up
enter-up m part b s n above u e =
    (refl, refl, child_at-put_before m part b (cons n s) above u ∙ unfold child_at in rw e)

enter-up_at :
    (m : Members) (part : List ℕ) (b s : Nodes) (t : Place) (above : List Above)
    → Unlike part b
    → is_called part (members t.focus) ≡ true
    → t.above ≡ record { parent = m; before = b; behind = s } ∷ above
    → Returns m part above t
enter-up_at m part b s t above u c e =
    subst (λ (l : List Above). Returns m part above (record { focus = t.focus; above = l })) (sym e)
      (enter-up m part b s t.focus above u c)

make_parts-Leads : (ps : List (List ℕ)) (p : Place) → Leads ps p (make_parts ps p)
unfolding make_parts ups
make_parts-Leads [] p = (refl, refl, refl)
make_parts-Leads (part ∷ rest) p =
    let (b, s, e, u, c) =
      child_at-Enters (members p.focus) part nil (children p.focus) p.above tt in
    let (at, same_members, again) = make_parts-Leads rest (enter part p) in
    let t = ups (length rest) (make_parts rest (enter part p)) in
    let (above, parent, back) =
      enter-up_at (members p.focus) part b s t p.above u (ap (is_called part) same_members ∙ c)
        (at ∙ e) in
    (above, parent, ap (make_parts rest) back ∙ again)

again_from :
    (ps : List (List ℕ)) (p q : Place)
    → lead_to ps p ≡ some q
    → lead_to ps (ups (length ps) q) ≡ some q
unfolding make_parts
again_from [] p q e = e
again_from (part ∷ rest) p q e =
    subst (λ r. lead_to (part ∷ rest) (ups (length (part ∷ rest)) r) ≡ some r)
      (some-injective (make_parts (part ∷ rest) p) q e)
      (ap some (make_parts-Leads (part ∷ rest) p).2)

-- A path that was made is made once: made again from the node that lies as many parents up as the
-- path has parts, it leads to the same node in the same tree, and nothing is added.
pub make_path-again :
    (name : List ℕ) (p q : Place)
    → make_path name p ≡ some q
    → make_path name (ups (length (path_parts name)) q) ≡ some q
unfolding make_path
make_path-again name p q e = again_from (path_parts name) p q e
