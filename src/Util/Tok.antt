-- ===== src/Util/Tok.antt =====
-- np/util/tok.hxx and tok.cxx: the tokenizer `tok_t` over `strtok_r`. Text is a list of bytes
-- without NULs. The copy of the string that `tok_t` owns is not told from the string.
use novaprova.Prelude.{
  ℕ, ◌≡◌, ◌≢◌, refl, Bool, true, false, Option, none, some, List, [], ◌∷◌, ◌++◌, arith, ◌==◌, ◌||◌,
  if◌then◌else◌, Bool-cases, inl, inr, append-nil, append_assoc, ap, ◌∙◌, sym, subst, length, suc,
  zero, ◌≤◌,
}

abbrev pub is_sep : List ℕ → ℕ → Bool
is_sep [] c = false
is_sep (d ∷ ds) c = c == d || is_sep ds c

unfoldable pub skip_seps : List ℕ → List ℕ → List ℕ
skip_seps sep [] = []
skip_seps sep (c ∷ s) = if is_sep sep c then skip_seps sep s else c ∷ s

-- The run up to the next separator, and what stands behind that.
unfoldable pub take_run : List ℕ → List ℕ → List ℕ
take_run sep [] = []
take_run sep (c ∷ s) = if is_sep sep c then [] else c ∷ take_run sep s

unfoldable pub drop_run : List ℕ → List ℕ → List ℕ
drop_run sep [] = []
drop_run sep (c ∷ s) = if is_sep sep c then s else drop_run sep s

abbrev pub token_of : List ℕ → List ℕ → Option (List ℕ) × List ℕ
token_of sep [] = (none, [])
token_of sep (c ∷ s) = (some (take_run sep (c ∷ s)), drop_run sep (c ∷ s))

-- `strtok_r(s, sep, &state)`: the token, and the state.
unfoldable pub strtok_r : List ℕ → List ℕ → Option (List ℕ) × List ℕ
strtok_r sep s = token_of sep (skip_seps sep s)

pub record Tok : Type 0 where
  pub first : Bool
  pub buf : Option (List ℕ)
  pub state : List ℕ
  pub sep : List ℕ

abbrev pub default_sep : List ℕ
default_sep = 32 ∷ 9 ∷ 13 ∷ 10 ∷ []

unfoldable pub init : Option (List ℕ) → Option (List ℕ) → Tok
init str sep = record {
  first = true;
  buf = str;
  state = [];
  sep = elim sep [ none ↦ default_sep | some s ↦ s ];
}

abbrev pub next_from : List ℕ → Tok → Option (List ℕ) × Tok
next_from s t =
    let (token, state) = strtok_r t.sep s in (token, record t { first = false; state = state })

unfoldable pub next : Tok → Option (List ℕ) × Tok
next t = elim t.buf [ none ↦ (none, t) | some s ↦ next_from (if t.first then s else t.state) t ]

-- What is still to be split.
abbrev pub pending : Tok → List ℕ
pending t = elim t.buf [ none ↦ [] | some s ↦ if t.first then s else t.state ]

abbrev pub emit : List ℕ → List (List ℕ) → List (List ℕ)
emit [] ws = ws
emit (c ∷ w) ws = (c ∷ w) ∷ ws

-- The maximal runs without a separator, in order: `w` is the run that has begun. This is what a
-- loop over `next` goes through.
unfoldable pub runs : List ℕ → List ℕ → List ℕ → List (List ℕ)
runs sep w [] = emit w []
runs sep w (c ∷ s) =
    let cut = runs sep [] s in
    let grow = runs sep (w ++ (c ∷ [])) s in if is_sep sep c then emit w cut else grow

abbrev pub tokens : List ℕ → List ℕ → List (List ℕ)
tokens sep = runs sep []

runs-skip_seps : (sep s : List ℕ) → tokens sep (skip_seps sep s) ≡ tokens sep s
unfolding runs skip_seps
runs-skip_seps sep [] = refl
runs-skip_seps sep (c ∷ s) = elim (Bool-cases (is_sep sep c)) [
  | inl e ↦ rw (e, runs) (runs-skip_seps sep s)
  | inr e ↦ rw (e, runs) (rw e)
]

runs-take_run :
    (sep w s : List ℕ) → runs sep w s ≡ emit (w ++ take_run sep s) (tokens sep (drop_run sep s))
unfolding runs take_run drop_run
runs-take_run sep w [] = rw append-nil
runs-take_run sep w (c ∷ s) = elim (Bool-cases (is_sep sep c)) [
  | inl e ↦ rw (e, append-nil)
  | inr e ↦ rw e (
      runs-take_run sep (w ++ (c ∷ [])) s
      ∙ ap (λ t. emit t (tokens sep (drop_run sep s))) (append_assoc w (c ∷ []) (take_run sep s)))
]

abbrev pub head_of : List (List ℕ) → Option (List ℕ)
head_of [] = none
head_of (w ∷ ws) = some w

abbrev pub tail_of : List (List ℕ) → List (List ℕ)
tail_of [] = []
tail_of (w ∷ ws) = ws

-- The text behind the separators that `strtok_r` skips begins with no separator.
skip_seps-cons :
    (sep s : List ℕ) (c : ℕ) (r : List ℕ) → skip_seps sep s ≡ c ∷ r → is_sep sep c ≡ false
unfolding skip_seps
skip_seps-cons sep [] c r h = cc
skip_seps-cons sep (d ∷ s) c r h = ground (arith, skip_seps-cons sep s c r)

tokens-cons :
    (sep : List ℕ) (c : ℕ) (s : List ℕ)
    → is_sep sep c ≡ false
    → (take_run sep (c ∷ s) ≡ c ∷ take_run sep s)
      × (tokens sep (c ∷ s) ≡ (c ∷ take_run sep s) ∷ tokens sep (drop_run sep (c ∷ s)))
unfolding take_run
tokens-cons sep c s e = (rw e, runs-take_run sep [] (c ∷ s) ∙ rw e)

token_of-tokens :
    (sep s : List ℕ)
    → ((c : ℕ) (r : List ℕ) → s ≡ c ∷ r → is_sep sep c ≡ false)
    → ((token_of sep s).0 ≡ head_of (tokens sep s))
      × (tokens sep (token_of sep s).1 ≡ tail_of (tokens sep s))
token_of-tokens sep [] h = unfold runs in (refl, refl)
token_of-tokens sep (c ∷ s) h =
    let (run, cut) = tokens-cons sep c s (h c s refl) in (rw (run, cut), rw cut)

next_from-tokens :
    (t : Tok) (s : List ℕ)
    → ((next_from s t).0 ≡ head_of (tokens t.sep s))
      × (tokens t.sep (next_from s t).1.state ≡ tail_of (tokens t.sep s))
unfolding strtok_r
next_from-tokens t s =
    rw (← runs-skip_seps t.sep s)
      (token_of-tokens t.sep (skip_seps t.sep s) (skip_seps-cons t.sep s))

abbrev IsNextRun : Tok → Type 0
IsNextRun t =
    ((next t).0 ≡ head_of (tokens t.sep (pending t)))
    × (tokens t.sep (pending (next t).1) ≡ tail_of (tokens t.sep (pending t)))

-- Each call of `next` on a string hands out the next run without a separator, and keeps the runs
-- behind it: a loop over `next` goes through `tokens`, in order.
pub next-tokens : (t : Tok) (s : List ℕ) → t.buf ≡ some s → IsNextRun t
unfolding next
next-tokens t s h =
    subst (λ b. IsNextRun (record t { buf = b })) (sym h)
      (next_from-tokens t (if t.first then s else t.state))

-- The tokens that a loop over `next` gets in `fuel` calls.
unfoldable pub parts : ℕ → Tok → List (List ℕ)
parts zero t = []
parts (suc fuel) t =
    let rest = parts fuel (next t).1 in elim (next t).0 [ none ↦ [] | some w ↦ w ∷ rest ]

length-runs : (sep w s : List ℕ) → length (runs sep w s) ≤ suc (length s)
unfolding runs
length-runs sep [] [] = ground arith
length-runs sep (d ∷ w) [] = ground arith
length-runs sep [] (c ∷ s) = ground (arith, length-runs sep [] s, length-runs sep (c ∷ []) s)
length-runs sep (d ∷ w) (c ∷ s) =
    ground (arith, length-runs sep [] s, length-runs sep (d ∷ (w ++ (c ∷ []))) s)

parts-cons :
    (ws : List (List ℕ)) (o : Option (List ℕ)) (rest : List (List ℕ))
    → o ≡ head_of ws
    → (ws ≢ [] → rest ≡ tail_of ws)
    → elim o [ none ↦ [] | some w ↦ w ∷ rest ] ≡ ws
parts-cons [] o rest h k = rw h
parts-cons (w ∷ ws) o rest h k = rw (h, k cc)

length-tail_of : (ws : List (List ℕ)) (n : ℕ) → length ws ≤ suc n → length (tail_of ws) ≤ n
length-tail_of [] n h = ground arith
length-tail_of (w ∷ ws) n h = omega arith

tail_of-nil : (ws : List (List ℕ)) → length ws ≤ 0 → [] ≡ tail_of ws
tail_of-nil [] h = refl
tail_of-nil (w ∷ ws) h = ground arith

abbrev on : Tok → List ℕ → Tok
on t s = record t { buf = some s }

parts_on :
    (fuel : ℕ) (t : Tok) (s : List ℕ)
    → length (tokens t.sep (pending (on t s))) ≤ fuel
    → parts (suc fuel) (on t s) ≡ tokens t.sep (pending (on t s))
unfolding parts next
parts_on zero t s h =
    let (word, rest) = next_from-tokens (on t s) (if t.first then s else t.state) in
    parts-cons _ _ _ word (λ k. tail_of-nil _ h)
parts_on (suc fuel) t s h =
    let (word, rest) = next_from-tokens (on t s) (if t.first then s else t.state) in
    parts-cons _ _ _ word (λ k.
      parts_on fuel (next_from (if t.first then s else t.state) t).1 s
        (subst (λ ws. length ws ≤ fuel) (sym rest) (length-tail_of _ fuel h))
      ∙ rest)

-- A loop over `next` on a string comes to its end within one call more than the string has bytes,
-- and goes through the runs without a separator, in order.
pub parts-tokens :
    (t : Tok) (s : List ℕ)
    → t.buf ≡ some s
    → parts (suc (suc (length (pending t)))) t ≡ tokens t.sep (pending t)
parts-tokens t s h =
    subst
      (λ b.
        let u = record t { buf = b } in
        parts (suc (suc (length (pending u)))) u ≡ tokens u.sep (pending u))
      (sym h)
      (parts_on (suc (length (pending (on t s)))) t s (length-runs t.sep [] (pending (on t s))))
