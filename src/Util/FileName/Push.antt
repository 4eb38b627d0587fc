-- ===== src/Util/FileName/Push.antt =====
-- What `push_back` of a path puts on, `basename`, `pop_back` and `is_path_tail` find again.
use novaprova.Prelude.{
  ℕ, suc, ◌-◌, ◌≡◌, ◌≢◌, refl, ap, true, false, none, some, List, [], ◌∷◌, ◌++◌, arith, ◌==◌, ltb,
  if◌then◌else◌, length, take, drop, All, length-append, take-append_length,
}
use novaprova.Util.FileName.{
  slash, same, find_last_slash, last_is_slash, is_path_tail, basename, pop_back, push_back,
}

abbrev pub HasNoSlash : List ℕ → Type 0
HasNoSlash s = All (λ c. c ≢ slash) s

find_last_slash-none : (s : List ℕ) → HasNoSlash s → find_last_slash s ≡ none
unfolding find_last_slash
find_last_slash-none [] h = refl
find_last_slash-none (c ∷ s) (h, hs) = rw (find_last_slash-none s hs) (ground (arith, h))

pub find_last_slash-append :
    (p s : List ℕ) → HasNoSlash s → find_last_slash (p ++ slash ∷ s) ≡ some (length p)
unfolding find_last_slash
find_last_slash-append [] s h = rw (find_last_slash-none s h)
find_last_slash-append (c ∷ p) s h = rw (find_last_slash-append p s h)

take_size : (n : ℕ) → (if suc n == 0 then 1 else suc n) ≡ suc n
take_size n = ground arith

drop-append_suc : (p s : List ℕ) (c : ℕ) → drop (suc (length p)) (p ++ c ∷ s) ≡ s
drop-append_suc [] s c = refl
drop-append_suc (d ∷ p) s c = drop-append_suc p s c

-- A name without a slash, put behind a path that does not end with one, is the path's `basename`,
-- and `pop_back` takes it off again.
pub basename-push_back :
    (c : ℕ) (path s : List ℕ)
    → last_is_slash (c ∷ path) ≡ false
    → HasNoSlash s
    → (push_back (c ∷ path) s ≡ some (c ∷ path ++ slash ∷ s))
      × (basename (c ∷ path ++ slash ∷ s) ≡ s)
      × (pop_back (c ∷ path ++ slash ∷ s) ≡ c ∷ path)
unfolding push_back basename pop_back
basename-push_back c path s h k = (
  rw h,
  rw (basename, find_last_slash-append (c ∷ path) s k) (drop-append_suc (c ∷ path) s slash),
  rw (pop_back, find_last_slash-append (c ∷ path) s k, take_size (length path))
      (take-append_length (c ∷ path) (slash ∷ s)),
)

pub same_refl : (s : List ℕ) → same s s ≡ true
unfolding same
same_refl [] = refl
same_refl (c ∷ s) = ground (arith, same_refl s)

last_is_slash-append : (p : List ℕ) → last_is_slash (p ++ slash ∷ []) ≡ true
last_is_slash-append [] = refl
last_is_slash-append (c ∷ []) = refl
last_is_slash-append (c ∷ d ∷ p) = last_is_slash-append (d ∷ p)

tail_at : (p s : List ℕ) → take (suc (length p)) (p ++ slash ∷ s) ≡ p ++ slash ∷ []
tail_at [] s = refl
tail_at (c ∷ p) s = ap (◌∷◌ c) (tail_at p s)

difflen : (p s : List ℕ) → length (p ++ slash ∷ s) - length s ≡ suc (length p)
difflen p s = omega (arith, length-append p (slash ∷ s))

fits : (p s : List ℕ) → ltb (length (p ++ slash ∷ s)) (length s) ≡ false
fits p s = ground (arith, length-append p (slash ∷ s))

-- A file is a tail of its path behind any directory.
pub is_path_tail-push_back : (p s : List ℕ) → is_path_tail (p ++ slash ∷ s) s ≡ true
unfolding is_path_tail
is_path_tail-push_back p s =
    rw (is_path_tail, fits p s, difflen p s, drop-append_suc p s slash, same_refl s, tail_at p s)
      (ground (arith, last_is_slash-append p))
