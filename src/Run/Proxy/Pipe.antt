-- ===== src/Run/Proxy/Pipe.antt =====
-- `deserialise_bytes` does not depend on how the kernel cuts the stream into reads.
use novaprova.Prelude.{
  ℕ, zero, suc, ◌-◌, ◌≤◌, ◌<◌, ◌≡◌, ◌≢◌, refl, sym, ap, ◌∙◌, Option, none, some, List, [], ◌∷◌,
  ◌++◌, arith, length, take, drop, length-append, length-take, take-append_ge, drop-append_ge,
  take-append_le, drop-append_le, take-append_length, drop-append_length, leb, Bool-cases, inl, inr,
  tests, append-nil, subst, length-drop,
}
use novaprova.Run.Proxy.{Pipe, bytes, failure, read_fd, read_loop, deserialise_bytes, M, and_then}

-- What is still to come out of the pipe.
unfoldable pub content : Pipe → List ℕ
content [] = []
content (bytes bs ∷ p) = bs ++ content p
content (failure ∷ p) = content p

-- No read fails, and none comes back empty before the end.
abbrev pub IsFlowing : Pipe → Type 0
IsFlowing [] = Unit {0}
IsFlowing (bytes bs ∷ p) = (bs ≢ []) × IsFlowing p
IsFlowing (failure ∷ p) = ⊥

-- A read that gives `a`, and leaves `more` in a pipe that flows on.
abbrev pub Reads : {A : Type 0} → Option A × Pipe → A → List ℕ → Type 0
Reads q a more = (q.0 ≡ some a) × (content q.1 ≡ more) × IsFlowing q.1

pub Reads-cast :
    {A : Type 0} {a b : A} {more rest : List ℕ} (q : Option A × Pipe)
    → a ≡ b
    → more ≡ rest
    → Reads q a more
    → Reads q b rest
Reads-cast q e f (x, y, z) = (x ∙ ap some e, y ∙ f, z)

-- A read behind another read.
pub and_then-Reads :
    {A B : Type 0} {a : A} {b : B} {mid more : List ℕ} (q : Option A × Pipe) (f : A → M B)
    → Reads q a mid
    → ((p : Pipe) → content p ≡ mid → IsFlowing p → Reads (f a p) b more)
    → Reads (and_then q f) b more
and_then-Reads (none, p) f (x, y, z) k = cc
and_then-Reads {a = a} {b = b} {more = more} (some a', p) f (x, y, z) k =
    let e : a ≡ a' = cc in subst (λ t. Reads (f t p) b more) e (k p y z)

-- One round of the loop that finds `got`.
round :
    (fuel len : ℕ) (p rest : Pipe) (b : ℕ) (bs : List ℕ)
    → read_fd (suc len) p ≡ (some (b ∷ bs), rest)
    → read_loop (suc fuel) (suc len) p
      ≡ and_then
          (read_loop fuel (suc len - length (b ∷ bs)) rest)
          (λ more rest'. (some ((b ∷ bs) ++ more), rest'))
unfolding read_loop
round fuel len p rest b bs e = rw e

-- The bytes that a round has found stand before those of the rest of the loop.
prepend-Reads :
    (got xs more : List ℕ) (q : Option (List ℕ) × Pipe)
    → Reads q xs more
    → Reads (and_then q (λ ys rest. (some (got ++ ys), rest))) (got ++ xs) more
prepend-Reads got xs more q h = and_then-Reads q _ h (λ p f g. (refl, f, g))

drop-ne-nil : (n : ℕ) (xs : List ℕ) → n < length xs → drop n xs ≢ []
drop-ne-nil n xs h e = omega (arith, ap length e, length-drop n xs)

read_loop-Reads :
    (fuel len : ℕ) (p : Pipe)
    → IsFlowing p
    → len < fuel
    → len ≤ length (content p)
    → Reads (read_loop fuel len p) (take len (content p)) (drop len (content p))
unfolding content
read_loop-Reads zero len p g h fits = absurd (omega arith)
read_loop-Reads (suc fuel) zero p g h fits = unfold read_loop in (refl, refl, g)
read_loop-Reads (suc fuel) (suc len) [] g h fits = absurd (omega arith)
read_loop-Reads (suc fuel) (suc len) (failure ∷ p) g h fits = absurd g
read_loop-Reads (suc fuel) (suc len) (bytes [] ∷ p) g h fits = absurd (g.0 refl)
read_loop-Reads (suc fuel) (suc len) (bytes (c ∷ cs) ∷ p) g h fits =
    elim (Bool-cases (leb (length (c ∷ cs)) (suc len))) [
      | inl e ↦
          let n = suc len - length (c ∷ cs) in
          rw (round fuel len (bytes (c ∷ cs) ∷ p) p c cs (unfold read_fd in rw e)) (
            Reads-cast _ (sym (take-append_ge (suc len) (c ∷ cs) (content p) (omega tests)))
              (sym (drop-append_ge (suc len) (c ∷ cs) (content p) (omega tests)))
              (prepend-Reads (c ∷ cs) _ _ _ (
                read_loop-Reads fuel n p g.1 (omega arith)
                  (omega (tests, length-append (c ∷ cs) (content p))))))
      | inr e ↦
          let left : Pipe = bytes (drop (suc len) (c ∷ cs)) ∷ p in
          let n = suc len - length (take (suc len) (c ∷ cs)) in
          let none_left : n ≡ 0 = omega (tests, length-take (suc len) (c ∷ cs)) in
          rw (round fuel len (bytes (c ∷ cs) ∷ p) left c (take len cs) (unfold read_fd in rw e)) (
            Reads-cast _
              (append-nil (take (suc len) (c ∷ cs))
                ∙ sym (take-append_le (suc len) (c ∷ cs) (content p) (omega tests)))
              (sym (drop-append_le (suc len) (c ∷ cs) (content p) (omega tests)))
              (prepend-Reads (take (suc len) (c ∷ cs)) [] _ _ (
                Reads-cast _ (ap (λ k. take k (content left)) none_left)
                  (ap (λ k. drop k (content left)) none_left)
                  (read_loop-Reads fuel n left (drop-ne-nil (suc len) (c ∷ cs) (omega tests), g.1)
                    (omega arith) (omega arith)))))
    ]

-- The bytes that were written are read, however the stream is cut into reads.
pub deserialise_bytes-Reads :
    (bs more : List ℕ) (p : Pipe)
    → IsFlowing p
    → content p ≡ bs ++ more
    → Reads (deserialise_bytes (length bs) p) bs more
unfolding deserialise_bytes
deserialise_bytes-Reads bs more p g e =
    Reads-cast _ (ap (take (length bs)) e ∙ take-append_length bs more)
      (ap (drop (length bs)) e ∙ drop-append_length bs more)
      (read_loop-Reads (suc (length bs)) (length bs) p g (omega arith)
        (omega (arith, ap length e, length-append bs more)))
