-- ===== src/Dwarf/LineProgram/Parsing.antt =====
-- Calls of reader.hxx that parse given bytes, put together: the sequence parses the bytes in turn.
use novaprova.Prelude.{
  ℕ, zero, suc, ◌+◌, ◌^◌, ◌≤◌, ◌<◌, ◌≡◌, refl, sym, ap, ◌∙◌, Bool, true, false, some, List, [], ◌∷◌,
  ◌++◌, append_assoc, arith, if◌then◌else◌, length, length-append, drop, drop-append_length, All,
}
use novaprova.Prelude.Bytes.{le_bytes}
use novaprova.Dwarf.Reader.{
  Reader, M, ◌>>=◌, return, rest, advance, read_u8, read_u16, read_s8, read_offset, read_uleb128,
}
use novaprova.Dwarf.Reader.Words.{
  peek-rest, within, read_u16-le_bytes, read_u32-le_bytes, read_u64-le_bytes,
}
use novaprova.Dwarf.Reader.Leb.{IsGroup, group_bytes, group_value, read_uleb128-group_bytes}
use novaprova.Dwarf.LineProgram.Header.{get_offset}

-- Where the bytes stand next at `o`, the call takes them and answers the value.
pub record Parses {A : Type 0} (b : Bool) (o : ℕ) (m : M A) (bs : List ℕ) (a : A) : Type 0 where
  pub parses :
      (r : Reader) (more : List ℕ)
      → r.is64 ≡ b
      → r.offset ≡ o
      → rest r ≡ bs ++ more
      → m r ≡ (some a, advance (length bs) r)

drop-nil : (n : ℕ) → drop {A = ℕ} n [] ≡ []
drop-nil zero = refl
drop-nil (suc n) = refl

drop-add : (m n : ℕ) (xs : List ℕ) → drop (m + n) xs ≡ drop n (drop m xs)
drop-add zero n xs = ap (λ k. drop k xs) (omega arith)
drop-add (suc m) n [] = drop-nil (suc m + n) ∙ sym (drop-nil n)
drop-add (suc m) n (x ∷ xs) =
    let e : suc m + n ≡ suc (m + n) = omega arith in ap (λ k. drop k (x ∷ xs)) e ∙ drop-add m n xs

pub rest-advance :
    (r : Reader) (bs more : List ℕ) → rest r ≡ bs ++ more → rest (advance (length bs) r) ≡ more
rest-advance r bs more h = drop-add r.offset (length bs) r.bytes ∙ rw h (drop-append_length bs more)

pub advance_zero : (r : Reader) → advance 0 r ≡ r
advance_zero r = ap (λ o. record r { offset = o }) (omega arith)

pub advance_add : (r : Reader) (m n : ℕ) → advance n (advance m r) ≡ advance (m + n) r
advance_add r m n = ap (λ o. record r { offset = o }) (omega arith)

pub Parses-return : {A : Type 0} {b : Bool} {o : ℕ} {a : A} → Parses b o (return a) [] a
Parses-return = record { parses = λ r more mode at h. rw (advance_zero r) }

pub Parses-and_then :
    {A B : Type 0} {b : Bool} {o : ℕ} {m : M A} {bs cs : List ℕ} {a : A} {c : B} (f : A → M B)
    → Parses b o m bs a
    → Parses b (o + length bs) (f a) cs c
    → Parses b o (m >>= f) (bs ++ cs) c
Parses-and_then {bs = bs} {cs = cs} f p q = record {
  parses = λ r more mode at h. rw (p.parses r (cs ++ more) mode at (h ∙ append_assoc bs cs more)) (
      q.parses (advance (length bs) r) more mode (rw at)
        (rest-advance r bs (cs ++ more) (h ∙ append_assoc bs cs more))
      ∙ rw (advance_add r (length bs) (length cs), length-append bs cs));
}

pub Parses-map :
    {A B : Type 0} {b : Bool} {o : ℕ} {m : M A} {bs : List ℕ} {a : A} (f : A → B)
    → Parses b o m bs a
    → Parses b o (m >>= λ x. return (f x)) bs (f a)
Parses-map f p = record { parses = λ r more mode at h. rw (p.parses r more mode at h) }

pub Parses-get_offset : {b : Bool} {o : ℕ} → Parses b o get_offset [] o
unfolding get_offset
Parses-get_offset = record { parses = λ r more mode at h. rw (advance_zero r, at) }

pub Parses-read_u8 : {b : Bool} {o : ℕ} {v : ℕ} → Parses b o read_u8 (v ∷ []) v
unfolding read_u8
Parses-read_u8 = record {
  parses = λ r more mode at h. ground (arith, peek-rest r 0 _ h, within r 0 _ h (omega arith));
}

pub Parses-read_s8 : {b : Bool} {o : ℕ} {v : ℕ} → Parses b o read_s8 (v ∷ []) v
unfolding read_s8
Parses-read_s8 = record {
  parses = λ r more mode at h. ground (arith, peek-rest r 0 _ h, within r 0 _ h (omega arith));
}

pub Parses-read_u16 : {b : Bool} {o v : ℕ} → v < 2 ^ 16 → Parses b o read_u16 (le_bytes 2 v) v
Parses-read_u16 lt = record { parses = λ r more mode at h. read_u16-le_bytes r _ more lt h }

-- An offset is as wide as the section's format has it.
abbrev pub offset_bytes : Bool → ℕ → List ℕ
offset_bytes b v = if b then le_bytes 8 v else le_bytes 4 v

pub if-true : {A : Type 0} {c : Bool} {x : A} (y : A) → c ≡ true → (if c then x else y) ≡ x
if-true y h = rw h

pub if-false : {A : Type 0} {c : Bool} (x : A) {y : A} → c ≡ false → (if c then x else y) ≡ y
if-false x h = rw h

pub Parses-read_offset :
    {b : Bool} {o v : ℕ} → v < 2 ^ 32 → Parses b o read_offset (offset_bytes b v) v
unfolding read_offset
Parses-read_offset {b = true} lt = record {
  parses = λ r more mode at h. if-true _ mode ∙ read_u64-le_bytes r _ more (omega arith) h;
}
Parses-read_offset {b = false} lt = record {
  parses = λ r more mode at h. if-false _ mode ∙ read_u32-le_bytes r _ more lt h;
}

-- A LEB128 number: its groups of seven bits.
pub record Leb : Type 0 where
  pub head : ℕ
  pub tail : List ℕ

pub record IsLeb (n : Leb) : Type 0 where
  pub head_group : IsGroup n.head
  pub tail_groups : All IsGroup n.tail
  pub short : length n.tail ≤ 4
  pub fits : group_value n.head n.tail < 2 ^ 32

abbrev pub leb_bytes : Leb → List ℕ
leb_bytes n = group_bytes n.head n.tail

abbrev pub leb_value : Leb → ℕ
leb_value n = group_value n.head n.tail

pub length-group_bytes : (g : ℕ) (gs : List ℕ) → length (group_bytes g gs) ≡ length gs + 1
unfolding group_bytes
length-group_bytes g [] = refl
length-group_bytes g (h ∷ gs) = ground (arith, length-group_bytes h gs)

pub Parses-read_uleb128 :
    {b : Bool} {o : ℕ} (n : Leb) → IsLeb n → Parses b o read_uleb128 (leb_bytes n) (leb_value n)
Parses-read_uleb128 n l = record {
  parses = λ r more mode at h.
      read_uleb128-group_bytes r n.head n.tail more l.head_group l.tail_groups l.short l.fits h
      ∙ rw (length-group_bytes n.head n.tail);
}
