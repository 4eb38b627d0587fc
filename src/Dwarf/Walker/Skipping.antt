-- ===== src/Dwarf/Walker/Skipping.antt =====
-- The attributes of an entry that is filtered out are skipped as they would be read.
use novaprova.Prelude.{
  ℕ, ◌≡◌, refl, ap, ◌∙◌, Bool, true, false, ◌||◌, Option, none, some, List, [], ◌∷◌, arith, ◌==◌,
  if◌then◌else◌,
}
use novaprova.Dwarf.Reader.{
  Reader, M, ◌>>=◌, and_then, return, rest, read_u8, read_u16, read_u32, read_u64, read_uleb128,
  read_sleb128, read_addr, read_offset, read_string, read_bytes, skip_u8, skip_u16, skip_u32,
  skip_u64, skip_uleb128, skip_sleb128, skip_addr, skip_offset, skip_string, skip_bytes, skip,
}
use novaprova.Dwarf.Reader.Moves.{leb_length-leb_groups}
use novaprova.Dwarf.Abbrev.{AttrSpec}
use novaprova.Dwarf.Entry.{add_attribute, Entry, Value, bytes, uint32, uint64, sint32, string}
use novaprova.Dwarf.Walker.{
  UnitView, read_form, skip_form, to_value, block, string_value, anyway, gives, ok, read_attributes,
  skip_attributes, with_value, when_skipped, fatal, cu_ref,
}

-- Where the read answers, the skip does, and both end at one place.
abbrev Skips : {A : Type 0} → M A → M (Unit {0}) → Type 0
Skips {A} m k = (r : Reader) (a : A) (r' : Reader) → m r ≡ (some a, r') → k r ≡ (some tt, r')

Skips-u8 : Skips read_u8 skip_u8
unfolding read_u8 skip_u8
Skips-u8 r a r' e = ground arith

Skips-u16 : Skips read_u16 skip_u16
unfolding read_u16 skip_u16
Skips-u16 r a r' e = ground arith

Skips-u32 : Skips read_u32 skip_u32
unfolding read_u32 skip_u32
Skips-u32 r a r' e = ground arith

Skips-u64 : Skips read_u64 skip_u64
unfolding read_u64 skip_u64
Skips-u64 r a r' e = ground arith

Skips-offset : Skips read_offset skip_offset
unfolding read_offset skip_offset read_u32 read_u64 skip
Skips-offset r a r' e = ground arith

Skips-string : Skips read_string skip_string
unfolding read_string skip_string
Skips-string r a r' e = ground arith

Skips-uleb128 : Skips read_uleb128 skip_uleb128
unfolding read_uleb128 skip_uleb128
Skips-uleb128 r a r' e = ground (arith, leb_length-leb_groups (rest r) 0 0 0)

Skips-sleb128 : Skips read_sleb128 skip_sleb128
unfolding read_sleb128 skip_sleb128
Skips-sleb128 r a r' e = ground (arith, leb_length-leb_groups (rest r) 0 0 0)

Skips-bytes : (n : ℕ) → Skips (read_bytes n) (skip_bytes n)
unfolding read_bytes skip_bytes
Skips-bytes n r a r' e = ground arith

Skips-after :
    {A B : Type 0} {m : M A} {k : M (Unit {0})} (f : A → M B)
    → Skips m k
    → ((a : A) (r : Reader) (b : B) (r' : Reader) → f a r ≡ (some b, r') → r ≡ r')
    → Skips (m >>= f) k
Skips-after {A} {B} {m} {k} f s stays r b r' e = go (m r) refl e
  where
    go : (q : Option A × Reader) → m r ≡ q → and_then q f ≡ (some b, r') → k r ≡ (some tt, r')
    go (none, r1) d e = cc e
    go (some a, r1) d e = s r a r1 d ∙ ap (λ x. (some tt, x)) (stays a r1 b r' e)

Skips-then :
    {A B : Type 0} (m : M A) (f : A → M B) (g : A → M (Unit {0}))
    → ((a : A) → Skips (f a) (g a))
    → Skips (m >>= f) (m >>= g)
Skips-then {A} {B} m f g s r b r' e = go (m r) e
  where
    go : (q : Option A × Reader) → and_then q f ≡ (some b, r') → and_then q g ≡ (some tt, r')
    go (none, r1) e = cc e
    go (some a, r1) e = s a r1 b r' e

Skips-value : {m : M ℕ} {k : M (Unit {0})} (f : ℕ → Value) → Skips m k → Skips (to_value f m) k
Skips-value f s = Skips-after (λ v. return (f v)) s λ a r b r' e. ap (λ q. q.1) e

Skips-block : (read_len : M ℕ) → Skips (block read_len) (read_len >>= skip_bytes)
Skips-block read_len =
    Skips-then read_len _ skip_bytes
      λ n. Skips-after (λ v. return (bytes v)) (Skips-bytes n) λ a r b r' e. ap (λ q. q.1) e

string_stays :
    (o : Option (List ℕ)) (r : Reader) (b : Value) (r' : Reader)
    → string_value o r ≡ (some b, r')
    → r ≡ r'
string_stays none r b r' e = cc e
string_stays (some v) r b r' e = ap (λ q. q.1) e

Skips-anyway : {A : Type 0} {m : M A} {k : M (Unit {0})} → Skips m k → Skips m (anyway k)
Skips-anyway s r a r' e = ap (λ q. (some tt, q.1)) (s r a r' e)

Skips-if :
    (c : Bool) {A : Type 0} (m m' : M A) (k k' : M (Unit {0}))
    → Skips m k
    → Skips m' k'
    → Skips (if c then m else m') (if c then k else k')
Skips-if true m m' k k' s s' = s
Skips-if false m m' k k' s s' = s'

-- Two cases of the switches: both are there, and the skip does as the read, or neither.
abbrev Follows : Option (M Value) → Option (M (Unit {0})) → Type 0
Follows none none = Unit {0}
Follows (some m) (some k) = Skips m k
Follows none (some k) = ⊥
Follows (some m) none = ⊥

case :
    (c : Bool) (m m' : Option (M Value)) (k k' : Option (M (Unit {0})))
    → Follows m k
    → Follows m' k'
    → Follows (if c then m else m') (if c then k else k')
case true m m' k k' s s' = s
case false m m' k k' s s' = s'

Skips-strp :
    (cu : UnitView)
    → Skips
        ((if cu.version == 2 then read_u32 else read_offset) >>= λ off.
          string_value (cu.offset_as_string off))
        (if cu.version == 2 then skip_u32 else skip_offset)
Skips-strp cu =
    Skips-after (λ off. string_value (cu.offset_as_string off))
      (Skips-if (cu.version == 2) read_u32 read_offset skip_u32 skip_offset Skips-u32 Skips-offset)
      λ off. string_stays (cu.offset_as_string off)

read_form-Follows : (cu : UnitView) (form : ℕ) → Follows (read_form cu form) (skip_form cu form)
unfolding read_form skip_form read_addr skip_addr
read_form-Follows cu form = case (form == 0x0b) _ _ _ _ (Skips-value uint32 Skips-u8) (
    case (form == 0x05) _ _ _ _ (Skips-value uint32 Skips-u16) (
      case (form == 0x06) _ _ _ _ (Skips-value uint32 Skips-u32) (
        case (form == 0x07) _ _ _ _ (Skips-value uint64 Skips-u64) (
          case (form == 0x0f) _ _ _ _ (Skips-value uint32 Skips-uleb128) (
            case (form == 0x0d) _ _ _ _ (Skips-value sint32 Skips-sleb128) (
              case (form == 0x01) _ _ _ _ (Skips-value uint64 Skips-u64) (
                case (form == 0x0c) _ _ _ _ (Skips-value uint32 Skips-u8) (
                  case (form == 0x11) _ _ _ _ (Skips-value cu_ref Skips-u8) (
                    case (form == 0x12) _ _ _ _ (Skips-value cu_ref Skips-u16) (
                      case (form == 0x13) _ _ _ _ (Skips-value cu_ref Skips-u32) (
                        case (form == 0x14) _ _ _ _ (Skips-value cu_ref Skips-u64) (
                          case (form == 0x10) _ _ _ _ (Skips-value _ Skips-offset) (
                            case (form == 0x08) _ _ _ _
                              (Skips-after (λ v. return (string v)) Skips-string
                                λ a r b r' e. ap (λ q. q.1) e)
                              (case (form == 0x0e) _ _ _ _ (Skips-strp cu) (
                                case (form == 0x0a) _ _ _ _ (Skips-block read_u8) (
                                  case (form == 0x03) _ _ _ _ (Skips-block read_u16) (
                                    case (form == 0x04) _ _ _ _ (Skips-block read_u32) (
                                      case (form == 0x09 || form == 0x18) _ _ _ _
                                        (Skips-block read_uleb128)
                                        (case (form == 0x17) _ _ _ _
                                          (Skips-anyway (Skips-value uint64 Skips-offset))
                                          (case (form == 0x19) _ _ _ _
                                            (λ r a r' e. ap (λ q. (some tt, q.1)) e)
                                            (case (form == 0x20) _ _ _ _
                                              (Skips-anyway (Skips-value uint64 Skips-u64))
                                              (tt))))))))))))))))))))))

-- Where `read_attributes` reads all attributes of an entry, `skip_attributes` passes them all and ends
-- at the same place, whatever forms they have.
pub skip_attributes-read_attributes :
    (cu : UnitView) (specs : List AttrSpec) (e0 e e' : Entry) (r r' : Reader)
    → read_attributes cu specs e r ≡ gives ok e' r'
    → skip_attributes cu specs e0 r ≡ gives ok e0 r'
unfolding read_attributes skip_attributes
skip_attributes-read_attributes cu [] e0 e e' r r' h = cc h
skip_attributes-read_attributes cu (s ∷ specs) e0 e e' r r' h =
    switch (read_form cu s.form) (skip_form cu s.form) (read_form-Follows cu s.form)
      (λ e1 r1. skip_attributes-read_attributes cu specs e0 e1 e' r1 r') h
  where
    entered :
        (k : M (Unit {0})) (q : Option Value × Reader)
        → ((a : Value) (r1 : Reader) → q ≡ (some a, r1) → k r ≡ (some tt, r1))
        → ((e1 : Entry) (r1 : Reader)
            → read_attributes cu specs e1 r1 ≡ gives ok e' r'
            → skip_attributes cu specs e0 r1 ≡ gives ok e0 r')
        → with_value q e s.name (read_attributes cu specs) ≡ gives ok e' r'
        → when_skipped (k r) e0 (skip_attributes cu specs e0) ≡ gives ok e0 r'
    entered k (none, r1) f again h = cc h
    entered k (some v, r1) f again h =
        ap (λ q. when_skipped q e0 (skip_attributes cu specs e0)) (f v r1 refl)
        ∙ again (add_attribute s.name v e) r1 h

    switch :
        (o : Option (M Value)) (o' : Option (M (Unit {0})))
        → Follows o o'
        → ((e1 : Entry) (r1 : Reader)
            → read_attributes cu specs e1 r1 ≡ gives ok e' r'
            → skip_attributes cu specs e0 r1 ≡ gives ok e0 r')
        → elim o [ none ↦ fatal | some m ↦ with_value (m r) e s.name (read_attributes cu specs) ]
          ≡ gives ok e' r'
        → elim o' [ none ↦ fatal | some m ↦ when_skipped (m r) e0 (skip_attributes cu specs e0) ]
          ≡ gives ok e0 r'
    switch none none f again h = cc h
    switch none (some k) f again h = absurd f
    switch (some m) none f again h = absurd f
    switch (some m) (some k) f again h = entered k (m r) (f r) again h
