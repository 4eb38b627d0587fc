-- ===== src/Spiegel/Trap/Arguments.antt =====
-- The arguments of an intercepted call.
use novaprova.Prelude.{
  ℕ, zero, suc, ◌+◌, ◌-◌, ◌<◌, ◌≡◌, refl, List, [], ◌∷◌, ◌==◌, if◌then◌else◌, length, get_or, arith,
}
use novaprova.Spiegel.Trap.{Call, get_arg, set_arg, set_reg, set_word}

get_or-set_word :
    (i j v : ℕ) (xs : List ℕ)
    → i < length xs
    → get_or (set_word i v xs) j 0 ≡ (if j == i then v else get_or xs j 0)
unfolding set_word
get_or-set_word i j v [] h = absurd (omega arith)
get_or-set_word zero zero v (x ∷ xs) h = refl
get_or-set_word zero (suc j) v (x ∷ xs) h = ground arith
get_or-set_word (suc i) zero v (x ∷ xs) h = ground arith
get_or-set_word (suc i) (suc j) v (x ∷ xs) h = ground (arith, get_or-set_word i j v xs)

-- An argument that is set reads back, and the others keep their values: the six in registers, and
-- those on the part of the stack that was copied.
pub get_arg-set_arg :
    (i j v : ℕ) (c : Call)
    → i < 6 + length c.stack
    → get_arg j (set_arg i v c) ≡ (if j == i then v else get_arg j c)
unfolding get_arg set_arg set_reg
get_arg-set_arg i j v c h = ground (arith, get_or-set_word (i - 6) (j - 6) v c.stack)
