-- ===== src/Strings.antt =====
-- Strings as lists of bytes, and the `==` of std::string.
use imachine_hb_f.Checksum.{Bytes}
use Prim.Native.Char.{code}
use Prim.Native.String.{String, char_at, len}
use imachine_hb_f.Prelude.{
  ℕ, zero, suc, ◌+◌, ◌≡◌, refl, Bool, true, false, ◌&&◌, [], ◌∷◌, arith, ◌==◌,
}

unfoldable pub str_eq : Bytes → Bytes → Bool
str_eq [] [] = true
str_eq [] (b ∷ bs) = false
str_eq (a ∷ cs) [] = false
str_eq (a ∷ cs) (b ∷ bs) = (a == b) && str_eq cs bs

pub str_eq_refl : (s : Bytes) → str_eq s s ≡ true
unfolding str_eq
str_eq_refl [] = refl
str_eq_refl (x ∷ xs) = ground (arith, str_eq_refl xs)

both_cons : (a b : ℕ) (s t : Bytes) → a ≡ b → s ≡ t → a ∷ s ≡ b ∷ t
both_cons a b s t p q = λ i. p i ∷ q i

pub str_eq_sound : (s t : Bytes) → str_eq s t ≡ true → s ≡ t
unfolding str_eq
str_eq_sound [] [] e = refl
str_eq_sound [] (b ∷ bs) e = cc
str_eq_sound (a ∷ cs) [] e = cc
str_eq_sound (a ∷ cs) (b ∷ bs) e =
    both_cons a b cs bs (ground arith) (str_eq_sound cs bs (ground arith))

bytes_from : String → ℕ → ℕ → Bytes
bytes_from s i zero = []
bytes_from s i (suc n) = code (char_at s i) ∷ bytes_from s (i + 1) n

-- The bytes of a text of ASCII characters.
unfoldable pub ascii : String → Bytes
unfolding bytes_from
ascii s = bytes_from s 0 (len s)
