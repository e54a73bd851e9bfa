-- ===== src/Checksum/Fold.antt =====
-- The checksum loop of `BCCDataCheck` as a fold over the bytes that it reads.
use imachine_hb_f.Bits.{xor-lt, xor_injective_left, xor_injective_right}
use imachine_hb_f.Checksum.{Bytes, byte, xor_range}
use imachine_hb_f.Prelude.{ℕ, zero, suc, ◌<◌, bit_xor, ◌≡◌, refl, ◌∙◌, [], ◌∷◌, ◌++◌, length}

abbrev pub fold_xor : ℕ → Bytes → ℕ
fold_xor acc [] = acc
fold_xor acc (x ∷ xs) = fold_xor (bit_xor acc x) xs

-- Every element is a byte.
abbrev pub AreBytes : Bytes → Type 0
AreBytes [] = Unit {0}
AreBytes (x ∷ xs) = (x < 256) × AreBytes xs

pub AreBytes-append : (xs ys : Bytes) → AreBytes xs → AreBytes ys → AreBytes (xs ++ ys)
AreBytes-append [] ys p q = q
AreBytes-append (x ∷ xs) ys p q = (p.0, AreBytes-append xs ys p.1 q)

pub byte-append_right :
    (pre : Bytes) (x : ℕ) (rest : Bytes) → byte (pre ++ x ∷ rest) (length pre) ≡ x
byte-append_right [] x rest = refl
byte-append_right (p ∷ pre) x rest = byte-append_right pre x rest

xor_range-cons :
    (x : ℕ) (xs : Bytes) (i n acc : ℕ) → xor_range (x ∷ xs) (suc i) n acc ≡ xor_range xs i n acc
unfolding xor_range
xor_range-cons x xs i zero acc = refl
xor_range-cons x xs i (suc n) acc = xor_range-cons x xs (suc i) n (bit_xor acc (byte xs i))

xor_range-append :
    (body rest : Bytes) (acc : ℕ) → xor_range (body ++ rest) 0 (length body) acc ≡ fold_xor acc body
unfolding xor_range
xor_range-append [] rest acc = refl
xor_range-append (x ∷ body) rest acc =
    xor_range-cons x (body ++ rest) 0 (length body) (bit_xor acc x)
    ∙ xor_range-append body rest (bit_xor acc x)

-- The loop over a stretch of an array folds that stretch, whatever stands round it.
pub xor_range-fold_xor :
    (pre body rest : Bytes) (acc : ℕ)
    → xor_range (pre ++ (body ++ rest)) (length pre) (length body) acc ≡ fold_xor acc body
xor_range-fold_xor [] body rest acc = xor_range-append body rest acc
xor_range-fold_xor (p ∷ pre) body rest acc =
    xor_range-cons p (pre ++ (body ++ rest)) (length pre) (length body) acc
    ∙ xor_range-fold_xor pre body rest acc

pub fold_xor-append :
    (xs ys : Bytes) (acc : ℕ) → fold_xor acc (xs ++ ys) ≡ fold_xor (fold_xor acc xs) ys
fold_xor-append [] ys acc = refl
fold_xor-append (x ∷ xs) ys acc = fold_xor-append xs ys (bit_xor acc x)

pub fold_xor-lt : (acc : ℕ) (xs : Bytes) → acc < 256 → AreBytes xs → fold_xor acc xs < 256
fold_xor-lt acc [] p q = p
fold_xor-lt acc (x ∷ xs) p q = fold_xor-lt (bit_xor acc x) xs (xor-lt 8 acc x p q.0) q.1

pub fold_xor-injective : (a b : ℕ) (xs : Bytes) → fold_xor a xs ≡ fold_xor b xs → a ≡ b
fold_xor-injective a b [] e = e
fold_xor-injective a b (x ∷ xs) e =
    xor_injective_left a b x (fold_xor-injective (bit_xor a x) (bit_xor b x) xs e)

-- Folds over two lists that differ in one place differ.
pub fold_xor_change :
    (xs : Bytes) (x y : ℕ) (ys : Bytes) (acc : ℕ)
    → fold_xor acc (xs ++ x ∷ ys) ≡ fold_xor acc (xs ++ y ∷ ys)
    → x ≡ y
fold_xor_change [] x y ys acc e =
    xor_injective_right x y acc (fold_xor-injective (bit_xor acc x) (bit_xor acc y) ys e)
fold_xor_change (z ∷ xs) x y ys acc e = fold_xor_change xs x y ys (bit_xor acc z) e
