-- ===== src/Charset/Digits.antt =====
-- The digits of the base 64 code of src/convert.c: what the masks keep, and what the loops over the
-- table find.
use imachine_hb_f.Charset.Base64.{base64char, filler, digit, digit_at, find_digit}
use imachine_hb_f.Strings.{ascii}
use imachine_hb_f.Prelude.{
  ℕ, zero, suc, ◌*◌, ◌/◌, ◌%◌, ◌<◌, ◌≡◌, refl, ap, ◌∙◌, inl, inr, Bool, Bool-cases, true, false,
  ◌==◌, if◌then◌else◌, arith,
}
use Prim.Native.Nat.{bit_and, bit_or}

-- Whether the test holds of every number below `n`.
abbrev pub below : (ℕ → Bool) → ℕ → Bool
below f zero = true
below f (suc n) = let rest = below f n in if f n then rest else false

pub below_lem : (f : ℕ → Bool) (n x : ℕ) → below f n ≡ true → x < n → f x ≡ true
below_lem f zero x h k = absurd (omega arith)
below_lem f (suc n) x h k = elim (Bool-cases (f n)) [
  | inr e ↦ absurd (let r : false ≡ true = (rw e at h) in cc)
  | inl e ↦ elim (Bool-cases (x == n)) [
    | inl q ↦ (let p : x ≡ n = ground (arith, q) in ap f p ∙ e)
    | inr q ↦ below_lem f n x (rw e at h) (ground (arith, q))
  ]
]

agree : (f g : ℕ → ℕ) (n x : ℕ) → below (λ (y : ℕ). f y == g y) n ≡ true → x < n → f x ≡ g x
agree f g n x h k =
    let e : (f x == g x) ≡ true = below_lem (λ (y : ℕ). f y == g y) n x h k in ground (arith, e)

pub and_first : (x : ℕ) → x < 256 → bit_and (x / 4) 0x3F ≡ x / 4
and_first x = agree (λ (y : ℕ). bit_and (y / 4) 0x3F) (λ (y : ℕ). y / 4) 256 x refl

pub and_second : (x : ℕ) → x < 256 → bit_and (x * 16) 0x30 ≡ x % 4 * 16
and_second x = agree (λ (y : ℕ). bit_and (y * 16) 0x30) (λ (y : ℕ). y % 4 * 16) 256 x refl

pub and_second_low : (x : ℕ) → x < 256 → bit_and (x / 16) 0x0F ≡ x / 16
and_second_low x = agree (λ (y : ℕ). bit_and (y / 16) 0x0F) (λ (y : ℕ). y / 16) 256 x refl

pub and_third : (x : ℕ) → x < 256 → bit_and (x * 4) 0x3C ≡ x % 16 * 4
and_third x = agree (λ (y : ℕ). bit_and (y * 4) 0x3C) (λ (y : ℕ). y % 16 * 4) 256 x refl

pub and_third_low : (x : ℕ) → x < 256 → bit_and (x / 64) 0x03 ≡ x / 64
and_third_low x = agree (λ (y : ℕ). bit_and (y / 64) 0x03) (λ (y : ℕ). y / 64) 256 x refl

pub and_fourth : (x : ℕ) → x < 256 → bit_and x 0x3F ≡ x % 64
and_fourth x = agree (λ (y : ℕ). bit_and y 0x3F) (λ (y : ℕ). y % 64) 256 x refl

-- The same of what the decoder keeps of a digit.
pub keep_first : (x : ℕ) → x < 64 → bit_and (x * 4) 0xFC ≡ x * 4
keep_first x = agree (λ (y : ℕ). bit_and (y * 4) 0xFC) (λ (y : ℕ). y * 4) 64 x refl

pub keep_second_high : (x : ℕ) → x < 64 → bit_and (x / 16) 0x03 ≡ x / 16
keep_second_high x = agree (λ (y : ℕ). bit_and (y / 16) 0x03) (λ (y : ℕ). y / 16) 64 x refl

pub keep_second : (x : ℕ) → x < 64 → bit_and (x * 16) 0xF0 ≡ x % 16 * 16
keep_second x = agree (λ (y : ℕ). bit_and (y * 16) 0xF0) (λ (y : ℕ). y % 16 * 16) 64 x refl

pub keep_third_high : (x : ℕ) → x < 64 → bit_and (x / 4) 0x0F ≡ x / 4
keep_third_high x = agree (λ (y : ℕ). bit_and (y / 4) 0x0F) (λ (y : ℕ). y / 4) 64 x refl

pub keep_third : (x : ℕ) → x < 64 → bit_and (x * 64) 0xF0 ≡ x % 4 * 64
keep_third x = agree (λ (y : ℕ). bit_and (y * 64) 0xF0) (λ (y : ℕ). y % 4 * 64) 64 x refl

-- Numbers with no digit in common.
pub or_4 : (n : ℕ) → n < 256 → bit_or (n / 4 * 4) (n % 4) ≡ n
or_4 n = agree (λ (y : ℕ). bit_or (y / 4 * 4) (y % 4)) (λ (y : ℕ). y) 256 n refl

pub or_16 : (n : ℕ) → n < 256 → bit_or (n / 16 * 16) (n % 16) ≡ n
or_16 n = agree (λ (y : ℕ). bit_or (y / 16 * 16) (y % 16)) (λ (y : ℕ). y) 256 n refl

pub or_64 : (n : ℕ) → n < 256 → bit_or (n / 64 * 64) (n % 64) ≡ n
or_64 n = agree (λ (y : ℕ). bit_or (y / 64 * 64) (y % 64)) (λ (y : ℕ). y) 256 n refl

-- The search finds the number of a digit, whatever `temp` held.
pub find_digit-digit : (n t : ℕ) → n < 64 → find_digit (digit n) base64char 0 t ≡ n
unfolding find_digit digit base64char digit_at ascii
find_digit-digit n t =
    agree (λ (y : ℕ). find_digit (digit y) base64char 0 t) (λ (y : ℕ). y) 64 n refl

-- A digit is not the character that fills a group.
pub digit_other : (n : ℕ) → n < 64 → (digit n == filler) ≡ false
unfolding digit base64char digit_at ascii
digit_other n h =
    let e = below_lem (λ (y : ℕ). if digit y == filler then false else true) 64 n refl h in
    elim (Bool-cases (digit n == filler)) [
      | inr k ↦ k
      | inl k ↦ absurd (let r : false ≡ true = (rw k at e) in cc)
    ]
