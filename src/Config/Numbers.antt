-- ===== src/Config/Numbers.antt =====
-- `SetIntValue` and `GetIntValue` of src/Get_Inifiles.cpp, with the "%d" of snprintf and atoi.
use imachine_hb_f.Checksum.{Bytes}
use imachine_hb_f.Config.{
  IniSection, Found, not_found_section, not_found_key, found, get_value, set_value, commented,
}
use imachine_hb_f.Config.Lookup.{get_value-set_value}
use imachine_hb_f.Prelude.Int.{ℤ, pos, negsuc}
use imachine_hb_f.Prelude.{
  ℕ, zero, suc, ◌+◌, ◌-◌, ◌*◌, ◌/◌, ◌%◌, ◌^◌, ◌≤◌, ◌<◌, ◌≡◌, refl, sym, ap, ◌∙◌, inl, inr, Bool,
  Bool-cases, true, false, ◌&&◌, ◌||◌, List, [], ◌∷◌, length, take, take-length, ltb, leb, ◌==◌,
  if◌then◌else◌, arith,
}
use imachine_hb_f.Startup.{get_int_value}
use imachine_hb_f.Strings.{str_eq_refl}
use native.Mathlib.Nat.{pow-suc}

-- The decimal digits of a number, before `acc`; `n` digits are enough below 10 ^ n.
unfoldable pub print_digits : ℕ → ℕ → Bytes → Bytes
print_digits zero n acc = acc
print_digits (suc f) n acc =
    let d = 0x30 + n % 10 in
    let more = print_digits f (n / 10) (d ∷ acc) in if ltb n 10 then d ∷ acc else more

-- An unsigned number of at most ten digits.
unfoldable pub print_nat : ℕ → Bytes
print_nat n = print_digits 10 n []

-- "%d", of an int.
unfoldable pub print_int : ℤ → Bytes
print_int (pos n) = print_nat n
print_int (negsuc n) = 0x2D ∷ print_nat (n + 1)

abbrev pub is_digit : ℕ → Bool
is_digit c = leb 0x30 c && leb c 0x39

abbrev pub is_space : ℕ → Bool
is_space c = (c == 0x20) || (leb 0x09 c && leb c 0x0D)

unfoldable pub read_digits : ℕ → Bytes → ℕ
read_digits acc [] = acc
read_digits acc (c ∷ cs) =
    let more = read_digits (acc * 10 + (c - 0x30)) cs in if is_digit c then more else acc

unfoldable pub skip_space : Bytes → Bytes
skip_space [] = []
skip_space (c ∷ cs) = let more = skip_space cs in if is_space c then more else c ∷ cs

-- A number with its sign. What atoi gives for a number that an int does not hold is undefined; here it
-- is the number.
unfoldable pub signed : Bool → ℕ → ℤ
signed false n = pos n
signed true n = if n == 0 then pos 0 else negsuc (n - 1)

unfoldable pub read_signed : Bytes → ℤ
unfolding read_digits signed
read_signed [] = pos 0
read_signed (c ∷ cs) =
    if c == 0x2D
    then signed true (read_digits 0 cs)
    else signed false (read_digits 0 (if c == 0x2B then cs else c ∷ cs))

unfoldable pub atoi : Bytes → ℤ
unfolding read_signed skip_space
atoi text = read_signed (skip_space text)

-- The array `buf` has 64 bytes.
unfoldable pub set_int_value : Bytes → Bytes → Bytes → ℤ → List IniSection → List IniSection
set_int_value delimiter section key value file =
    set_value delimiter section key (take 63 (print_int value)) [] file

read_digits-digit :
    (acc d : ℕ) (cs : Bytes)
    → d < 10
    → read_digits acc ((0x30 + d) ∷ cs) ≡ read_digits (acc * 10 + d) cs
unfolding read_digits
read_digits-digit acc d cs h =
    let e : leb 0x30 (0x30 + d) ≡ true = ground arith in
    let f : leb (0x30 + d) 0x39 ≡ true = ground arith in
    let g : 0x30 + d - 0x30 ≡ d = omega arith in rw (e, f, g) refl

read_digits-print_digits :
    (f n : ℕ) (acc : Bytes) → n < 10 ^ f → read_digits 0 (print_digits f n acc) ≡ read_digits n acc
unfolding print_digits
read_digits-print_digits zero n acc h =
    let e : n ≡ 0 = omega (arith, h) in ap (λ (t : ℕ). read_digits t acc) (sym e)
read_digits-print_digits (suc f) n acc h = elim (Bool-cases (ltb n 10)) [
  | inl e ↦
      let d : n % 10 < 10 = omega arith in
      let q : 0 * 10 + n % 10 ≡ n = ground (arith, e) in
      rw e (read_digits-digit 0 (n % 10) acc d ∙ ap (λ (t : ℕ). read_digits t acc) q)
  | inr e ↦
      let k : n / 10 < 10 ^ f = omega (arith, h, pow-suc 10 f) in
      let q : n / 10 * 10 + n % 10 ≡ n = omega arith in
      rw e (
        read_digits-print_digits f (n / 10) ((0x30 + n % 10) ∷ acc) k
        ∙ read_digits-digit (n / 10) (n % 10) acc (omega arith)
        ∙ ap (λ (t : ℕ). read_digits t acc) q)
]

read_digits_end : (n : ℕ) → read_digits n [] ≡ n
unfolding read_digits
read_digits_end n = refl

-- A text whose first byte is a digit.
StartsDigit : Bytes → Type 0
StartsDigit [] = ⊥
StartsDigit (c ∷ cs) = (0x30 ≤ c) × (c ≤ 0x39)

print_digits-StartsDigit :
    (f n : ℕ) (acc : Bytes) → StartsDigit acc → StartsDigit (print_digits f n acc)
unfolding print_digits StartsDigit
print_digits-StartsDigit zero n acc h = h
print_digits-StartsDigit (suc f) n acc h = elim (Bool-cases (ltb n 10)) [
  | inl e ↦ rw e (omega arith, omega arith)
  | inr e ↦
      rw e (print_digits-StartsDigit f (n / 10) ((0x30 + n % 10) ∷ acc) (omega arith, omega arith))
]

length-print_digits : (f n : ℕ) (acc : Bytes) → length (print_digits f n acc) ≤ f + length acc
unfolding print_digits
length-print_digits zero n acc = omega arith
length-print_digits (suc f) n acc = elim (Bool-cases (ltb n 10)) [
  | inl e ↦ rw e (omega arith)
  | inr e ↦
      rw e (let h = length-print_digits f (n / 10) ((0x30 + n % 10) ∷ acc) in omega (arith, h))
]

-- A number that an int of 32 bits holds.
abbrev pub IsInt : ℤ → Type 0
IsInt (pos n) = n < 2 ^ 31
IsInt (negsuc n) = n < 2 ^ 31

length-print_nat : (n : ℕ) → length (print_nat n) ≤ 10
unfolding print_nat
length-print_nat n = length-print_digits 10 n []

length-print_int : (v : ℤ) → length (print_int v) ≤ 63
unfolding print_int
length-print_int (pos n) = omega (arith, length-print_nat n)
length-print_int (negsuc n) = omega (arith, length-print_nat (n + 1))

print_digits_first : (f n : ℕ) (acc : Bytes) → StartsDigit (print_digits (suc f) n acc)
unfolding print_digits StartsDigit
print_digits_first f n acc = elim (Bool-cases (ltb n 10)) [
  | inl e ↦ rw e (omega arith, omega arith)
  | inr e ↦
      rw e (print_digits-StartsDigit f (n / 10) ((0x30 + n % 10) ∷ acc) (omega arith, omega arith))
]

print_nat-StartsDigit : (n : ℕ) → StartsDigit (print_nat n)
unfolding print_nat
print_nat-StartsDigit n = print_digits_first 9 n []

read_digits-print_nat : (n : ℕ) → n < 10 ^ 10 → read_digits 0 (print_nat n) ≡ n
unfolding print_nat
read_digits-print_nat n h = read_digits-print_digits 10 n [] h ∙ read_digits_end n

atoi-StartsDigit : (text : Bytes) → StartsDigit text → atoi text ≡ pos (read_digits 0 text)
unfolding atoi read_signed skip_space signed StartsDigit
atoi-StartsDigit [] h = absurd h
atoi-StartsDigit (c ∷ cs) h =
    let a : (c == 0x20) ≡ false = ground (arith, h.0) in
    let b : leb c 0x0D ≡ false = ground (arith, h.0) in
    let g : leb 0x09 c ≡ true = ground (arith, h.0) in
    let d : (c == 0x2D) ≡ false = ground (arith, h.0) in
    let e : (c == 0x2B) ≡ false = ground (arith, h.0) in rw (a, b, g, atoi) (rw (d, e) refl)

atoi_minus : (text : Bytes) → atoi (0x2D ∷ text) ≡ signed true (read_digits 0 text)
unfolding atoi read_signed skip_space
atoi_minus text = refl

-- atoi of what "%d" prints for an int is the int.
atoi-print_int : (v : ℤ) → IsInt v → atoi (print_int v) ≡ v
unfolding print_int signed
atoi-print_int (pos n) h =
    atoi-StartsDigit (print_nat n) (print_nat-StartsDigit n)
    ∙ ap pos (read_digits-print_nat n (omega arith))
atoi-print_int (negsuc n) h =
    let q : (n + 1 == 0) ≡ false = ground arith in
    let k : n + 1 - 1 ≡ n = omega arith in
    atoi_minus (print_nat (n + 1))
    ∙ ap (signed true) (read_digits-print_nat (n + 1) (omega arith))
    ∙ (rw (q, k) refl)

-- What `GetIntValue` makes of a look-up.
abbrev stored_int : ℤ → Found → ℤ
stored_int default_value not_found_section = default_value
stored_int default_value not_found_key = default_value
stored_int default_value (found value comment) = atoi value

-- GetIntValue after SetIntValue gives back the int, whatever the section and the key held, and whatever
-- default is given.
pub get_int_value-set_int_value :
    (delimiter section key : Bytes) (v default_value : ℤ) (file : List IniSection)
    → IsInt v
    → get_int_value atoi section key default_value (set_int_value delimiter section key v file) ≡ v
unfolding get_int_value set_int_value
get_int_value-set_int_value delimiter section key v default_value file h =
    let text = take 63 (print_int v) in
    let t = take-length 63 (print_int v) (length-print_int v) in
    let e = get_value-set_value delimiter section key text [] section key file in
    let f : get_value section key (set_value delimiter section key text [] file)
        ≡ found text (commented delimiter []) =
      rw (str_eq_refl section, str_eq_refl key) at e in
    ap (stored_int default_value) f ∙ ap atoi t ∙ atoi-print_int v h
