-- ===== src/Charset/RoundTrip.antt =====
-- The base 64 code of src/convert.c: what is decoded is what was encoded.
use imachine_hb_f.Checksum.{Bytes}
use imachine_hb_f.Checksum.Fold.{AreBytes}
use imachine_hb_f.Charset.Base64.{
  digit, filler, first_six, second_high, second_six, third_high, third_six, fourth_six, encode_loop,
  base64_encode, look_up, first_byte, second_byte, third_byte, Temp, decode_loop, base64_decode,
}
use imachine_hb_f.Charset.Digits.{
  and_first, and_second, and_second_low, and_third, and_third_low, and_fourth, keep_first,
  keep_second, keep_second_high, keep_third, keep_third_high, or_4, or_16, or_64, find_digit-digit,
  digit_other,
}
use imachine_hb_f.Prelude.{
  ℕ, suc, ◌+◌, ◌-◌, ◌*◌, ◌/◌, ◌%◌, ◌<◌, ◌≡◌, refl, ap, ◌∙◌, some, [], ◌∷◌, ◌++◌, length,
  length-append, arith,
}
use Prim.Native.Nat.{bit_or}
use mathlib.Core.Option

join_4 : (p q : ℕ) → p < 64 → q < 4 → bit_or (p * 4) q ≡ p * 4 + q
join_4 p q h k =
    let e : (p * 4 + q) / 4 ≡ p = omega arith in
    let f : (p * 4 + q) % 4 ≡ q = omega arith in
    let r = or_4 (p * 4 + q) (omega arith) in (rw (e, f) at r)

join_16 : (p q : ℕ) → p < 16 → q < 16 → bit_or (p * 16) q ≡ p * 16 + q
join_16 p q h k =
    let e : (p * 16 + q) / 16 ≡ p = omega arith in
    let f : (p * 16 + q) % 16 ≡ q = omega arith in
    let r = or_16 (p * 16 + q) (omega arith) in (rw (e, f) at r)

join_64 : (p q : ℕ) → p < 4 → q < 64 → bit_or (p * 64) q ≡ p * 64 + q
join_64 p q h k =
    let e : (p * 64 + q) / 64 ≡ p = omega arith in
    let f : (p * 64 + q) % 64 ≡ q = omega arith in
    let r = or_64 (p * 64 + q) (omega arith) in (rw (e, f) at r)

module _ (a b c : ℕ) (ha : a < 256) (hb : b < 256) (hc : c < 256) where
  first_six_value : first_six a ≡ a / 4
  unfolding first_six
  first_six_value = and_first a ha

  second_high_value : second_high a ≡ a % 4 * 16
  unfolding second_high
  second_high_value = and_second a ha

  second_six_value : second_six a b ≡ a % 4 * 16 + b / 16
  unfolding second_six second_high
  second_six_value =
      rw (and_second a ha, and_second_low b hb)
        (join_16 (a % 4) (b / 16) (omega arith) (omega arith))

  third_high_value : third_high b ≡ b % 16 * 4
  unfolding third_high
  third_high_value = and_third b hb

  third_six_value : third_six b c ≡ b % 16 * 4 + c / 64
  unfolding third_six third_high
  third_six_value =
      rw (and_third b hb, and_third_low c hc) (join_4 (b % 16) (c / 64) (omega arith) (omega arith))

  fourth_six_value : fourth_six c ≡ c % 64
  unfolding fourth_six
  fourth_six_value = and_fourth c hc

-- What the decoder makes of four digits.
abbrev found : ℕ → ℕ → ℕ → ℕ → Temp
found w x y z = record { t0 = w; t1 = x; t2 = y; t3 = z }

first_byte_value :
    (w x : ℕ) (t : Temp) → t.t0 ≡ w → t.t1 ≡ x → w < 64 → x < 64 → first_byte t ≡ w * 4 + x / 16
unfolding first_byte
first_byte_value w x t p q h k =
    rw (p, q, keep_first w h, keep_second_high x k) (join_4 w (x / 16) h (omega arith))

second_byte_value :
    (x y : ℕ) (t : Temp)
    → t.t1 ≡ x
    → t.t2 ≡ y
    → x < 64
    → y < 64
    → second_byte t ≡ x % 16 * 16 + y / 4
unfolding second_byte
second_byte_value x y t p q h k =
    rw (p, q, keep_second x h, keep_third_high y k)
      (join_16 (x % 16) (y / 4) (omega arith) (omega arith))

third_byte_value :
    (y z : ℕ) (t : Temp) → t.t2 ≡ y → t.t3 ≡ z → y < 64 → z < 64 → third_byte t ≡ y % 4 * 64 + z
unfolding third_byte
third_byte_value y z t p q h k =
    let e : z % 64 ≡ z = omega arith in
    rw (p, q, keep_third y h, and_fourth z (omega arith), e) (join_64 (y % 4) z (omega arith) k)

look_up-found :
    (w x y z : ℕ) (t : Temp)
    → w < 64
    → x < 64
    → y < 64
    → z < 64
    → look_up (digit w) (digit x) (digit y) (digit z) t ≡ found w x y z
unfolding look_up
look_up-found w x y z t hw hx hy hz =
    let p = find_digit-digit w t.t0 hw in
    let q = find_digit-digit x t.t1 hx in
    let r = find_digit-digit y t.t2 hy in
    let s = find_digit-digit z t.t3 hz in λ i. record { t0 = p i; t1 = q i; t2 = r i; t3 = s i }

-- A group of four digits gives its three bytes, and the loop goes on with it in `temp`.
decode_group :
    (w x y z n : ℕ) (rest : Bytes) (t : Temp)
    → w < 64
    → x < 64
    → y < 64
    → z < 64
    → decode_loop (digit w ∷ digit x ∷ digit y ∷ digit z ∷ rest) (suc (suc (suc (suc n)))) t
      ≡ Option.map
          (λ (out : Bytes). (w * 4 + x / 16) ∷ (x % 16 * 16 + y / 4) ∷ (y % 4 * 64 + z) ∷ out)
          (decode_loop rest n (found w x y z))
unfolding decode_loop
decode_group w x y z n rest t hw hx hy hz =
    let e = look_up-found w x y z t hw hx hy hz in
    let g : suc (suc (suc (suc n))) - 4 ≡ n = omega arith in
    let p = ap first_byte e ∙ first_byte_value w x (found w x y z) refl refl hw hx in
    let q = ap second_byte e ∙ second_byte_value x y (found w x y z) refl refl hx hy in
    let r = ap third_byte e ∙ third_byte_value y z (found w x y z) refl refl hy hz in
    rw (digit_other y hy, digit_other z hz)
      (λ i. Option.map (λ (out : Bytes). p i ∷ q i ∷ r i ∷ out) (decode_loop rest (g i) (e i)))

decode_two :
    (w x n : ℕ) (rest : Bytes) (t : Temp)
    → w < 64
    → x < 64
    → decode_loop (digit w ∷ digit x ∷ filler ∷ filler ∷ rest) (suc n) t
      ≡ some ((w * 4 + x / 16) ∷ [])
unfolding decode_loop look_up
decode_two w x n rest t hw hx =
    let now = look_up (digit w) (digit x) filler filler t in
    let e =
      first_byte_value w x now (find_digit-digit w t.t0 hw) (find_digit-digit x t.t1 hx) hw hx in
    ap (λ (b : ℕ). some (b ∷ [])) e

decode_three :
    (w x y n : ℕ) (rest : Bytes) (t : Temp)
    → w < 64
    → x < 64
    → y < 64
    → decode_loop (digit w ∷ digit x ∷ digit y ∷ filler ∷ rest) (suc n) t
      ≡ some ((w * 4 + x / 16) ∷ (x % 16 * 16 + y / 4) ∷ [])
unfolding decode_loop look_up
decode_three w x y n rest t hw hx hy =
    let now = look_up (digit w) (digit x) (digit y) filler t in
    let p = find_digit-digit x t.t1 hx in
    let e = first_byte_value w x now (find_digit-digit w t.t0 hw) p hw hx in
    let f = second_byte_value x y now p (find_digit-digit y t.t2 hy) hx hy in
    rw (digit_other y hy) (λ i. some (e i ∷ f i ∷ []))

none_left : (t : Temp) → decode_loop (0 ∷ []) 0 t ≡ some []
unfolding decode_loop
none_left t = refl

length-encode_loop : (bs : Bytes) → length (encode_loop bs) ≡ 4 * ((length bs + 2) / 3)
unfolding encode_loop
length-encode_loop [] = refl
length-encode_loop (a ∷ []) = refl
length-encode_loop (a ∷ b ∷ []) = refl
length-encode_loop (a ∷ b ∷ c ∷ rest) = omega (arith, length-encode_loop rest)

decode_loop-encode_loop :
    (bs : Bytes) (t : Temp)
    → AreBytes bs
    → decode_loop (encode_loop bs ++ (0 ∷ [])) (length (encode_loop bs)) t ≡ some bs
unfolding encode_loop
decode_loop-encode_loop [] t h = none_left t
decode_loop-encode_loop (a ∷ []) t h =
    let e = first_six_value a 0 0 h.0 (omega arith) (omega arith) in
    let f = second_high_value a 0 0 h.0 (omega arith) (omega arith) in
    let d = decode_two (a / 4) (a % 4 * 16) 3 (0 ∷ []) t (omega (arith, h.0)) (omega arith) in
    let g : a / 4 * 4 + a % 4 * 16 / 16 ≡ a = omega arith in
    rw (e, f) (d ∙ ap (λ (x : ℕ). some (x ∷ [])) g)
decode_loop-encode_loop (a ∷ b ∷ []) t h =
    let ha = h.0 in
    let hb = h.1.0 in
    let e = first_six_value a b 0 ha hb (omega arith) in
    let f = second_six_value a b 0 ha hb (omega arith) in
    let g = third_high_value a b 0 ha hb (omega arith) in
    let w = a / 4 in
    let x = a % 4 * 16 + b / 16 in
    let y = b % 16 * 4 in
    let d = decode_three w x y 3 (0 ∷ []) t (omega arith) (omega arith) (omega arith) in
    let p : w * 4 + x / 16 ≡ a = omega arith in
    let q : x % 16 * 16 + y / 4 ≡ b = omega arith in rw (e, f, g) (d ∙ (λ i. some (p i ∷ q i ∷ [])))
decode_loop-encode_loop (a ∷ b ∷ c ∷ rest) t h =
    let ha = h.0 in
    let hb = h.1.0 in
    let hc = h.1.1.0 in
    let hr = h.1.1.1 in
    let e = first_six_value a b c ha hb hc in
    let f = second_six_value a b c ha hb hc in
    let g = third_six_value a b c ha hb hc in
    let k = fourth_six_value a b c ha hb hc in
    let w = a / 4 in
    let x = a % 4 * 16 + b / 16 in
    let y = b % 16 * 4 + c / 64 in
    let z = c % 64 in
    let n = length (encode_loop rest) in
    let d =
      decode_group w x y z n (encode_loop rest ++ (0 ∷ [])) t (omega arith) (omega arith)
        (omega arith) (omega arith) in
    let ih = decode_loop-encode_loop rest (found w x y z) hr in
    let p : w * 4 + x / 16 ≡ a = omega arith in
    let q : x % 16 * 16 + y / 4 ≡ b = omega arith in
    let r : y % 4 * 64 + z ≡ c = omega arith in
    rw (e, f, g, k) (d ∙ rw ih (λ i. some (p i ∷ q i ∷ r i ∷ rest)))

-- For all bytes, base64_decode of what base64_encode writes, with the number of characters before the
-- zero at its end, gives the same bytes back, and reads nothing behind what was written.
pub base64_decode-base64_encode :
    (bs : Bytes)
    → AreBytes bs
    → base64_decode (base64_encode bs) (length (base64_encode bs) - 1) ≡ some bs
unfolding base64_decode base64_encode
base64_decode-base64_encode bs h =
    let t : Temp = record { t0 = 0; t1 = 0; t2 = 0; t3 = 0 } in
    let e : length (encode_loop bs ++ (0 ∷ [])) - 1 ≡ length (encode_loop bs) =
      omega (arith, length-append (encode_loop bs) (0 ∷ [])) in
    rw e (decode_loop-encode_loop bs t h)

-- base64_encode writes four characters for every three bytes begun, and the zero.
pub length-base64_encode : (bs : Bytes) → length (base64_encode bs) ≡ 4 * ((length bs + 2) / 3) + 1
unfolding base64_encode
length-base64_encode bs =
    omega (arith, length-append (encode_loop bs) (0 ∷ []), length-encode_loop bs)
