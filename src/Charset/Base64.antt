-- ===== src/Charset/Base64.antt =====
-- `base64_encode` and `base64_decode` of src/convert.c. A byte is a number below 256; `x << n` is
-- `x * 2 ^ n` and `x >> n` is `x / 2 ^ n`, of which the masks keep the same digits as of a signed char.
use imachine_hb_f.Checksum.{Bytes}
use imachine_hb_f.Strings.{ascii}
use imachine_hb_f.Prelude.{
  ℕ, zero, suc, ◌+◌, ◌-◌, ◌*◌, ◌/◌, Option, none, some, [], ◌∷◌, ◌++◌, ◌==◌, if◌then◌else◌,
}
use Prim.Native.Nat.{bit_and, bit_or}
use mathlib.Core.Option

unfoldable pub base64char : Bytes
unfolding ascii
base64char = ascii "ABCDEFGHIJKLMNOPQRSTUVWXYZabcdefghijklmnopqrstuvwxyz0123456789+/"

-- The '=' that fills the last group.
abbrev pub filler : ℕ
filler = 0x3D

unfoldable pub digit_at : Bytes → ℕ → ℕ
digit_at [] n = 0
digit_at (c ∷ cs) zero = c
digit_at (c ∷ cs) (suc n) = digit_at cs n

-- `base64char[current]`, where `current` is below 64.
unfoldable pub digit : ℕ → ℕ
unfolding digit_at base64char
digit current = digit_at base64char current

-- `current`, by its four values: of the first byte, of the first two, of the last two and of the last.
unfoldable pub first_six : ℕ → ℕ
first_six a = bit_and (a / 4) 0x3F

unfoldable pub second_high : ℕ → ℕ
second_high a = bit_and (a * 16) 0x30

unfoldable pub second_six : ℕ → ℕ → ℕ
unfolding second_high
second_six a b = bit_or (second_high a) (bit_and (b / 16) 0x0F)

unfoldable pub third_high : ℕ → ℕ
third_high b = bit_and (b * 4) 0x3C

unfoldable pub third_six : ℕ → ℕ → ℕ
unfolding third_high
third_six b c = bit_or (third_high b) (bit_and (c / 64) 0x03)

unfoldable pub fourth_six : ℕ → ℕ
fourth_six c = bit_and c 0x3F

-- The loop, with the bytes from `i` to `binLength`.
unfoldable pub encode_loop : Bytes → Bytes
unfolding digit first_six second_high second_six third_high third_six fourth_six
encode_loop [] = []
encode_loop (a ∷ []) = digit (first_six a) ∷ digit (second_high a) ∷ filler ∷ filler ∷ []
encode_loop (a ∷ b ∷ []) =
    digit (first_six a) ∷ digit (second_six a b) ∷ digit (third_high b) ∷ filler ∷ []
encode_loop (a ∷ b ∷ c ∷ rest) =
    digit (first_six a)
    ∷ digit (second_six a b)
    ∷ digit (third_six b c)
    ∷ digit (fourth_six c)
    ∷ encode_loop rest

-- What is written to `base64`.
unfoldable pub base64_encode : Bytes → Bytes
unfolding encode_loop
base64_encode bin_data = encode_loop bin_data ++ (0 ∷ [])

-- A loop over `base64char`, from index `j` on: the last place where `c` stands, or what `temp` held.
unfoldable pub find_digit : ℕ → Bytes → ℕ → ℕ → ℕ
find_digit c [] j temp = temp
find_digit c (d ∷ ds) j temp = find_digit c ds (j + 1) (if c == d then j else temp)

-- `temp`
pub record Temp : Type 0 where
  pub t0 : ℕ
  pub t1 : ℕ
  pub t2 : ℕ
  pub t3 : ℕ

unfoldable pub look_up : ℕ → ℕ → ℕ → ℕ → Temp → Temp
unfolding find_digit base64char
look_up a b c d t = record {
  t0 = find_digit a base64char 0 t.t0;
  t1 = find_digit b base64char 0 t.t1;
  t2 = find_digit c base64char 0 t.t2;
  t3 = find_digit d base64char 0 t.t3;
}

unfoldable pub first_byte : Temp → ℕ
first_byte t = bit_or (bit_and (t.t0 * 4) 0xFC) (bit_and (t.t1 / 16) 0x03)

unfoldable pub second_byte : Temp → ℕ
second_byte t = bit_or (bit_and (t.t1 * 16) 0xF0) (bit_and (t.t2 / 4) 0x0F)

unfoldable pub third_byte : Temp → ℕ
third_byte t = bit_or (bit_and (t.t2 * 64) 0xF0) (bit_and t.t3 0x3F)

-- The loop, with the characters from `i` to the end of the memory and with `encodeStrLen - i`; `none`
-- when it reads behind that memory.
unfoldable pub decode_loop : Bytes → ℕ → Temp → Option Bytes
unfolding look_up first_byte second_byte third_byte
decode_loop text zero t = some []
decode_loop [] (suc n) t = none
decode_loop (a ∷ []) (suc n) t = none
decode_loop (a ∷ b ∷ []) (suc n) t = none
decode_loop (a ∷ b ∷ c ∷ []) (suc n) t = none
decode_loop (a ∷ b ∷ c ∷ d ∷ rest) (suc n) t =
    let now = look_up a b c d t in
    let more = decode_loop rest (suc n - 4) now in
    if c == filler
    then some (first_byte now ∷ [])
    else (if d == filler
        then some (first_byte now ∷ second_byte now ∷ [])
        else Option.map (λ (out : Bytes). first_byte now ∷ second_byte now ∷ third_byte now ∷ out)
            more)

unfoldable pub base64_decode : Bytes → ℕ → Option Bytes
unfolding decode_loop
base64_decode base64_str encode_str_len =
    decode_loop base64_str encode_str_len (record { t0 = 0; t1 = 0; t2 = 0; t3 = 0 })
