-- ===== src/Tests/Charset.antt =====
-- The character sets of src/convert.c, run.
use imachine_hb_f.Checksum.{Bytes}
use imachine_hb_f.Strings.{ascii}
use imachine_hb_f.Log.{put}
use imachine_hb_f.Prelude.Int.{pos}
use imachine_hb_f.Charset.Base64.{
  base64char, digit, digit_at, first_six, second_high, second_six, third_high, third_six,
  fourth_six, encode_loop, base64_encode, find_digit, look_up, first_byte, second_byte, third_byte,
  decode_loop, base64_decode,
}
use imachine_hb_f.Charset.RoundTrip.{base64_decode-base64_encode}
use imachine_hb_f.Charset.Conversion.{Iconv, charset_convert, write_out, end_text, gbk, utf_8}
use imachine_hb_f.Prelude.{
  ◌-◌, ◌≡◌, refl, true, none, some, [], ◌∷◌, ◌++◌, length, take, leb, replicate, arith,
}

man_1 : base64_encode (ascii "Man1") ≡ ascii "TWFuMQ==" ++ (0 ∷ [])
unfolding base64_encode encode_loop digit digit_at base64char first_six second_high second_six
    third_high third_six fourth_six ascii
man_1 = refl

man_1_back : base64_decode (ascii "TWFuMQ==") 8 ≡ some (ascii "Man1")
unfolding base64_decode decode_loop look_up find_digit base64char first_byte second_byte third_byte
    ascii
man_1_back = refl

-- A length that is no multiple of four makes the loop read behind the text.
cut_short : base64_decode (ascii "TWFuM") 5 ≡ none
unfolding base64_decode decode_loop look_up find_digit base64char first_byte second_byte third_byte
    ascii
cut_short = refl

abbrev three_bytes : Bytes
three_bytes = 0xFF ∷ 0x00 ∷ 0x80 ∷ []

base64_decode-base64_encode_example :
    base64_decode (base64_encode three_bytes) (length (base64_encode three_bytes) - 1)
    ≡ some three_bytes
base64_decode-base64_encode_example =
    base64_decode-base64_encode three_bytes (omega arith, (omega arith, (omega arith, tt)))

-- An iconv that copies.
abbrev copier : Iconv
copier = record {
  opens = λ _ _. true;
  convert = λ _ _ text out_left. record {
    done = leb (length text) out_left;
    written = take out_left text;
  };
}

-- A conversion that fills the buffer, and one that leaves room.
buffer_full : charset_convert copier gbk utf_8 three_bytes 3 (replicate 3 0) 3 ≡ none
unfolding charset_convert write_out end_text put
buffer_full = refl

buffer_larger :
    charset_convert copier gbk utf_8 three_bytes 3 (replicate 5 0) 5
    ≡ some (pos 3, 0xFF ∷ 0x00 ∷ 0x80 ∷ 0x00 ∷ 0x00 ∷ [])
unfolding charset_convert write_out end_text put
buffer_larger = refl
