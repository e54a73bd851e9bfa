-- ===== src/Charset/Conversion.antt =====
-- `charset_convert` of src/convert.c. What iconv does is a parameter. An output buffer is the list of its
-- bytes.
use imachine_hb_f.Checksum.{Bytes}
use imachine_hb_f.Log.{put}
use imachine_hb_f.Strings.{ascii}
use imachine_hb_f.Prelude.Int.{ℤ, pos, negsuc}
use imachine_hb_f.Prelude.{
  ℕ, Bool, ◌||◌, Option, none, some, [], ◌∷◌, length, take, ltb, ◌==◌, if◌then◌else◌,
}

-- What a call of iconv did: whether it returned something else than -1, and what it has written.
pub record Outcome : Type 0 where
  pub done : Bool
  pub written : Bytes

-- `opens to from` and `convert to from text out_left`.
pub record Iconv : Type 0 where
  pub opens : Bytes → Bytes → Bool
  pub convert : Bytes → Bytes → Bytes → ℕ → Outcome

-- The zero behind the text, and the return value.
unfoldable pub end_text : Outcome → Bytes → Option (ℤ × Bytes)
unfolding put
end_text o cells =
    if o.done
    then elim (put cells (length o.written) (0 ∷ [])) [
      | none ↦ none
      | some next ↦ some (pos (length o.written), next)
    ]
    else some (negsuc 0, cells)

unfoldable pub write_out : Outcome → Bytes → Option (ℤ × Bytes)
unfolding put end_text
write_out o cells = elim (put cells 0 o.written) [ none ↦ none | some next ↦ end_text o next ]

-- `none`: a read behind `in_buf` or a write behind `out_buf`. The pointers are not NULL.
unfoldable pub charset_convert : Iconv → Bytes → Bytes → Bytes → ℕ → Bytes → ℕ → Option (ℤ × Bytes)
unfolding write_out
charset_convert system from_charset to_charset in_buf in_left out_buf out_left =
    if in_left == 0 || out_left == 0
    then some (negsuc 0, out_buf)
    else (if system.opens to_charset from_charset
        then (if ltb (length in_buf) in_left
            then none
            else write_out (system.convert to_charset from_charset (take in_left in_buf) out_left)
                out_buf)
        else some (negsuc 0, out_buf))

unfoldable pub utf_8 : Bytes
unfolding ascii
utf_8 = ascii "UTF-8"

unfoldable pub gb2312 : Bytes
unfolding ascii
gb2312 = ascii "GB2312"

unfoldable pub gbk : Bytes
unfolding ascii
gbk = ascii "GBK"

unfoldable pub utf_16le : Bytes
unfolding ascii
utf_16le = ascii "UTF-16LE"

unfoldable pub charset_convert_utf8_to_gb2312 : Iconv → Bytes → ℕ → Bytes → ℕ → Option (ℤ × Bytes)
unfolding charset_convert utf_8 gb2312
charset_convert_utf8_to_gb2312 system in_buf in_left out_buf out_left =
    charset_convert system utf_8 gb2312 in_buf in_left out_buf out_left

unfoldable pub charset_convert_gb2312_to_utf8 : Iconv → Bytes → ℕ → Bytes → ℕ → Option (ℤ × Bytes)
unfolding charset_convert utf_8 gb2312
charset_convert_gb2312_to_utf8 system in_buf in_left out_buf out_left =
    charset_convert system gb2312 utf_8 in_buf in_left out_buf out_left

unfoldable pub charset_convert_utf8_to_utf16 : Iconv → Bytes → ℕ → Bytes → ℕ → Option (ℤ × Bytes)
unfolding charset_convert utf_8 utf_16le
charset_convert_utf8_to_utf16 system in_buf in_left out_buf out_left =
    charset_convert system utf_8 utf_16le in_buf in_left out_buf out_left

unfoldable pub charset_convert_gbk_to_utf16_le : Iconv → Bytes → ℕ → Bytes → ℕ → Option (ℤ × Bytes)
unfolding charset_convert gbk utf_16le
charset_convert_gbk_to_utf16_le system in_buf in_left out_buf out_left =
    charset_convert system gbk utf_16le in_buf in_left out_buf out_left

unfoldable pub charset_convert_gbk_to_utf8 : Iconv → Bytes → ℕ → Bytes → ℕ → Option (ℤ × Bytes)
unfolding charset_convert utf_8 gbk
charset_convert_gbk_to_utf8 system in_buf in_left out_buf out_left =
    charset_convert system gbk utf_8 in_buf in_left out_buf out_left

unfoldable pub charset_convert_utf8_to_gbk : Iconv → Bytes → ℕ → Bytes → ℕ → Option (ℤ × Bytes)
unfolding charset_convert utf_8 gbk
charset_convert_utf8_to_gbk system in_buf in_left out_buf out_left =
    charset_convert system utf_8 gbk in_buf in_left out_buf out_left
