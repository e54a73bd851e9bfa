-- ===== src/Charset/Bounds.antt =====
-- Where `charset_convert` of src/convert.c writes.
use imachine_hb_f.Checksum.{Bytes}
use imachine_hb_f.Log.{put}
use imachine_hb_f.Charset.Conversion.{Outcome, Iconv, end_text, write_out, charset_convert}
use imachine_hb_f.Prelude.Int.{pos, negsuc}
use imachine_hb_f.Prelude.{
  ℕ, zero, suc, ◌+◌, ◌≤◌, ◌<◌, ◌≡◌, ◌↔◌, refl, sym, ap, ◌∙◌, inl, inr, Bool-cases, true, false,
  none, some, [], ◌∷◌, ◌++◌, length, length-append, length-drop, take, drop, take-append,
  drop-append, ltb, leb, ltb→lt, ◌==◌, arith,
}

-- A write that ends inside of the array, and one that does not.
put_inside :
    (cells text : Bytes) (n : ℕ)
    → n + length text ≤ length cells
    → put cells n text ≡ some (take n cells ++ (text ++ drop (n + length text) cells))
unfolding put
put_inside cells text n h =
    let e : leb (n + length text) (length cells) ≡ true = ground arith in rw (e, put) refl

put_outside :
    (cells text : Bytes) (n : ℕ) → length cells < n + length text → put cells n text ≡ none
unfolding put
put_outside cells text n h =
    let e : leb (n + length text) (length cells) ≡ false = ground arith in rw (e, put) refl

pub put_first :
    (cells text : Bytes)
    → length text ≤ length cells
    → put cells 0 text ≡ some (text ++ drop (length text) cells)
put_first cells text h =
    let e : 0 + length text ≡ length text = omega arith in
    put_inside cells text 0 (omega arith) ∙ ap (λ (n : ℕ). some (text ++ drop n cells)) e

pub length-first :
    (cells text : Bytes)
    → length text ≤ length cells
    → length (text ++ drop (length text) cells) ≡ length cells
length-first cells text h =
    omega (arith, length-append text (drop (length text) cells), length-drop (length text) cells)

more : (n m : ℕ) → suc (n + m) ≡ suc n + m
more n m = omega arith

drop_more : (m n : ℕ) (cells : Bytes) → drop m (drop n cells) ≡ drop (n + m) cells
drop_more m zero cells = ap (λ (k : ℕ). drop k cells) (omega arith)
drop_more zero (suc n) [] = ap (λ (k : ℕ). drop k []) (more n 0)
drop_more (suc m) (suc n) [] = ap (λ (k : ℕ). drop k []) (more n (suc m))
drop_more m (suc n) (x ∷ cells) =
    drop_more m n cells ∙ ap (λ (k : ℕ). drop k (x ∷ cells)) (more n m)

module _ (o : Outcome) (cells : Bytes) where
  -- A conversion that leaves room for the zero.
  pub write_out-room :
      o.done ≡ true
      → length o.written < length cells
      → write_out o cells
        ≡ some (pos (length o.written), o.written ++ (0 ∷ drop (length o.written + 1) cells))
  unfolding write_out end_text
  write_out-room e h =
      let w = o.written in
      let rest = drop (length w) cells in
      let p = put_first cells w (omega arith) in
      let q =
        put_inside (w ++ rest) (0 ∷ []) (length w)
          (omega (arith, length-first cells w (omega arith))) in
      let r : drop (length w + 1) (w ++ rest) ≡ drop (length w + 1) cells =
        sym (drop_more 1 (length w) (w ++ rest))
        ∙ ap (drop 1) (drop-append (length w) w rest refl)
        ∙ drop_more 1 (length w) cells in
      rw (p, write_out)
        (rw (e, q, end_text, take-append (length w) w rest refl)
          (ap (λ (t : Bytes). some (pos (length w), w ++ (0 ∷ t))) r))

  write_out-full : o.done ≡ true → length o.written ≡ length cells → write_out o cells ≡ none
  unfolding write_out end_text
  write_out-full e h =
      let w = o.written in
      let rest = drop (length w) cells in
      let p = put_first cells w (omega arith) in
      let q =
        put_outside (w ++ rest) (0 ∷ []) (length w)
          (omega (arith, length-first cells w (omega arith))) in
      rw (p, write_out) (rw (e, q, end_text) refl)

  pub write_out-failed :
      o.done ≡ false
      → length o.written ≤ length cells
      → write_out o cells ≡ some (negsuc 0, o.written ++ drop (length o.written) cells)
  unfolding write_out end_text
  write_out-failed e h = rw (put_first cells o.written h, write_out) (rw (e, end_text) refl)

-- iconv writes at most as many bytes as it is told there is room for.
abbrev pub StaysInside : Iconv → Type 0
StaysInside system =
    (to_charset from_charset text : Bytes) (out_left : ℕ)
    → length (system.convert to_charset from_charset text out_left).written ≤ out_left

module _ (system : Iconv) (from_charset to_charset in_buf : Bytes) (in_left : ℕ) where
  -- What iconv makes of the text.
  abbrev pub outcome : ℕ → Outcome
  outcome out_left = system.convert to_charset from_charset (take in_left in_buf) out_left

  pub called :
      (out_buf : Bytes) (out_left : ℕ)
      → 0 < in_left
      → in_left ≤ length in_buf
      → 0 < out_left
      → system.opens to_charset from_charset ≡ true
      → charset_convert system from_charset to_charset in_buf in_left out_buf out_left
        ≡ write_out (outcome out_left) out_buf
  unfolding charset_convert
  called out_buf out_left h k m e =
      let p : (in_left == 0) ≡ false = ground arith in
      let q : (out_left == 0) ≡ false = ground arith in
      let r : ltb (length in_buf) in_left ≡ false = ground arith in rw (p, q, e, r) refl

  -- When a conversion succeeds and leaves room for one byte more, its length is returned, and the text
  -- stands at the start of the buffer with a zero behind it.
  pub charset_convert_room :
      (out_buf : Bytes) (out_left : ℕ)
      → 0 < in_left
      → in_left ≤ length in_buf
      → 0 < out_left
      → system.opens to_charset from_charset ≡ true
      → (outcome out_left).done ≡ true
      → length (outcome out_left).written < length out_buf
      → charset_convert system from_charset to_charset in_buf in_left out_buf out_left
        ≡ some (
          pos (length (outcome out_left).written),
          (outcome out_left).written ++ (0 ∷ drop (length (outcome out_left).written + 1) out_buf),
        )
  charset_convert_room out_buf out_left h k m e d l =
      called out_buf out_left h k m e ∙ write_out-room (outcome out_left) out_buf d l

-- Let iconv write no more than it has room for, let the conversion exist, and let there be a text of at
-- least one byte and a buffer as long as charset_convert is told, of at least one byte. Then
-- charset_convert writes outside of the buffer exactly when iconv succeeds and fills it to the end.
pub charset_convert-none_iff :
    (system : Iconv) (from_charset to_charset in_buf : Bytes) (in_left : ℕ) (out_buf : Bytes)
    → StaysInside system
    → system.opens to_charset from_charset ≡ true
    → 0 < in_left
    → in_left ≤ length in_buf
    → 0 < length out_buf
    → (charset_convert system from_charset to_charset in_buf in_left out_buf (length out_buf)
        ≡ none)
      ↔ (((outcome system from_charset to_charset in_buf in_left (length out_buf)).done ≡ true)
          × (length (outcome system from_charset to_charset in_buf in_left (length out_buf)).written
              ≡ length out_buf))
charset_convert-none_iff system f t in_buf in_left out_buf inside e h k m =
    let o = outcome system f t in_buf in_left (length out_buf) in
    let c = called system f t in_buf in_left out_buf (length out_buf) h k m e in
    let bound = inside t f (take in_left in_buf) (length out_buf) in
    elim (Bool-cases o.done) [
      | inr d ↦ (
        λ q. absurd (let r = sym q ∙ c ∙ write_out-failed o out_buf d bound in cc),
        λ p. absurd (let r : true ≡ false = sym p.0 ∙ d in cc),
      )
      | inl d ↦ elim (Bool-cases (ltb (length o.written) (length out_buf))) [
        | inl l ↦ (
          λ q. absurd (let r = sym q ∙ c ∙ write_out-room o out_buf d (ltb→lt _ _ l) in cc),
          λ p. absurd (let r = p.1 in ground (arith, l, r)),
        )
        | inr l ↦
            (let full : length o.written ≡ length out_buf = ground (arith, l, bound) in
              (λ _. (d, full), λ _. c ∙ write_out-full o out_buf d full))
      ]
    ]
