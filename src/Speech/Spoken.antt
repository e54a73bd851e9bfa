-- ===== src/Speech/Spoken.antt =====
-- What `speech_playback` of src/tts.cpp leaves to be spoken, and that it stays inside of its arrays.
use imachine_hb_f.Checksum.{Bytes}
use imachine_hb_f.Charset.Bounds.{
  put_first, length-first, called, outcome, write_out-room, write_out-failed,
}
use imachine_hb_f.Charset.Conversion.{
  Iconv, Outcome, write_out, charset_convert, charset_convert_gb2312_to_utf8, gb2312, utf_8,
}
use imachine_hb_f.Log.{put, snprintf}
use imachine_hb_f.Prelude.{append_assoc}
use imachine_hb_f.Prelude.Int.{ℤ, pos, negsuc, int_eq}
use imachine_hb_f.Prelude.{
  ℕ, zero, suc, ◌+◌, ◌*◌, ◌≤◌, ◌<◌, ◌≡◌, ◌≢◌, refl, sym, ap, ◌∙◌, inl, inr, Bool-cases, true, false,
  Option, none, some, List, [], ◌∷◌, ◌++◌, length, length-append, length-take, length-replicate,
  take, drop, replicate, ltb, ◌==◌, if◌then◌else◌, arith,
}
use imachine_hb_f.Speech.Playback.{
  type_utf8, type_gbk, PlaybackEffect, joined, killed, started, level_set, Tts, c_text, memcpy,
  speech_text, converted, filled, stop_old, find_process_kill, set_text, speech_playback, compound,
  tts_thread,
}
use imachine_hb_f.Speech.{Engine}
use mathlib.Core.Option

-- No byte of it is zero.
abbrev pub NoZeros : Bytes → Type 0
NoZeros [] = Unit
NoZeros (b ∷ bs) = (0 < b) × NoZeros bs

c_text-whole : (s rest : Bytes) → NoZeros s → c_text (s ++ (0 ∷ rest)) ≡ some s
unfolding c_text
c_text-whole [] rest h = refl
c_text-whole (zero ∷ s) rest h = absurd (omega (arith, h.0))
c_text-whole (suc b ∷ s) rest h = rw (c_text-whole s rest h.1) refl

-- A text that is followed by a zero can be read.
c_text-ends : (w rest : Bytes) → (s : Bytes) × (c_text (w ++ (0 ∷ rest)) ≡ some s) × NoZeros s
unfolding c_text
c_text-ends [] rest = ([], refl, tt)
c_text-ends (zero ∷ w) rest = ([], refl, tt)
c_text-ends (suc b ∷ w) rest =
    let (s, e, h) = c_text-ends w rest in (suc b ∷ s, rw e refl, (omega arith, h))

NoZeros-take : (n : ℕ) (s : Bytes) → NoZeros s → NoZeros (take n s)
NoZeros-take zero s h = tt
NoZeros-take (suc n) [] h = tt
NoZeros-take (suc n) (b ∷ s) h = (h.0, NoZeros-take n s h.1)

drop-zeros : (n k : ℕ) → n < k → (rest : Bytes) × (drop n (replicate {A = ℕ} k 0) ≡ 0 ∷ rest)
drop-zeros zero zero h = absurd (omega arith)
drop-zeros (suc n) zero h = absurd (omega arith)
drop-zeros zero (suc k) h = (replicate k 0, refl)
drop-zeros (suc n) (suc k) h = drop-zeros n k (omega arith)

-- What is written at the start of an array of zeros that is longer is followed by one.
put-zeros :
    (k : ℕ) (w : Bytes)
    → length w < k
    → (rest : Bytes) × (put (replicate k 0) 0 w ≡ some (w ++ (0 ∷ rest)))
put-zeros k w h =
    let (rest, e) = drop-zeros (length w) k h in
    (
      rest,
      put_first (replicate k 0) w (omega (arith, length-replicate {A = ℕ} k 0))
          ∙ ap (λ (t : Bytes). some (w ++ t)) e,
    )

-- `m_text` holds the first 2047 bytes of a text.
IsCut : Bytes → Bytes → Type 0
IsCut m s = (length m ≡ 2048) × (c_text m ≡ some (take 2047 s))

set_text-IsCut :
    (cells s : Bytes)
    → c_text cells ≡ some s
    → NoZeros s
    → (m : Bytes) × (set_text cells ≡ some m) × IsCut m s
unfolding set_text snprintf IsCut
set_text-IsCut cells s e h =
    let w = take 2047 s ++ (0 ∷ []) in
    let zeros = replicate {A = ℕ} 2048 0 in
    let k : length w ≤ length zeros = omega (
      arith,
      length-append (take 2047 s) (0 ∷ []),
      length-take 2047 s,
      length-replicate {A = ℕ} 2048 0,
    ) in
    let rest = drop (length w) zeros in
    let q : c_text (w ++ rest) ≡ some (take 2047 s) =
      ap c_text (append_assoc (take 2047 s) (0 ∷ []) rest)
      ∙ c_text-whole (take 2047 s) rest (NoZeros-take 2047 s h) in
    (
      w ++ rest,
      rw (e, set_text) (put_first zeros w k),
      (length-first zeros w k ∙ length-replicate {A = ℕ} 2048 0, q),
    )

-- A character of GB2312 has one byte or two, and at most three in UTF-8.
abbrev pub GrowsThrice : Iconv → Type 0
GrowsThrice system =
    (text : Bytes) (out_left : ℕ)
    → length (system.convert utf_8 gb2312 text out_left).written ≤ 3 * length text

-- An array that holds a text and a zero.
Ends : Option Bytes → Type 0
Ends o = (w : Bytes) × (rest : Bytes) × (o ≡ some (w ++ (0 ∷ rest)))

memcpy-zeros :
    (k n : ℕ) (text : Bytes)
    → n ≤ length text
    → n < k
    → (rest : Bytes) × (memcpy (replicate k 0) text n ≡ some (take n text ++ (0 ∷ rest)))
unfolding memcpy
memcpy-zeros k n text h m =
    let e : ltb (length text) n ≡ false = ground arith in
    let (rest, p) = put-zeros k (take n text) (omega (arith, length-take n text)) in (rest, rw e p)

speech_text-Ends : (n : ℕ) → Ends (some (speech_text n))
unfolding Ends
speech_text-Ends n = let (rest, e) = drop-zeros 0 (n * 3 + 3) (omega arith) in ([], rest, ap some e)

abbrev convert_cells : Option (ℤ × Bytes) → Option Bytes
convert_cells o = Option.map (λ (r : ℤ × Bytes). r.1) o

write_out-Ends :
    (o : Outcome) (n : ℕ)
    → length o.written ≤ 3 * n
    → Ends (convert_cells (write_out o (speech_text n)))
unfolding Ends
write_out-Ends o n short =
    let room : length o.written < length (speech_text n) =
      omega (arith, length-replicate {A = ℕ} (n * 3 + 3) 0) in
    elim (Bool-cases o.done) [
      | inl d ↦ (
        o.written,
        drop (length o.written + 1) (speech_text n),
        rw (write_out-room o (speech_text n) d room) refl,
      )
      | inr d ↦
          let (rest, e) = drop-zeros (length o.written) (n * 3 + 3) (omega (arith, short)) in
          (
            o.written,
            rest,
            rw (write_out-failed o (speech_text n) d (omega (arith, room)))
                (ap (λ (t : Bytes). some (o.written ++ t)) e),
          )
    ]

charset_convert-Ends :
    (system : Iconv) (data_cells : Bytes) (n : ℕ)
    → GrowsThrice system
    → n ≤ length data_cells
    → Ends (
        convert_cells
          (charset_convert system gb2312 utf_8 data_cells n (speech_text n) (n * 3 + 3)))
charset_convert-Ends system data_cells n grows h = elim (Bool-cases (n == 0)) [
  | inl z ↦
      (let e : charset_convert system gb2312 utf_8 data_cells n (speech_text n) (n * 3 + 3)
            ≡ some (negsuc 0, speech_text n) =
          (unfold charset_convert in rw z refl) in
        rw e (speech_text-Ends n))
  | inr z ↦ elim (Bool-cases (system.opens utf_8 gb2312)) [
    | inr k ↦
        let m : (n * 3 + 3 == 0) ≡ false = ground arith in
        let e : charset_convert system gb2312 utf_8 data_cells n (speech_text n) (n * 3 + 3)
            ≡ some (negsuc 0, speech_text n) =
          (unfold charset_convert in rw (z, m, k) refl) in
        rw e (speech_text-Ends n)
    | inl k ↦
        let o = outcome system gb2312 utf_8 data_cells n (n * 3 + 3) in
        let c =
          called system gb2312 utf_8 data_cells n (speech_text n) (n * 3 + 3) (ground (arith, z)) h
            (omega arith) k in
        let short : length o.written ≤ 3 * n =
          omega (arith, grows (take n data_cells) (n * 3 + 3), length-take n data_cells) in
        rw c (write_out-Ends o n short)
  ]
]

copied-Ends : (text : Bytes) (n : ℕ) → n ≤ length text → Ends (memcpy (speech_text n) text n)
unfolding Ends
copied-Ends text n h =
    let (rest, e) = memcpy-zeros (n * 3 + 3) n text h (omega arith) in (take n text, rest, e)

converted-Ends :
    (system : Iconv) (text : Bytes) (n : ℕ)
    → GrowsThrice system
    → n ≤ length text
    → Ends (converted system text n)
unfolding converted charset_convert_gb2312_to_utf8
converted-Ends system text n grows h =
    let (rest, e) = memcpy-zeros (n + 1) n text h (omega arith) in
    let data_cells = take n text ++ (0 ∷ rest) in
    let k : n ≤ length data_cells =
      omega (arith, length-append (take n text) (0 ∷ rest), length-take n text) in
    rw (e, converted) (charset_convert-Ends system data_cells n grows k)

filled-Ends :
    (system : Iconv) (n_type : ℕ) (text : Bytes) (n : ℕ)
    → GrowsThrice system
    → n ≤ length text
    → Ends (filled system n_type text n)
unfolding filled
filled-Ends system n_type text n grows h = elim (Bool-cases (n_type == type_utf8)) [
  | inl u ↦ rw u (copied-Ends text n h)
  | inr u ↦ elim (Bool-cases (n_type == type_gbk)) [
    | inl g ↦ rw (u, g) (converted-Ends system text n grows h)
    | inr g ↦ rw (u, g) (speech_text-Ends n)
  ]
]

-- Let a conversion from GB2312 to UTF-8 give at most three bytes for each byte, and let there be as many
-- bytes of text as speech_playback is told. Then, whatever the type, it stays inside of its arrays, and
-- m_text, of 2048 bytes, ends in a zero in its array.
pub speech_playback_inside :
    (system : Iconv) (status : ℤ) (n_type n_speed : ℕ) (text : Bytes) (n : ℕ) (t : Tts)
    → GrowsThrice system
    → n ≤ length text
    → (next : Tts × List PlaybackEffect) × (speech_playback system status n_type n_speed text n t
        ≡ some next)
      × (length next.0.m_text ≡ 2048)
      × (c_text next.0.m_text ≢ none)
unfolding speech_playback Ends IsCut
speech_playback_inside system status n_type n_speed text n t grows h =
    let (w, rest, e) = filled-Ends system n_type text n grows h in
    let (s, p, z) = c_text-ends w rest in
    let (m, q, k) = set_text-IsCut (w ++ (0 ∷ rest)) s p z in
    (
      (
        record { m_text = m; joinable = true },
        stop_old status t ++ (level_set n_speed ∷ started ∷ []),
      ),
      rw (e, speech_playback) (rw (q, speech_playback) refl),
      k.0,
      λ j. (let r = sym k.1 ∙ j in cc),
    )

-- For a text in UTF-8 without a zero among as many first bytes as speech_playback is told: the call
-- succeeds; an old thread, if there is one, is waited for first, and aplay is killed if it runs; then the
-- level is set and a thread started; and this thread synthesises the text, cut at 2047 bytes.
pub speech_playback-compound :
    (system : Iconv) (status login_ret : ℤ) (e : Engine) (n_speed : ℕ) (text : Bytes) (n : ℕ)
    (t : Tts)
    → n ≤ length text
    → NoZeros (take n text)
    → (next : Tts) × (speech_playback system status type_utf8 n_speed text n t
        ≡ some (
          next,
          (if t.joinable then joined ∷ (if int_eq status (pos 0) then killed ∷ [] else []) else [])
              ++ (level_set n_speed ∷ started ∷ []),
        ))
      × (tts_thread login_ret e next ≡ compound login_ret e (take 2047 (take n text)))
unfolding speech_playback filled IsCut tts_thread stop_old find_process_kill
speech_playback-compound system status login_ret e n_speed text n t h z =
    let (rest, a) = memcpy-zeros (n * 3 + 3) n text h (omega arith) in
    let p = c_text-whole (take n text) rest z in
    let (m, q, k) = set_text-IsCut (take n text ++ (0 ∷ rest)) (take n text) p z in
    (
      record { m_text = m; joinable = true },
      rw (a, speech_playback) (rw (q, speech_playback) refl),
      rw (k.1, tts_thread) refl,
    )
