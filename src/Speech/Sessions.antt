-- ===== src/Speech/Sessions.antt =====
-- What `text_to_speech` of src/tts.cpp opens, it closes.
use imachine_hb_f.Checksum.{Bytes}
use imachine_hb_f.Prelude.{
  ◌≡◌, ◌⊎◌, refl, sym, ◌∙◌, inl, inr, Bool, Bool-cases, true, false, Option, none, some, List, [],
  ◌∷◌,
}
use imachine_hb_f.Prelude.Int.{int_eq}
use imachine_hb_f.Speech.{
  Answer, Turn, stopped, heard, Engine, SpeechEffect, Synthesis, Sound, msp_success, hear,
  audio_loop, close_sound, wave_pcm_hdr, text_to_speech, file_opened, file_closed, session_begun,
  session_ended,
}

-- The loop comes to an end within these turns.
pub data Finishes : List Turn → Type 0 where
  stop : (ts : List Turn) → Finishes (stopped ∷ ts)
  fail : (a : Answer) (ts : List Turn) → int_eq a.ret msp_success ≡ false → Finishes (heard a ∷ ts)
  last : (a : Answer) (ts : List Turn) → a.ended ≡ true → Finishes (heard a ∷ ts)
  later : (t : Turn) (ts : List Turn) → Finishes ts → Finishes (t ∷ ts)

-- What is open while the effects are run through: the file, and the session.
abbrev pub left_open : List SpeechEffect → Bool × Bool → Option (Bool × Bool)
left_open [] s = some s
left_open (file_opened ∷ es) (false, b) = left_open es (true, b)
left_open (file_opened ∷ es) (true, b) = none
left_open (file_closed ∷ es) (true, b) = left_open es (false, b)
left_open (file_closed ∷ es) (false, b) = none
left_open (session_begun ∷ es) (a, false) = left_open es (a, true)
left_open (session_begun ∷ es) (a, true) = none
left_open (session_ended ∷ es) (a, true) = left_open es (a, false)
left_open (session_ended ∷ es) (a, false) = none

abbrev pub AllClosed : Option Synthesis → Type 0
AllClosed none = ⊥
AllClosed (some r) = left_open r.effects (false, false) ≡ some (false, false)

audio_loop-heard :
    (a : Answer) (ts : List Turn) (s : Sound)
    → (a.ended ≡ true)
      ⊎ ((v : Sound) × (audio_loop ts (record (hear a.audio s) { ret = a.ret }) ≡ some v))
    → (v : Sound) × (audio_loop (heard a ∷ ts) s ≡ some v)
unfolding audio_loop
audio_loop-heard a ts s h = elim (Bool-cases (int_eq a.ret msp_success)) [
  | inr k ↦ (record s { ret = a.ret }, simp (k, audio_loop))
  | inl k ↦ elim (Bool-cases a.ended) [
    | inl m ↦ (record (hear a.audio s) { ret = a.ret }, simp (k, m, audio_loop))
    | inr m ↦ elim h [
      | inl n ↦ absurd (let c : true ≡ false = sym n ∙ m in cc)
      | inr (v, q) ↦ (v, simp (k, m, q, audio_loop))
    ]
  ]
]

audio_loop-ends :
    (ts : List Turn) (s : Sound) → Finishes ts → (v : Sound) × (audio_loop ts s ≡ some v)
unfolding audio_loop
audio_loop-ends _ s (stop ts) = (s, refl)
audio_loop-ends _ s (fail a ts h) = (record s { ret = a.ret }, rw h refl)
audio_loop-ends _ s (last a ts h) = audio_loop-heard a ts s (inl h)
audio_loop-ends _ s (later stopped ts h) = (s, refl)
audio_loop-ends _ s (later (heard a) ts h) =
    audio_loop-heard a ts s (inr (audio_loop-ends ts (record (hear a.audio s) { ret = a.ret }) h))

close_sound-AllClosed : (e : Engine) (s : Sound) → AllClosed (some (close_sound e s))
unfolding close_sound
close_sound-AllClosed e s = elim (Bool-cases (int_eq s.ret msp_success)) [
  | inl k ↦ rw k refl
  | inr k ↦ rw k refl
]

-- Whatever the engine answers, as long as it does not go on for ever, text_to_speech returns, and has
-- closed the file and ended the session that it had opened and begun, each once and none that was not
-- open.
pub text_to_speech-AllClosed :
    (e : Engine) (text path : Option Bytes)
    → Finishes e.turns
    → AllClosed (text_to_speech e text path)
unfolding text_to_speech
text_to_speech-AllClosed e none path h = refl
text_to_speech-AllClosed e (some text) none h = refl
text_to_speech-AllClosed e (some text) (some path) h = elim (Bool-cases e.opens) [
  | inr k ↦ rw k refl
  | inl k ↦ elim (Bool-cases (int_eq e.begin_ret msp_success)) [
    | inr m ↦ rw (k, m) refl
    | inl m ↦ elim (Bool-cases (int_eq e.put_ret msp_success)) [
      | inr n ↦ rw (k, m, n) refl
      | inl n ↦
          let (v, q) =
            audio_loop-ends e.turns
              (record { ret = e.put_ret; file = wave_pcm_hdr 0 0; data_size = 0 }) h in
          rw (k, m, n) (rw q (close_sound-AllClosed e v))
    ]
  ]
]
