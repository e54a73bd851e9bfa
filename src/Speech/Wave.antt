-- ===== src/Speech/Wave.antt =====
-- The file that `text_to_speech` of src/tts.cpp leaves.
use imachine_hb_f.Checksum.{Bytes}
use imachine_hb_f.Led.Packets.{le32}
use imachine_hb_f.Prelude.{
  ℕ, ◌+◌, ◌%◌, ◌<◌, ◌≡◌, refl, ◌∙◌, true, false, Option, none, some, List, [], ◌∷◌, ◌++◌,
  append_assoc, append-nil, length, length-append, arith,
}
use imachine_hb_f.Prelude.Int.{ℤ, pos}
use imachine_hb_f.Speech.{
  Turn, stopped, heard, Sound, wave_pcm_hdr, write_at, hear, audio_loop, close_sound,
  text_to_speech, file_opened, file_closed, session_begun, session_ended,
}

abbrev pub sound_of : Option Bytes → Bytes
sound_of none = []
sound_of (some audio) = audio

-- The sound of a synthesis without errors that comes to its end or is stopped.
pub data Plays : List Turn → Bytes → Type 0 where
  stops : (ts : List Turn) → Plays (stopped ∷ ts) []
  ends :
      (audio : Option Bytes) (ts : List Turn)
      → Plays (heard (record { ret = pos 0; audio = audio; ended = true }) ∷ ts) (sound_of audio)
  goes_on :
      (audio : Option Bytes) (ts : List Turn) (rest : Bytes)
      → Plays ts rest
      → Plays
          (heard (record { ret = pos 0; audio = audio; ended = false }) ∷ ts)
          (sound_of audio ++ rest)

abbrev sounding : Bytes → ℕ → Sound
sounding file n = record { ret = pos 0; file = file; data_size = n }

hear-sounding :
    (audio : Option Bytes) (file : Bytes) (n : ℕ)
    → n + length (sound_of audio) < 4294967296
    → hear audio (sounding file n) ≡ sounding (file ++ sound_of audio) (n + length (sound_of audio))
unfolding hear
hear-sounding none file n h = let e : n + 0 ≡ n = omega arith in rw (append-nil file, e) refl
hear-sounding (some audio) file n h =
    let e : (n + length audio) % 4294967296 ≡ n + length audio = omega (arith, h) in rw e refl

audio_loop-Plays :
    (turns : List Turn) (sound file : Bytes) (n : ℕ)
    → Plays turns sound
    → n + length sound < 4294967296
    → audio_loop turns (sounding file n) ≡ some (sounding (file ++ sound) (n + length sound))
unfolding audio_loop
audio_loop-Plays _ _ file n (stops ts) h =
    let e : n + 0 ≡ n = omega arith in rw (append-nil file, e) refl
audio_loop-Plays _ _ file n (ends audio ts) h = rw (hear-sounding audio file n h) refl
audio_loop-Plays _ _ file n (goes_on audio ts rest p) h =
    let l = length-append (sound_of audio) rest in
    let e : n + length (sound_of audio) + length rest ≡ n + length (sound_of audio ++ rest) =
      omega (arith, l) in
    rw (hear-sounding audio file n (omega (arith, l, h))) (
      audio_loop-Plays ts rest (file ++ sound_of audio) (n + length (sound_of audio)) p
        (omega (arith, l, h))
      ∙ rw (append_assoc file (sound_of audio) rest, e) refl)

header_patched :
    (size n : ℕ) (sound : Bytes)
    → write_at 40 (le32 n []) (write_at 4 (le32 size []) (wave_pcm_hdr 0 0 ++ sound))
      ≡ wave_pcm_hdr size n ++ sound
unfolding write_at wave_pcm_hdr
header_patched size n sound = refl

-- When the file can be opened and the engine takes the text, and then gives sound without an error until
-- the last of it or until the playing is stopped, the file holds the sound in order behind a header whose
-- sizes are those of the sound and of the file less 8, for a sound of less than 4 gigabytes less 36 bytes;
-- and the result is what the end of the session returns.
pub text_to_speech-wave :
    (turns : List Turn) (end_ret : ℤ) (text path sound : Bytes)
    → Plays turns sound
    → length sound + 36 < 4294967296
    → text_to_speech
        (record {
          opens = true;
          begin_ret = pos 0;
          put_ret = pos 0;
          turns = turns;
          end_ret = end_ret;
        })
        (some text)
        (some path)
      ≡ some (record {
        ret = end_ret;
        file = wave_pcm_hdr (length sound + 36) (length sound) ++ sound;
        effects = file_opened ∷ session_begun ∷ file_closed ∷ session_ended ∷ [];
      })
unfolding text_to_speech close_sound
text_to_speech-wave turns end_ret text path sound p h =
    let header : Bytes = wave_pcm_hdr 0 0 in
    let e : audio_loop turns (sounding header 0)
        ≡ some (sounding (header ++ sound) (0 + length sound)) =
      audio_loop-Plays turns sound header 0 p (omega (arith, h)) in
    let z : 0 + length sound ≡ length sound = omega arith in
    let m : (length sound + 36) % 4294967296 ≡ length sound + 36 = omega (arith, h) in
    rw (e, z) (rw m (rw (header_patched (length sound + 36) (length sound) sound) refl))
