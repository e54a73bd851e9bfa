-- ===== src/Speech.antt =====
-- `text_to_speech` of src/tts.cpp: the sessions of the speech engine, whose answers are a parameter, and
-- the file of sound that is written.
pub mod Wave
pub mod Sessions
pub mod Playback
pub mod Spoken
use imachine_hb_f.Checksum.{Bytes}
use imachine_hb_f.Led.Packets.{le32}
use imachine_hb_f.Prelude.{
  ℕ, zero, suc, ◌+◌, ◌%◌, ◌^◌, Bool, true, false, Option, none, some, List, [], ◌∷◌, ◌++◌, length,
  take, drop, if◌then◌else◌,
}
use imachine_hb_f.Prelude.Int.{ℤ, pos, negsuc, int_eq}

-- `MSP_SUCCESS`
abbrev pub msp_success : ℤ
msp_success = pos 0

-- What `QTTSAudioGet` answers: its code, the sound if there is any, and whether it was the last.
pub record Answer : Type 0 where
  pub ret : ℤ
  pub audio : Option Bytes
  pub ended : Bool

-- A turn of the loop: `is_playing` is false, or the engine answers.
pub data Turn : Type 0 where
  stopped : Turn
  heard : Answer → Turn

-- Whether the file can be opened, and the answers of the engine.
pub record Engine : Type 0 where
  pub opens : Bool
  pub begin_ret : ℤ
  pub put_ret : ℤ
  pub turns : List Turn
  pub end_ret : ℤ

pub data SpeechEffect : Type 0 where
  file_opened file_closed session_begun session_ended : SpeechEffect

pub record Synthesis : Type 0 where
  pub ret : ℤ
  pub file : Bytes
  pub effects : List SpeechEffect

-- `wave_pcm_hdr`, with its two sizes; the other fields are those of `default_wav_hdr`.
unfoldable pub wave_pcm_hdr : ℕ → ℕ → Bytes
wave_pcm_hdr size_8 data_size =
    0x52
    ∷ 0x49
    ∷ 0x46
    ∷ 0x46
    ∷ le32 size_8 (
        0x57
        ∷ 0x41
        ∷ 0x56
        ∷ 0x45
        ∷ 0x66
        ∷ 0x6D
        ∷ 0x74
        ∷ 0x20
        ∷ le32 16 (
            1
            ∷ 0
            ∷ 1
            ∷ 0
            ∷ le32 16000
                (le32 32000 (2 ∷ 0 ∷ 16 ∷ 0 ∷ 0x64 ∷ 0x61 ∷ 0x74 ∷ 0x61 ∷ le32 data_size []))))

-- `fseek` and `fwrite`
unfoldable pub write_at : ℕ → Bytes → Bytes → Bytes
write_at offset bytes file = take offset file ++ (bytes ++ drop (offset + length bytes) file)

pub record Sound : Type 0 where
  pub ret : ℤ
  pub file : Bytes
  pub data_size : ℕ

unfoldable pub hear : Option Bytes → Sound → Sound
hear none s = s
hear (some audio) s = record s {
  file = s.file ++ audio;
  data_size = (s.data_size + length audio) % 2 ^ 32;
}

-- The loop; `none` when there is no answer any more.
unfoldable pub audio_loop : List Turn → Sound → Option Sound
unfolding hear
audio_loop [] s = none
audio_loop (stopped ∷ ts) s = some s
audio_loop (heard a ∷ ts) s =
    let now = record (hear a.audio s) { ret = a.ret } in
    let rest = audio_loop ts now in
    if int_eq a.ret msp_success
    then (if a.ended then some now else rest)
    else some (record s { ret = a.ret })

-- The end of the function, behind the loop.
unfoldable pub close_sound : Engine → Sound → Synthesis
unfolding write_at
close_sound e s =
    if int_eq s.ret msp_success
    then record {
      ret = e.end_ret;
      file =
          write_at 40 (le32 s.data_size [])
            (write_at 4 (le32 ((s.data_size + 36) % 2 ^ 32) []) s.file);
      effects = file_opened ∷ session_begun ∷ file_closed ∷ session_ended ∷ [];
    }
    else record {
      ret = s.ret;
      file = s.file;
      effects = file_opened ∷ session_begun ∷ session_ended ∷ file_closed ∷ [];
    }

unfoldable pub text_to_speech : Engine → Option Bytes → Option Bytes → Option Synthesis
unfolding audio_loop close_sound wave_pcm_hdr
text_to_speech e none des_path = some (record { ret = negsuc 0; file = []; effects = [] })
text_to_speech e (some text) none = some (record { ret = negsuc 0; file = []; effects = [] })
text_to_speech e (some text) (some path) =
    if e.opens
    then (if int_eq e.begin_ret msp_success
        then (if int_eq e.put_ret msp_success
            then elim (audio_loop e.turns
                (record { ret = e.put_ret; file = wave_pcm_hdr 0 0; data_size = 0 })) [
                  | none ↦ none
                  | some s ↦ some (close_sound e s)
                ]
            else some (record {
              ret = e.put_ret;
              file = [];
              effects = file_opened ∷ session_begun ∷ session_ended ∷ file_closed ∷ [];
            }))
        else some
            (record { ret = e.begin_ret; file = []; effects = file_opened ∷ file_closed ∷ [] }))
    else some (record { ret = negsuc 0; file = []; effects = [] })
