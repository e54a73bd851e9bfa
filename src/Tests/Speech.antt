-- ===== src/Tests/Speech.antt =====
-- A synthesis of two pieces of sound.
use imachine_hb_f.Checksum.{Bytes}
use imachine_hb_f.Prelude.{
  ◌*◌, ◌≤◌, ◌≢◌, none, length, replicate, ◌≡◌, refl, true, false, some, List, [], ◌∷◌, ◌++◌, arith,
}
use imachine_hb_f.Prelude.Int.{pos}
use imachine_hb_f.Speech.{
  Turn, heard, Engine, text_to_speech, wave_pcm_hdr, file_opened, file_closed, session_begun,
  session_ended,
}
use imachine_hb_f.Speech.Sessions.{AllClosed, last, later, text_to_speech-AllClosed}
use imachine_hb_f.Charset.Conversion.{Iconv}
use imachine_hb_f.Speech.Playback.{
  type_utf8, type_gbk, Tts, PlaybackEffect, joined, killed, started, level_set, c_text,
  find_process_kill, stop_old, speech_playback, tts_thread, compound,
}
use imachine_hb_f.Speech.Spoken.{GrowsThrice, speech_playback_inside, speech_playback-compound}
use imachine_hb_f.Speech.Wave.{Plays, ends, goes_on, text_to_speech-wave}

abbrev two : List Turn
two =
    heard (record { ret = pos 0; audio = some (1 ∷ 2 ∷ []); ended = false })
    ∷ heard (record { ret = pos 0; audio = some (3 ∷ []); ended = true })
    ∷ []

two-Plays : Plays two (1 ∷ 2 ∷ 3 ∷ [])
two-Plays = goes_on (some (1 ∷ 2 ∷ [])) _ (3 ∷ []) (ends (some (3 ∷ [])) [])

abbrev engine : Engine
engine = record { opens = true; begin_ret = pos 0; put_ret = pos 0; turns = two; end_ret = pos 7 }

text_to_speech-wave_example :
    text_to_speech engine (some []) (some [])
    ≡ some (record {
      ret = pos 7;
      file = wave_pcm_hdr 39 3 ++ (1 ∷ 2 ∷ 3 ∷ []);
      effects = file_opened ∷ session_begun ∷ file_closed ∷ session_ended ∷ [];
    })
text_to_speech-wave_example =
    text_to_speech-wave two (pos 7) [] [] (1 ∷ 2 ∷ 3 ∷ []) two-Plays (omega arith)

text_to_speech-AllClosed_example : AllClosed (text_to_speech engine (some []) (some []))
text_to_speech-AllClosed_example =
    text_to_speech-AllClosed engine (some []) (some []) (later _ _ (last _ [] refl))

-- An iconv that puts three bytes for each, and one that is given more room than it takes.
abbrev triple : Bytes → Bytes
triple [] = []
triple (b ∷ bs) = b ∷ b ∷ b ∷ triple bs

abbrev tripler : Iconv
tripler = record {
  opens = λ _ _. true;
  convert = λ _ _ text out_left. record { done = true; written = triple text };
}

length-triple : (bs : Bytes) → length (triple bs) ≤ 3 * length bs
length-triple [] = omega arith
length-triple (b ∷ bs) = omega (arith, length-triple bs)

tripler-GrowsThrice : GrowsThrice tripler
tripler-GrowsThrice text out_left = length-triple text

abbrev idle_tts : Tts
idle_tts = record { m_text = replicate 2048 0; joinable = true }

abbrev two_bytes : Bytes
two_bytes = 0xB0 ∷ 0xA1 ∷ []

speech_playback_inside_example :
    (next : Tts × List PlaybackEffect) × (speech_playback tripler
        (pos 0)
        type_gbk
        5
        two_bytes
        2
        idle_tts
      ≡ some next)
    × (length next.0.m_text ≡ 2048)
    × (c_text next.0.m_text ≢ none)
speech_playback_inside_example =
    speech_playback_inside tripler (pos 0) type_gbk 5 two_bytes 2 idle_tts tripler-GrowsThrice
      (omega arith)

speech_playback-compound_example :
    (next : Tts) × (speech_playback tripler (pos 0) type_utf8 5 two_bytes 2 idle_tts
      ≡ some (next, joined ∷ killed ∷ level_set 5 ∷ started ∷ []))
    × (tts_thread (pos 0) engine next ≡ compound (pos 0) engine two_bytes)
unfolding stop_old find_process_kill
speech_playback-compound_example =
    speech_playback-compound tripler (pos 0) (pos 0) engine 5 two_bytes 2 idle_tts (omega arith)
      (omega arith, (omega arith, tt))
