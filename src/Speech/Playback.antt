-- ===== src/Speech/Playback.antt =====
-- `speech_playback` and `compound` of src/tts.cpp. iconv, the answers of the speech engine and what
-- `pidof` returns are parameters.
use imachine_hb_f.Checksum.{Bytes}
use imachine_hb_f.Charset.Conversion.{Iconv, charset_convert_gb2312_to_utf8}
use imachine_hb_f.Log.{put, snprintf}
use imachine_hb_f.Prelude.Int.{ℤ, pos, int_eq}
use imachine_hb_f.Prelude.{
  ℕ, zero, suc, ◌+◌, ◌*◌, Bool, true, false, Option, none, some, List, [], ◌∷◌, ◌++◌, length, take,
  replicate, ltb, ◌==◌, if◌then◌else◌,
}
use imachine_hb_f.Speech.{Engine, Synthesis, msp_success, text_to_speech}
use imachine_hb_f.Strings.{ascii}
use mathlib.Core.Option

-- `TYPE_UTF8` and `TYPE_GBK`
abbrev pub type_utf8 : ℕ
type_utf8 = 1

abbrev pub type_gbk : ℕ
type_gbk = 2

-- What is done outside: the old thread is waited for, aplay is killed, the level is set, and a thread is
-- started, which reads `m_text`.
pub data PlaybackEffect : Type 0 where
  joined killed started : PlaybackEffect
  level_set : ℕ → PlaybackEffect

-- `m_text`, and whether there is a thread that can be waited for.
pub record Tts : Type 0 where
  pub m_text : Bytes
  pub joinable : Bool

-- The text in front of the first zero; `none` when a reader of it leaves the array.
unfoldable pub c_text : Bytes → Option Bytes
c_text [] = none
c_text (zero ∷ rest) = some []
c_text (suc b ∷ rest) = Option.map (λ (s : Bytes). suc b ∷ s) (c_text rest)

-- `memcpy` from the start of `text` to the start of an array.
unfoldable pub memcpy : Bytes → Bytes → ℕ → Option Bytes
unfolding put
memcpy cells text n = if ltb (length text) n then none else put cells 0 (take n text)

abbrev pub speech_text : ℕ → Bytes
speech_text text_len = replicate (text_len * 3 + 3) 0

unfoldable pub converted : Iconv → Bytes → ℕ → Option Bytes
unfolding memcpy charset_convert_gb2312_to_utf8
converted system text text_len = elim (memcpy (replicate (text_len + 1) 0) text text_len) [
  | none ↦ none
  | some data_cells ↦
      Option.map (λ (r : ℤ × Bytes). r.1)
        (charset_convert_gb2312_to_utf8 system data_cells text_len (speech_text text_len)
          (text_len * 3 + 3))
]

-- `speech_text`, when it has been filled.
unfoldable pub filled : Iconv → ℕ → Bytes → ℕ → Option Bytes
unfolding memcpy converted
filled system n_type text text_len =
    if n_type == type_utf8
    then memcpy (speech_text text_len) text text_len
    else (if n_type == type_gbk
        then converted system text text_len
        else some (speech_text text_len))

-- `find_process_kill`
unfoldable pub find_process_kill : ℤ → List PlaybackEffect
find_process_kill status = if int_eq status (pos 0) then killed ∷ [] else []

unfoldable pub stop_old : ℤ → Tts → List PlaybackEffect
unfolding find_process_kill
stop_old status t = if t.joinable then joined ∷ find_process_kill status else []

-- `snprintf(m_text, sizeof(m_text), "%s", speech_text)`, behind `memset`
unfoldable pub set_text : Bytes → Option Bytes
unfolding c_text snprintf
set_text cells = elim (c_text cells) [
  | none ↦ none
  | some text ↦ snprintf (replicate 2048 0) 0 2048 text
]

-- `none`: a read or a write outside of an array.
unfoldable pub speech_playback :
    Iconv → ℤ → ℕ → ℕ → Bytes → ℕ → Tts → Option (Tts × List PlaybackEffect)
unfolding filled set_text stop_old
speech_playback system status n_type n_speed text text_len t =
    elim (filled system n_type text text_len) [
      | none ↦ none
      | some cells ↦ elim (set_text cells) [
        | none ↦ none
        | some m_text ↦ some (
          record { m_text = m_text; joinable = true },
          stop_old status t ++ (level_set n_speed ∷ started ∷ []),
        )
      ]
    ]

-- What `compound` does: the login, the sound, and whether it is played.
pub record Compound : Type 0 where
  pub synthesis : Option Synthesis
  pub played : Bool
  pub logged_out : ℕ

unfoldable pub tts_sample : Bytes
unfolding ascii
tts_sample = ascii "tts_sample.wav"

-- `none`: the engine answers for ever.
unfoldable pub compound : ℤ → Engine → Bytes → Option Compound
unfolding text_to_speech tts_sample
compound login_ret e text =
    if int_eq login_ret msp_success
    then elim (text_to_speech e (some text) (some tts_sample)) [
      | none ↦ none
      | some r ↦
          some (record { synthesis = some r; played = int_eq r.ret msp_success; logged_out = 1 })
    ]
    else some (record { synthesis = none; played = false; logged_out = 1 })

-- `tts_thread`, which speaks what stands in `m_text`.
unfoldable pub tts_thread : ℤ → Engine → Tts → Option Compound
unfolding c_text compound
tts_thread login_ret e t = elim (c_text t.m_text) [
  | none ↦ none
  | some text ↦ compound login_ret e text
]
