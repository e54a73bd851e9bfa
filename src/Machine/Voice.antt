-- ===== src/Machine/Voice.antt =====
-- `DisplayVoice` of src/IMachine.cpp: what is spoken, and when the text buffer overflows.
use imachine_hb_f.Checksum.{Bytes, byte}
use imachine_hb_f.Machine.{Machine}
use imachine_hb_f.Machine.Handlers.{display_voice, voice_data}
use imachine_hb_f.Machine.Words.{voice_word}
use imachine_hb_f.Prelude.Int.{pos}
use imachine_hb_f.Prelude.{
  ℕ, zero, suc, ◌+◌, ◌-◌, ◌≤◌, ◌≡◌, refl, ap, ◌∙◌, inl, inr, Bool, true, Bool-cases, Option, none,
  some, [], ◌∷◌, ◌++◌, append-nil, append_assoc, length, length-append, ltb, arith, if◌then◌else◌,
}

-- The phrases that `n` bytes of a command ask for, one after the other.
abbrev pub words : Bytes → ℕ → ℕ → Bytes
words cmd i zero = []
words cmd i (suc n) = voice_word (byte cmd i) ++ words cmd (i + 1) n

abbrev in_buffer : Bytes → Option Bytes
in_buffer text = if ltb 255 (length text) then none else some text

voice_data-words :
    (cmd : Bytes) (i n : ℕ) (text : Bytes)
    → length text ≤ 255
    → voice_data cmd i n text ≡ in_buffer (text ++ words cmd i n)
unfolding voice_data
voice_data-words cmd i zero text h = rw (append-nil text) (unfold voice_data in ground arith)
voice_data-words cmd i (suc n) text h =
    elim (Bool-cases (ltb 255 (length (text ++ voice_word (byte cmd i))))) [
      | inl e ↦
          rw (e, voice_data)
            (let long : ltb 255 (length (text ++ (voice_word (byte cmd i) ++ words cmd (i + 1) n)))
                  ≡ true =
                ground (
                  arith,
                  length-append text (voice_word (byte cmd i)),
                  length-append text (voice_word (byte cmd i) ++ words cmd (i + 1) n),
                  length-append (voice_word (byte cmd i)) (words cmd (i + 1) n),
                ) in
              rw long refl)
      | inr e ↦
          rw (e, voice_data)
            (voice_data-words cmd (i + 1) n (text ++ voice_word (byte cmd i)) (ground arith)
              ∙ ap in_buffer (append_assoc text (voice_word (byte cmd i)) (words cmd (i + 1) n)))
    ]

-- The command speaks its phrases at the level of its first byte and changes nothing else; the write
-- past the end of `VoiceData` happens exactly when the phrases are longer than 255 bytes.
pub display_voice-words :
    (throws : Bool) (m : Machine) (cmd : Bytes) (cmd_len : ℕ)
    → display_voice throws m cmd cmd_len ≡ (
        if ltb 255 (length (words cmd 2 (cmd_len - 2)))
        then none
        else some (
          record m { spoken = (byte cmd 0, words cmd 2 (cmd_len - 2)) ∷ m.spoken },
          (0xD4, (if throws then 0x05 else 0x04)),
          pos 4,
        ))
unfolding display_voice
display_voice-words throws m cmd cmd_len =
    rw (voice_data-words cmd 2 (cmd_len - 2) [] (omega arith), display_voice) (ground arith)
