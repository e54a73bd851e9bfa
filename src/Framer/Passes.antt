-- ===== src/Framer/Passes.antt =====
-- What one pass does with a buffer that starts with a whole frame.
use imachine_hb_f.Checksum.{Bytes, byte, bcc_data_check}
use imachine_hb_f.Framer.{
  Framer, Command, continues, goes_on, find_header, frame_len, buffer_size, too_short, accepted,
  checked, sized, located, pass,
}
use imachine_hb_f.Prelude.{
  ℕ, zero, suc, ◌+◌, ◌-◌, ◌≤◌, ◌<◌, ◌≡◌, refl, ap, ◌∙◌, true, false, ◌&&◌, Option, none, some, [],
  ◌∷◌, ◌++◌, append_assoc, length, length-append, take, drop, take-append, drop-append, replicate,
  ltb, arith, ◌==◌, if◌then◌else◌,
}

-- The buffer that holds these bytes and zeros after them.
abbrev pub memory : Bytes → Bytes
memory bytes = bytes ++ replicate (buffer_size - length bytes) 0

-- The state between frames, with these bytes received.
abbrev pub holding : Bytes → Option ℕ → Framer
holding bytes command_len = record {
  recv_data = memory bytes;
  pos = length bytes;
  index1 = none;
  index2 = 0;
  command_len = command_len;
}

-- A frame that the loop reads as one while the bytes `rest` are held behind it: it has the header, the
-- length by which the loop reads its kind, and the right checksum.
pub record IsFrame (frame rest : Bytes) : Type 0 where
  pub header :
      (byte (memory (frame ++ rest)) 0 == 0xFF && byte (memory (frame ++ rest)) 1 == 0xFF) ≡ true
  pub size : (old : Option ℕ) → frame_len (memory (frame ++ rest)) 0 old ≡ some (length frame)
  pub seal : bcc_data_check (memory (frame ++ rest)) 2 (length frame - 2) 0 ≡ 1
  pub long : 9 ≤ length frame

-- What `CommunicationAnalysis` gets for it.
abbrev pub command_of : Bytes → Bytes → Command
command_of frame rest = record { frame = memory (frame ++ rest); len = length frame }

pub find_header_here :
    (bytes : Bytes) (n : ℕ)
    → (byte bytes 0 == 0xFF && byte bytes 1 == 0xFF) ≡ true
    → 0 < n
    → find_header bytes 0 n ≡ some 0
unfolding find_header
find_header_here bytes zero h l = ground arith
find_header_here bytes (suc n) h l = rw h refl

pass_to_checked :
    (frame rest : Bytes) (c : Option ℕ)
    → IsFrame frame rest
    → pass (holding (frame ++ rest) c)
      ≡ checked
          (record (holding (frame ++ rest) c) {
            index1 = some 0;
            index2 = if ltb (length frame) (length (frame ++ rest)) then length frame else 0;
            command_len = some (length frame);
          })
          0
          (length frame)
unfolding pass located sized
pass_to_checked frame rest c w =
    let e = length-append frame rest in
    let n : 7 ≤ length (frame ++ rest) = omega (arith, w.long, e) in
    let t : ltb (length (frame ++ rest)) 7 ≡ false = ground arith in
    let u : ltb (length (frame ++ rest)) (length frame) ≡ false = ground arith in
    let z : 0 + length frame ≡ length frame = omega arith in
    let here =
      find_header_here (memory (frame ++ rest)) (length (frame ++ rest) - 1 - 0) w.header
        (omega (arith, n)) in
    rw (here, pass) (rw (t, located) (rw (w.size c, sized) (rw (z, u, w.size c) refl)))

accept :
    (f : Framer) (start len : ℕ)
    → bcc_data_check f.recv_data (start + 2) (len - 2) 0 ≡ 1
    → checked f start len ≡ accepted f start len
unfolding checked
accept f start len h = rw h refl

-- The last frame held: its command, and an empty buffer.
pub pass_last :
    (frame : Bytes) (c : Option ℕ)
    → IsFrame frame []
    → pass (holding (frame ++ []) c)
      ≡ continues (command_of frame [] ∷ []) (holding [] (some (length frame)))
unfolding accepted
pass_last frame c w =
    let e : ltb (length frame) (length (frame ++ [])) ≡ false =
      ground (arith, length-append {0} frame []) in
    pass_to_checked frame [] c w ∙ accept _ 0 (length frame) w.seal ∙ rw e refl

-- A frame with more behind it: its command, and the rest at the start of the buffer.
pub pass_more :
    (frame rest : Bytes) (c : Option ℕ)
    → IsFrame frame rest
    → 0 < length rest
    → too_short (memory rest) (length rest) ≡ false
    → pass (holding (frame ++ rest) c)
      ≡ goes_on (command_of frame rest ∷ []) (holding rest (some (length frame)))
unfolding accepted
pass_more frame rest c w l s =
    let e : ltb (length frame) (length (frame ++ rest)) ≡ true =
      ground (arith, length-append {0} frame rest) in
    let n : length (frame ++ rest) - length frame ≡ length rest =
      omega (arith, length-append {0} frame rest) in
    let z : (length frame == 0) ≡ false = ground (arith, w.long) in
    let r : take (length rest) (drop (length frame) (memory (frame ++ rest))) ≡ rest =
      ap (λ (t : Bytes). take (length rest) (drop (length frame) t))
        (append_assoc frame rest (replicate (buffer_size - length (frame ++ rest)) 0))
      ∙ ap (take (length rest)) (drop-append (length frame) frame _ refl)
      ∙ take-append (length rest) rest _ refl in
    pass_to_checked frame rest c w ∙ accept _ 0 (length frame) w.seal ∙ rw (e, z, n, r, s) refl
