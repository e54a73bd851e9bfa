-- ===== src/Framer/Stream.antt =====
-- Frames that come in one chunk: the framer splits the chunk where the sender joined it.
use mathlib.Core.List.{flatten}
use imachine_hb_f.Checksum.{Bytes}
use imachine_hb_f.Framer.{
  Framer, Command, buffer_size, too_short, fault, received, passes, appended, receive,
}
use imachine_hb_f.Framer.Passes.{memory, holding, IsFrame, command_of, pass_last, pass_more}
use imachine_hb_f.Prelude.{
  ℕ, zero, suc, ◌+◌, ◌-◌, ◌≤◌, ◌<◌, ◌≡◌, refl, ap, ◌∙◌, false, Option, some, List, [], ◌∷◌, ◌++◌,
  length, length-append, drop, replicate, ltb, arith, if◌then◌else◌,
}

-- Frames in a row. Each is read as one while those after it are held, and what is held after it is
-- long enough to be looked at.
abbrev pub AreFrames : List Bytes → Type 0
AreFrames [] = Unit
AreFrames (frame ∷ []) = IsFrame frame []
AreFrames (frame ∷ next ∷ more) =
    IsFrame frame (flatten (next ∷ more))
    × (too_short (memory (flatten (next ∷ more))) (length (flatten (next ∷ more))) ≡ false)
    × AreFrames (next ∷ more)

-- The commands that they make, in their order.
unfoldable pub commands_of : List Bytes → List Command
commands_of [] = []
commands_of (frame ∷ more) = command_of frame (flatten more) ∷ commands_of more

first-long : (frame : Bytes) (more : List Bytes) → AreFrames (frame ∷ more) → 9 ≤ length frame
first-long frame [] w = w.long
first-long frame (next ∷ more) w = w.0.long

length-flatten_le :
    (frame : Bytes) (more : List Bytes)
    → AreFrames (frame ∷ more)
    → length more + 9 ≤ length (flatten (frame ∷ more))
unfolding flatten
length-flatten_le frame [] w = omega (arith, length-append {0} frame [], w.long)
length-flatten_le frame (next ∷ more) (w, s, v) =
    omega
      (arith, length-append {0} frame (next ++ flatten more), w.long, length-flatten_le next more v)

passes_stream :
    (n : ℕ) (frame : Bytes) (more : List Bytes) (c : Option ℕ)
    → AreFrames (frame ∷ more)
    → length more < n
    → (c' : Option ℕ) × (passes n (holding (flatten (frame ∷ more)) c)
        ≡ received (commands_of (frame ∷ more)) (holding [] c'))
unfolding passes flatten commands_of
passes_stream zero frame more c w h = absurd (omega arith)
passes_stream (suc n) frame [] c w h = (some (length frame), rw (pass_last frame c w) refl)
passes_stream (suc n) frame (next ∷ more) c (w, s, v) h =
    let (c', e) = passes_stream n next more (some (length frame)) v (omega arith) in
    let l : 0 < length (next ++ flatten more) =
      omega (arith, length-append {0} next (flatten more), first-long next more v) in
    (c', rw (pass_more frame (next ++ flatten more) c w l s) (rw e refl))

pub drop-replicate : (n k : ℕ) → drop {A = ℕ} n (replicate k 0) ≡ replicate (k - n) 0
drop-replicate zero k = ap (λ (t : ℕ). replicate {A = ℕ} t 0) (let e : k ≡ k - 0 = omega arith in e)
drop-replicate (suc n) zero =
    ap (λ (t : ℕ). replicate {A = ℕ} t 0) (let e : 0 ≡ 0 - suc n = omega arith in e)
drop-replicate (suc n) (suc k) =
    drop-replicate n k
    ∙ ap (λ (t : ℕ). replicate {A = ℕ} t 0) (let e : k - n ≡ suc k - suc n = omega arith in e)

appended-holding : (chunk : Bytes) (c : Option ℕ) → appended (holding [] c) chunk ≡ holding chunk c
appended-holding chunk c =
    let z : 0 + length chunk ≡ length chunk = omega arith in
    rw (z, drop-replicate (length chunk) buffer_size) refl

receive-passes :
    (chunk : Bytes) (c : Option ℕ)
    → 4 ≤ length chunk
    → length chunk ≤ buffer_size
    → receive (holding [] c) chunk ≡ passes (length chunk + 1) (holding chunk c)
unfolding receive
receive-passes [] c l h = absurd (omega arith)
receive-passes (b ∷ bs) c l h =
    let t : ltb buffer_size (length (b ∷ bs)) ≡ false = ground arith in
    let u : ltb (length (b ∷ bs)) 4 ≡ false = ground arith in
    ap
      (λ (g : Framer).
        if ltb buffer_size g.pos
        then fault
        else if ltb g.pos 4
        then received [] g
        else passes (g.pos + 1) g)
      (appended-holding (b ∷ bs) c)
    ∙ rw (t, u) refl

-- A chunk of frames, in an empty buffer that has room for it: each frame is handled once, in its order and at its
-- own length, and the buffer is empty again. Each frame, looked at with all that follows it in the chunk behind it,
-- starts with the header, has a right checksum, and is measured by the loop at its own length, of 9 bytes or more;
-- and what follows each frame but the last is not so short, by the test of the loop, that the loop waits for more.
pub receive_stream :
    (frame : Bytes) (more : List Bytes) (c : Option ℕ)
    → AreFrames (frame ∷ more)
    → length (flatten (frame ∷ more)) ≤ buffer_size
    → (c' : Option ℕ) × (receive (holding [] c) (flatten (frame ∷ more))
        ≡ received (commands_of (frame ∷ more)) (holding [] c'))
receive_stream frame more c w h =
    let l = length-flatten_le frame more w in
    let (c', e) =
      passes_stream (length (flatten (frame ∷ more)) + 1) frame more c w (omega (arith, l)) in
    (c', receive-passes (flatten (frame ∷ more)) c (omega (arith, l)) h ∙ e)
