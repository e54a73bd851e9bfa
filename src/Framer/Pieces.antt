-- ===== src/Framer/Pieces.antt =====
-- A frame that comes in pieces: the loops of src/IMachine.cpp keep what they have until the rest comes.
use mathlib.Core.List.{flatten}
use mathlib.Core.Path.{subst}
use imachine_hb_f.Checksum.{Bytes, byte}
use imachine_hb_f.Framer.{
  Framer, Command, fault, received, buffer_size, continues, frame_len, located, sized, pass, passes,
  appended, receive, receive_all,
}
use imachine_hb_f.Framer.Passes.{memory, holding, IsFrame, command_of, find_header_here, pass_last}
use imachine_hb_f.Framer.Stream.{drop-replicate}
use imachine_hb_f.Prelude.{
  ℕ, zero, suc, ◌+◌, ◌-◌, ◌≤◌, ◌<◌, ◌≡◌, refl, sym, ap, ◌∙◌, ◌⊎◌, inl, inr, Bool-cases, true, false,
  ◌&&◌, Option, none, some, List, [], ◌∷◌, ◌++◌, append-nil, append_assoc, length, length-append,
  take, drop, take-append, replicate, ltb, arith, ◌==◌, if◌then◌else◌,
}

-- These bytes received, with a header found or not.
abbrev pub held : Bytes → Option ℕ → Option ℕ → Framer
held bytes i c = record (holding bytes c) { index1 = i }

drop-append_more : (xs ys : Bytes) (n : ℕ) → drop (length xs + n) (xs ++ ys) ≡ drop n ys
drop-append_more [] ys n = ap (λ (k : ℕ). drop k ys) (let e : 0 + n ≡ n = omega arith in e)
drop-append_more (x ∷ xs) ys n =
    ap (λ (k : ℕ). drop k (x ∷ xs ++ ys))
      (let e : suc (length xs) + n ≡ suc (length xs + n) = omega arith in e)
    ∙ drop-append_more xs ys n

appended-held :
    (bytes chunk : Bytes) (i c : Option ℕ)
    → appended (held bytes i c) chunk ≡ held (bytes ++ chunk) i c
appended-held bytes chunk i c =
    let zeros = replicate {A = ℕ} (buffer_size - length bytes) 0 in
    let e : length bytes + length chunk ≡ length (bytes ++ chunk) =
      omega (arith, length-append bytes chunk) in
    let k : buffer_size - length bytes - length chunk ≡ buffer_size - length (bytes ++ chunk) =
      omega (arith, e) in
    let t = take-append (length bytes) bytes zeros refl in
    let d : drop (length bytes + length chunk) (memory bytes)
        ≡ replicate (buffer_size - length (bytes ++ chunk)) 0 =
      drop-append_more bytes zeros (length chunk)
      ∙ drop-replicate (length chunk) (buffer_size - length bytes)
      ∙ ap (λ (n : ℕ). replicate {A = ℕ} n 0) k in
    let m : take (length bytes) (memory bytes)
          ++ (chunk ++ drop (length bytes + length chunk) (memory bytes))
        ≡ memory (bytes ++ chunk) =
      rw (t, d) (sym (append_assoc bytes chunk _)) in
    λ j. record { recv_data = m j; pos = e j; index1 = i; index2 = 0; command_len = c }

receive-held :
    (bytes chunk : Bytes) (i c : Option ℕ)
    → 0 < length chunk
    → length (bytes ++ chunk) ≤ buffer_size
    → receive (held bytes i c) chunk ≡ (
        if ltb (length (bytes ++ chunk)) 4
        then received [] (held (bytes ++ chunk) i c)
        else passes (length (bytes ++ chunk) + 1) (held (bytes ++ chunk) i c))
unfolding receive
receive-held bytes [] i c h l = absurd (omega arith)
receive-held bytes (b ∷ bs) i c h l =
    let t : ltb buffer_size (length (bytes ++ b ∷ bs)) ≡ false = ground arith in
    ap
      (λ (g : Framer).
        if ltb buffer_size g.pos
        then fault
        else if ltb g.pos 4
        then received [] g
        else passes (g.pos + 1) g)
      (appended-held bytes (b ∷ bs) i c)
    ∙ rw t refl

-- The first two bytes are a header.
abbrev Headed : Bytes → Type 0
Headed bytes = (byte (memory bytes) 0 == 0xFF && byte (memory bytes) 1 == 0xFF) ≡ true

pass-held :
    (bytes : Bytes) (i c : Option ℕ)
    → Headed bytes
    → 2 ≤ length bytes
    → pass (held bytes i c) ≡ located (held bytes none c) 0 (some 0)
unfolding pass located
pass-held bytes i c h l =
    let here = find_header_here (memory bytes) (length bytes - 1 - 0) h (omega arith) in
    rw (here, pass) refl

-- The length that the loop reads for what it holds.
abbrev pub next_len : Bytes → Option ℕ → Option ℕ
next_len bytes c = if ltb (length bytes) 7 then c else frame_len (memory bytes) 0 c

-- The loop waits for more: it has fewer than 7 bytes, or fewer than the length that it reads for them.
abbrev pub Waits : Bytes → Option ℕ → Type 0
Waits bytes c =
    (length bytes < 7)
    ⊎ ((7 ≤ length bytes) × (n : ℕ) × (frame_len (memory bytes) 0 c ≡ some n) × (length bytes < n))

passes_once :
    (n : ℕ) (f g : Framer) (cs : List Command)
    → 0 < n
    → pass f ≡ continues cs g
    → passes n f ≡ received cs g
unfolding passes
passes_once zero f g cs h e = absurd (omega arith)
passes_once (suc n) f g cs h e = rw e refl

pass_short :
    (bytes : Bytes) (i c : Option ℕ)
    → Headed bytes
    → 4 ≤ length bytes
    → Waits bytes c
    → pass (held bytes i c) ≡ continues [] (held bytes (some 0) (next_len bytes c))
unfolding located sized
pass_short bytes i c h l (inl few) =
    let t : ltb (length bytes) 7 ≡ true = ground arith in
    pass-held bytes i c h (omega arith) ∙ (rw t refl)
pass_short bytes i c h l (inr (k, n, e, w)) =
    let t : ltb (length bytes) 7 ≡ false = ground arith in
    let u : ltb (length bytes) (0 + n) ≡ true = ground arith in
    pass-held bytes i c h (omega arith) ∙ (rw (t, e, u) refl)

-- A turn that brings too little.
receive_short :
    (bytes chunk : Bytes) (i c : Option ℕ)
    → 0 < length chunk
    → length (bytes ++ chunk) ≤ buffer_size
    → (4 ≤ length (bytes ++ chunk) → Headed (bytes ++ chunk))
    → Waits (bytes ++ chunk) c
    → (j : Option ℕ) × (receive (held bytes i c) chunk
        ≡ received [] (held (bytes ++ chunk) j (next_len (bytes ++ chunk) c)))
receive_short bytes chunk i c h l headed w = elim (Bool-cases (ltb (length (bytes ++ chunk)) 4)) [
  | inl e ↦
      let t : ltb (length (bytes ++ chunk)) 7 ≡ true = ground (arith, e) in
      (i, receive-held bytes chunk i c h l ∙ rw (e, t) refl)
  | inr e ↦
      let k : 4 ≤ length (bytes ++ chunk) = ground (arith, e) in
      let p = pass_short (bytes ++ chunk) i c (headed k) k w in
      (
        some 0,
        receive-held bytes chunk i c h l
            ∙ rw e (passes_once (length (bytes ++ chunk) + 1) _ _ [] (omega arith) p),
      )
]

-- The turn that brings the end of the frame.
receive_rest :
    (bytes chunk : Bytes) (i c : Option ℕ)
    → 0 < length chunk
    → length (bytes ++ chunk) ≤ buffer_size
    → IsFrame (bytes ++ chunk) []
    → receive (held bytes i c) chunk
      ≡ received (command_of (bytes ++ chunk) [] ∷ []) (holding [] (some (length (bytes ++ chunk))))
receive_rest bytes chunk i c h l w =
    let frame = bytes ++ chunk in
    let e : ltb (length frame) 4 ≡ false = ground (arith, w.long) in
    let q : frame ++ [] ≡ frame = append-nil frame in
    let headed : Headed frame = (let r = w.header in rw q at r) in
    let n : 2 ≤ length frame = omega (arith, w.long) in
    let p : pass (held frame i c)
        ≡ continues (command_of frame [] ∷ []) (holding [] (some (length frame))) =
      pass-held frame i c headed n
      ∙ sym (pass-held frame none c headed n)
      ∙ ap (λ (t : Bytes). pass (holding t c)) (sym q)
      ∙ pass_last frame c w in
    receive-held bytes chunk i c h l ∙ rw e (passes_once (length frame + 1) _ _ _ (omega arith) p)

Headed-append : (xs ys : Bytes) → 2 ≤ length xs → Headed (xs ++ ys) → Headed xs
Headed-append [] ys l h = absurd (omega arith)
Headed-append (x ∷ []) ys l h = absurd (omega arith)
Headed-append (x ∷ y ∷ xs) ys l h = h

-- Pieces of a frame, behind `bytes`: none is empty, and the loop waits after each but the last.
abbrev pub ArePieces : Bytes → Option ℕ → List Bytes → Type 0
ArePieces bytes c [] = ⊥
ArePieces bytes c (piece ∷ []) = 0 < length piece
ArePieces bytes c (piece ∷ next ∷ more) =
    (0 < length piece)
    × Waits (bytes ++ piece) c
    × ArePieces (bytes ++ piece) (next_len (bytes ++ piece) c) (next ∷ more)

module _ (frame : Bytes) (w : IsFrame frame []) (l : length frame ≤ buffer_size) where
  prefix-Headed : (xs ys : Bytes) → xs ++ ys ≡ frame → 2 ≤ length xs → Headed xs
  prefix-Headed xs ys e n =
      let h : Headed (frame ++ []) = w.header in
      Headed-append xs ys n (subst Headed (append-nil frame ∙ sym e) h)

  prefix-le : (xs ys : Bytes) → xs ++ ys ≡ frame → length xs ≤ buffer_size
  prefix-le xs ys e = omega (arith, length-append xs ys, ap (length {A = ℕ}) e)

  last_turn :
      (bytes piece : Bytes) (i c : Option ℕ)
      → 0 < length piece
      → bytes ++ piece ≡ frame
      → receive (held bytes i c) piece
        ≡ received (command_of frame [] ∷ []) (holding [] (some (length frame)))
  last_turn bytes piece i c h e =
      subst
        (λ (t : Bytes).
          receive (held bytes i c) piece
          ≡ received (command_of t [] ∷ []) (holding [] (some (length t))))
        e (receive_rest bytes piece i c h (rw e l) (subst (λ (t : Bytes). IsFrame t []) (sym e) w))

  receive_all-held :
      (pieces : List Bytes) (bytes : Bytes) (i c : Option ℕ)
      → ArePieces bytes c pieces
      → bytes ++ flatten pieces ≡ frame
      → receive_all (held bytes i c) pieces
        ≡ received (command_of frame [] ∷ []) (holding [] (some (length frame)))
  unfolding receive_all flatten
  receive_all-held [] bytes i c h e = absurd h
  receive_all-held (piece ∷ []) bytes i c h e =
      rw (last_turn bytes piece i c h (ap (λ (t : Bytes). bytes ++ t) (sym (append-nil piece)) ∙ e))
        refl
  receive_all-held (piece ∷ next ∷ more) bytes i c (h, waits, rest) e =
      let q = append_assoc bytes piece (flatten (next ∷ more)) ∙ e in
      let xs = bytes ++ piece in
      let (j, r) =
        receive_short bytes piece i c h (prefix-le xs _ q)
          (λ n. prefix-Headed xs _ q (omega (arith, n))) waits in
      rw r (rw (receive_all-held (next ∷ more) xs j (next_len xs c) rest q) refl)

-- A frame of at most 2048 bytes that comes in any number of pieces, none of them empty, into an empty
-- buffer, is handled once, whole and at its own length, when the last piece is there, and the buffer is
-- empty again: as long as the loop reads, for what it holds after each piece but the last, when that is 7
-- bytes or more, a length that is greater.
pub receive_all-flatten :
    (pieces : List Bytes) (c : Option ℕ)
    → ArePieces [] c pieces
    → IsFrame (flatten pieces) []
    → length (flatten pieces) ≤ buffer_size
    → receive_all (holding [] c) pieces
      ≡ received (command_of (flatten pieces) [] ∷ []) (holding [] (some (length (flatten pieces))))
receive_all-flatten pieces c h w l = receive_all-held (flatten pieces) w l pieces [] none c h refl
