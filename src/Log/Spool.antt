-- ===== src/Log/Spool.antt =====
-- The lines of the callers and the blocks of the log thread, in src/Log_Message.cpp, in any order that
-- the lock allows.
use imachine_hb_f.Checksum.{Bytes}
use imachine_hb_f.Log.{Log, room_for, append_line, take_block}
use imachine_hb_f.Prelude.{
  ℕ, ◌+◌, ◌-◌, ◌≤◌, ◌<◌, ◌≡◌, refl, sym, ap, ◌∙◌, inl, inr, Bool-cases, Option, none, some, List,
  [], ◌∷◌, ◌++◌, append_assoc, append-nil, length, length-append, ltb, ltb→lt, arith, if◌then◌else◌,
  ◌==◌,
}

-- A caller with a line, its end included, or a turn of the thread.
pub data LogEvent : Type 0 where
  line : Bytes → LogEvent
  wake : LogEvent

-- The blocks that the thread took, joined, and the log.
abbrev pub woken : Bytes → Log → Option (Bytes × Log) → Bytes × Log
woken taken l none = (taken, l)
woken taken l (some (block, after)) = (taken ++ block, after)

unfoldable pub run_log : List LogEvent → Bytes → Log → Bytes × Log
unfolding append_line take_block
run_log [] taken l = (taken, l)
run_log (line text ∷ es) taken l = run_log es taken (append_line text l)
run_log (wake ∷ es) taken l = let t = woken taken l (take_block l) in run_log es t.0 t.1

abbrev pub AreLines : List LogEvent → Type 0
AreLines [] = Unit
AreLines (line text ∷ es) = (length text ≤ 4099) × AreLines es
AreLines (wake ∷ es) = AreLines es

-- The lines that a spool of ten megabytes accepts, `used` of which are in use; a wake empties it.
abbrev pub accepted : List LogEvent → ℕ → Bytes
accepted [] used = []
accepted (line text ∷ es) used =
    if ltb (used + length text) 10485760
    then text ++ accepted es (used + length text)
    else accepted es used
accepted (wake ∷ es) used = accepted es 0

room_for_line : (n : ℕ) → n ≤ 4099 → room_for n ≡ 10485760 - n
unfolding room_for
room_for_line n h = omega arith

append_line_lem :
    (text : Bytes) (l : Log)
    → length text ≤ 4099
    → append_line text l ≡ (
        if ltb (length l.buffer + length text) 10485760
        then record l { buffer = l.buffer ++ text }
        else l)
unfolding append_line
append_line_lem text l h =
    let e : ltb (length l.buffer) (10485760 - length text)
        ≡ ltb (length l.buffer + length text) 10485760 =
      ground (arith, h) in
    rw (room_for_line (length text) h) (rw e refl)

-- The blocks, and what the buffer holds.
abbrev pub all_of : Bytes × Log → Bytes
all_of (taken, l) = taken ++ l.buffer

run_log-accepted :
    (es : List LogEvent) (taken : Bytes) (l : Log)
    → AreLines es
    → all_of (run_log es taken l) ≡ (taken ++ l.buffer) ++ accepted es (length l.buffer)
unfolding run_log take_block
run_log-accepted [] taken l h = sym (append-nil (taken ++ l.buffer))
run_log-accepted (line text ∷ es) taken l (h, hs) =
    ap (λ (t : Log). all_of (run_log es taken t)) (append_line_lem text l h)
    ∙ elim (Bool-cases (ltb (length l.buffer + length text) 10485760)) [
      | inl e ↦
          let n : length (l.buffer ++ text) ≡ length l.buffer + length text =
            length-append l.buffer text in
          let rest : Bytes = accepted es (length l.buffer + length text) in
          rw e (
            run_log-accepted es taken (record l { buffer = l.buffer ++ text }) hs
            ∙ rw n (
                ap (λ (t : Bytes). t ++ rest) (sym (append_assoc taken l.buffer text))
                ∙ append_assoc (taken ++ l.buffer) text rest))
      | inr e ↦ rw e (run_log-accepted es taken l hs)
    ]
run_log-accepted (wake ∷ es) taken l h =
    let after : Option (Bytes × Log) → Bytes =
      λ (o : Option (Bytes × Log)). all_of (run_log es (woken taken l o).0 (woken taken l o).1) in
    elim (Bool-cases (length l.buffer == 0)) [
      | inl e ↦
          let n : length l.buffer ≡ 0 = ground (arith, e) in
          let w : take_block l ≡ none = rw (e, take_block) refl in
          ap after w ∙ run_log-accepted es taken l h ∙ rw n refl
      | inr e ↦
          let w : take_block l ≡ some (l.buffer, record l { buffer = [] }) =
            rw (e, take_block) refl in
          ap after w
          ∙ run_log-accepted es (taken ++ l.buffer) (record l { buffer = [] }) h
          ∙ ap (λ (t : Bytes). t ++ accepted es 0) (append-nil (taken ++ l.buffer))
    ]

append_line-fits :
    (text : Bytes) (l : Log)
    → length text ≤ 4099
    → length l.buffer < 10485760
    → length (append_line text l).buffer < 10485760
append_line-fits text l h k =
    let n : length (l.buffer ++ text) ≡ length l.buffer + length text =
      length-append l.buffer text in
    rw (append_line_lem text l h)
      (elim (Bool-cases (ltb (length l.buffer + length text) 10485760)) [
        | inl e ↦
            rw e (let m = ltb→lt (length l.buffer + length text) 10485760 e in omega (arith, n, m))
        | inr e ↦ rw e k
      ])

take_block-fits :
    (taken : Bytes) (l : Log)
    → length l.buffer < 10485760
    → length (woken taken l (take_block l)).1.buffer < 10485760
unfolding take_block
take_block-fits taken l k = elim (Bool-cases (length l.buffer == 0)) [
  | inl e ↦ rw (e, take_block) k
  | inr e ↦ rw (e, take_block) (omega arith)
]

run_log-fits :
    (es : List LogEvent) (taken : Bytes) (l : Log)
    → AreLines es
    → length l.buffer < 10485760
    → length (run_log es taken l).1.buffer < 10485760
unfolding run_log take_block
run_log-fits [] taken l h k = k
run_log-fits (line text ∷ es) taken l (h, hs) k =
    run_log-fits es taken (append_line text l) hs (append_line-fits text l h k)
run_log-fits (wake ∷ es) taken l h k =
    run_log-fits es (woken taken l (take_block l)).0 (woken taken l (take_block l)).1 h
      (take_block-fits taken l k)

-- For any order of lines of at most 4099 bytes and turns of the log thread, from a buffer with less
-- than ten megabytes in it: the blocks that the thread takes, joined, followed by what is left in the
-- buffer, are what was in the buffer at first followed by the accepted lines in their order, each whole
-- and once; a line is accepted exactly when it fits into what the lines since the last turn have left
-- of ten megabytes; and the buffer never reaches ten megabytes.
pub run_log-Spooled :
    (es : List LogEvent) (l : Log)
    → AreLines es
    → length l.buffer < 10485760
    → (all_of (run_log es [] l) ≡ l.buffer ++ accepted es (length l.buffer))
      × (length (run_log es [] l).1.buffer < 10485760)
run_log-Spooled es l h k = (run_log-accepted es [] l h, run_log-fits es [] l h k)
