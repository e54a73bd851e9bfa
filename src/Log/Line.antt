-- ===== src/Log/Line.antt =====
-- The lines that `log_try_append` and `hex_try_append` of src/Log_Message.cpp put together.
use imachine_hb_f.Checksum.{Bytes}
use imachine_hb_f.Log.{
  Log, snprintf, try_append, append_line, log_line, passes_level, size_left, line_of,
  log_try_append, hex_text, hex_loop, hex_try_append,
}
use imachine_hb_f.Log.Cells.{
  Holds, log_line-Holds, Holds-append, put-Holds, snprintf-Holds, try_append-Holds,
  try_append-outside, try_append-inside,
}
use imachine_hb_f.Prelude.{
  ℕ, zero, suc, ◌+◌, ◌-◌, ◌/◌, ◌*◌, ◌≤◌, ◌<◌, ◌≡◌, ◌↔◌, refl, ◌∙◌, inl, inr, Bool, Bool-cases, true,
  false, none, some, [], ◌∷◌, ◌++◌, append_assoc, append-nil, length, length-append, length-take,
  take, ltb, ltb→lt, ltb_false→le, arith,
}

size_left_lem : (n : ℕ) → n ≤ 4095 → size_left n ≡ suc (4095 - n)
unfolding size_left
size_left_lem n h = omega arith

line_head :
    (head : Bytes)
    → length head ≤ 4095
    → (cells : Bytes) × (snprintf log_line 0 4096 head ≡ some cells) × Holds cells head
line_head head h = snprintf-Holds log_line [] head 4095 log_line-Holds h (omega arith)

line_of-Holds :
    (head main : Bytes)
    → length head + length main ≤ 4095
    → (cells : Bytes) × (line_of head main ≡ some cells) × Holds cells (head ++ main)
unfolding line_of
line_of-Holds head main h =
    let (first, p, held) = line_head head (omega arith) in
    let (cells, q, all) =
      snprintf-Holds first head main (4095 - length head) held (omega arith) (omega arith) in
    (cells, rw (p, line_of) (rw (size_left_lem (length head) (omega arith)) q), all)

abbrev pub logged : Bool → Bytes → Log → Log
logged true text l = append_line (text ++ 0x0A ∷ []) l
logged false text l = l

-- A head and a message of together at most 4095 bytes are appended to the buffer one behind the other
-- with an end of line, if the level is let through; otherwise nothing changes.
pub log_try_append-logged :
    (lvl : ℕ) (head main : Bytes) (l : Log)
    → length head + length main ≤ 4095
    → log_try_append lvl head main l ≡ some (logged (passes_level lvl l) (head ++ main) l)
unfolding log_try_append
log_try_append-logged lvl head main l h =
    let (cells, p, held) = line_of-Holds head main h in
    let e : length (head ++ main) ≡ length head + length main = length-append head main in
    elim (Bool-cases (passes_level lvl l)) [
      | inl f ↦
          rw (f, log_try_append)
            (rw (p, log_try_append)
              (rw (← e) (try_append-Holds cells (head ++ main) l held (omega (arith, e)))))
      | inr f ↦ rw (f, log_try_append) refl
    ]

-- The array behind both writes, whatever the length of the message.
line_of-size :
    (head main : Bytes)
    → length head ≤ 4095
    → (cells : Bytes) × (line_of head main ≡ some cells) × (length cells ≡ 4099)
unfolding line_of snprintf
line_of-size head main h =
    let (first, p, held) = line_head head h in
    let n : ℕ = 4095 - length head in
    let text : Bytes = take n main ++ 0 ∷ [] in
    let a : length text ≡ length (take n main) + 1 = length-append (take n main) (0 ∷ []) in
    let b = length-take n main in
    let (cells, q, all) = put-Holds first head text held (omega (arith, a, b)) in
    (cells, rw (p, line_of) (rw (size_left_lem (length head) h, snprintf) q), all.size)

-- With a level that is let through and a head of at most 4095 bytes, log_try_append writes outside of
-- its array exactly when head and message are together 4099 bytes or longer, however short the part of
-- them that snprintf has stored.
pub log_try_append-none_iff :
    (lvl : ℕ) (head main : Bytes) (l : Log)
    → passes_level lvl l ≡ true
    → length head ≤ 4095
    → (log_try_append lvl head main l ≡ none) ↔ (4099 ≤ length head + length main)
unfolding log_try_append
log_try_append-none_iff lvl head main l f h =
    let (cells, p, size) = line_of-size head main h in
    let n : ℕ = length head + length main in
    let e : log_try_append lvl head main l ≡ try_append cells n l =
      rw (f, log_try_append) (rw (p, log_try_append) refl) in
    rw e (elim (Bool-cases (ltb n 4099)) [
      | inl k ↦ (
        λ q. absurd (try_append-inside cells n l size (ltb→lt n 4099 k) q),
        λ m. absurd (let j = ltb→lt n 4099 k in omega (arith, j, m)),
      )
      | inr k ↦ (λ q. ltb_false→le n 4099 k, λ m. try_append-outside cells n l size m)
    ])

-- The text of the first bytes.
abbrev pub hex_texts : Bytes → Bytes
hex_texts [] = []
hex_texts (b ∷ bs) = hex_text b ++ hex_texts bs

-- How many bytes have room behind a head of this length.
abbrev pub hex_room : ℕ → ℕ
hex_room n = (4094 - n) / 3

-- The loop ends, and the array holds the text.
abbrev HexEnds : Bytes → ℕ → Bytes → Bytes → Type 0
HexEnds cells n buffer text =
    (next : Bytes) × (hex_loop cells n buffer ≡ some (next, length text)) × Holds next text

hex_stops :
    (cells s buffer : Bytes) → Holds cells s → 4092 ≤ length s → HexEnds cells (length s) buffer s
unfolding hex_loop
hex_stops cells s [] h k = (cells, refl, h)
hex_stops cells s (b ∷ bs) h k =
    let e : ltb (length s) 4092 ≡ false = ground arith in (cells, rw (e, hex_loop) refl, h)

hex_steps :
    (cells s : Bytes) (b : ℕ)
    → Holds cells s
    → length s < 4092
    → (next : Bytes) × ((bs : Bytes)
        → hex_loop cells (length s) (b ∷ bs) ≡ hex_loop next (length (s ++ hex_text b)) bs)
      × Holds next (s ++ hex_text b)
unfolding hex_loop hex_text
hex_steps cells s b h k =
    let (next, p, held) = put-Holds cells s (hex_text b ++ 0 ∷ []) h (omega arith) in
    let e : ltb (length s) 4092 ≡ true = ground arith in
    let n : length (s ++ hex_text b) ≡ length s + 3 = length-append s (hex_text b) in
    (
      next,
      λ bs. rw (e, hex_loop) (rw (p, hex_loop) (rw n refl)),
      Holds-append next (s ++ hex_text b) (0 ∷ []) (rw (append_assoc s (hex_text b) (0 ∷ [])) held),
    )

take_nil : (n : ℕ) → take {A = ℕ} n [] ≡ []
take_nil zero = refl
take_nil (suc n) = refl

hex_loop-Holds :
    (cells s buffer : Bytes)
    → Holds cells s
    → length s ≤ 4095
    → HexEnds cells (length s) buffer (s ++ hex_texts (take (hex_room (length s)) buffer))
unfolding hex_loop hex_text
hex_loop-Holds cells s [] h k =
    rw (take_nil (hex_room (length s))) (rw (append-nil s) (cells, refl, h))
hex_loop-Holds cells s (b ∷ bs) h k = elim (Bool-cases (ltb (length s) 4092)) [
  | inl f ↦
      let q : length s < 4092 = ltb→lt (length s) 4092 f in
      let (next, p, held) = hex_steps cells s b h q in
      let n : length (s ++ hex_text b) ≡ length s + 3 = length-append s (hex_text b) in
      let m : hex_room (length s) ≡ suc (hex_room (length (s ++ hex_text b))) =
        omega (arith, n, q) in
      let t : Bytes = hex_texts (take (hex_room (length (s ++ hex_text b))) bs) in
      let (last, e, whole) : HexEnds next (length (s ++ hex_text b)) bs (s ++ (hex_text b ++ t)) =
        rw (← append_assoc s (hex_text b) t)
          (hex_loop-Holds next (s ++ hex_text b) bs held (omega (arith, q, n))) in
      rw m (last, p bs ∙ e, whole)
  | inr f ↦
      let q : 4092 ≤ length s = ltb_false→le (length s) 4092 f in
      let m : hex_room (length s) ≡ 0 = omega (arith, q) in
      rw m (rw (append-nil s) (hex_stops cells s (b ∷ bs) h q))
]

length-hex_texts : (bs : Bytes) → length (hex_texts bs) ≡ 3 * length bs
unfolding hex_text
length-hex_texts [] = refl
length-hex_texts (b ∷ bs) = omega (arith, length-hex_texts bs)

hex_line_fits :
    (head buffer : Bytes)
    → length head ≤ 4095
    → length (head ++ hex_texts (take (hex_room (length head)) buffer)) < 4099
hex_line_fits head buffer h =
    let shown : Bytes = take (hex_room (length head)) buffer in
    let a = length-append head (hex_texts shown) in
    let b = length-hex_texts shown in
    let c = length-take (hex_room (length head)) buffer in omega (arith, h, a, b, c)

-- With a head of at most 4095 bytes, hex_try_append never writes outside of its array: it appends the
-- head, the hexadecimal text of as many bytes as have room in 4094 bytes, and an end of line, if the
-- level is let through, and changes nothing otherwise.
pub hex_try_append-logged :
    (lvl : ℕ) (head buffer : Bytes) (l : Log)
    → length head ≤ 4095
    → hex_try_append lvl head buffer l
      ≡ some
          (logged (passes_level lvl l) (head ++ hex_texts (take (hex_room (length head)) buffer)) l)
unfolding hex_try_append
hex_try_append-logged lvl head buffer l h =
    let t : Bytes = head ++ hex_texts (take (hex_room (length head)) buffer) in
    let (first, p, held) = line_head head h in
    let (cells, q, all) = hex_loop-Holds first head buffer held h in
    elim (Bool-cases (passes_level lvl l)) [
      | inl f ↦
          rw (f, hex_try_append)
            (rw (p, hex_try_append)
              (rw (q, hex_try_append)
                (try_append-Holds cells t l all (hex_line_fits head buffer h))))
      | inr f ↦ rw (f, hex_try_append) refl
    ]
