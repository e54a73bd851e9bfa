-- ===== src/Machine/Frames.antt =====
-- The frames that `CommunicationSend` of src/IMachine.cpp sends.
use imachine_hb_f.Checksum.{Bytes, bcc_data_check}
use imachine_hb_f.Checksum.Fold.{AreBytes, AreBytes-append}
use imachine_hb_f.Checksum.Detection.{bcc_data_check_seal}
use imachine_hb_f.Machine.Send.{reply_frame, reply_body}
use imachine_hb_f.Prelude.{
  ℕ, zero, suc, ◌+◌, ◌-◌, ◌/◌, ◌%◌, ◌<◌, ◌≡◌, refl, ap, inl, inr, Bool-cases, [], ◌∷◌, ◌++◌, take,
  ◌≤◌, length, length-append, arith, ◌==◌, if◌then◌else◌,
}

AreBytes-take : (n : ℕ) (xs : Bytes) → AreBytes xs → AreBytes (take n xs)
AreBytes-take zero xs h = tt
AreBytes-take (suc n) [] h = tt
AreBytes-take (suc n) (x ∷ xs) h = (h.0, AreBytes-take n xs h.1)

-- A body after its two leading bytes.
abbrev after_head : Bytes → ℕ → ℕ → Bytes → ℕ → Bytes
after_head unset tx_seq type cmd cmd_len =
    if type == 0xB0
    then 0x00 ∷ 0x09 ∷ 0x00 ∷ 0x00 ∷ 0x00 ∷ 0x01 ∷ 0xB0 ∷ []
    else 0x00
      ∷ tx_seq / 10
      ∷ 0x00
      ∷ 0x00
      ∷ cmd_len / 256 % 256
      ∷ cmd_len % 256
      ∷ take cmd_len (take (if type == 0xDC then 3 else 2) cmd ++ unset)

reply_body-after_head :
    (unset : Bytes) (tx_seq type : ℕ) (cmd : Bytes) (cmd_len : ℕ)
    → reply_body unset tx_seq type cmd cmd_len
      ≡ 0xFF ∷ 0xFF ∷ after_head unset tx_seq type cmd cmd_len
unfolding reply_body
reply_body-after_head unset tx_seq type cmd cmd_len = elim (Bool-cases (type == 0xB0)) [
  | inl e ↦ rw e refl
  | inr e ↦ rw e refl
]

after_head-AreBytes :
    (unset : Bytes) (tx_seq type : ℕ) (cmd : Bytes) (cmd_len : ℕ)
    → tx_seq < 256
    → AreBytes unset
    → AreBytes cmd
    → AreBytes (after_head unset tx_seq type cmd cmd_len)
after_head-AreBytes unset tx_seq type cmd cmd_len t u h = elim (Bool-cases (type == 0xB0)) [
  | inl e ↦ rw e (omega arith)
  | inr e ↦ rw e (
    omega arith,
    (
      omega arith,
      (
        omega arith,
        (
          omega arith,
          (
            omega arith,
            (
              omega arith,
              AreBytes-take cmd_len _
                  (AreBytes-append _ unset (AreBytes-take (if type == 0xDC then 3 else 2) cmd h) u),
            ),
          ),
        ),
      ),
    ),
  )
]

sealed :
    (frame body : Bytes)
    → frame ≡ 0xFF ∷ 0xFF ∷ body
    → AreBytes body
    → bcc_data_check
        (frame ++ bcc_data_check frame 2 (length frame - 2) 2 ∷ [])
        2
        (length (frame ++ bcc_data_check frame 2 (length frame - 2) 2 ∷ []) - 2)
        0
      ≡ 1
sealed frame body e h =
    let c = bcc_data_check (0xFF ∷ 0xFF ∷ body) 2 (length body) 2 in
    let n : suc (suc (length body)) - 2 ≡ length body = omega arith in
    let l : suc (suc (length (body ++ c ∷ []))) - 2 ≡ length body + 1 =
      omega (arith, length-append {0} body (c ∷ [])) in
    rw (e, n, l) (bcc_data_check_seal (0xFF ∷ 0xFF ∷ []) body [] h)

-- Every frame built from a sequence number and a command of bytes, the heartbeat included, whatever bytes stand
-- in the array behind those that are copied, passes the check that the receiving side makes of a frame: type 0, from the third byte on.
pub reply_frame-bcc_data_check :
    (unset : Bytes) (tx_seq type : ℕ) (cmd : Bytes) (cmd_len : ℕ)
    → tx_seq < 256
    → AreBytes unset
    → AreBytes cmd
    → let frame = reply_frame unset tx_seq type cmd cmd_len in
      bcc_data_check frame 2 (length frame - 2) 0 ≡ 1
reply_frame-bcc_data_check unset tx_seq type cmd cmd_len t u h =
    unfold reply_frame in
    sealed (reply_body unset tx_seq type cmd cmd_len) (after_head unset tx_seq type cmd cmd_len)
      (reply_body-after_head unset tx_seq type cmd cmd_len)
      (after_head-AreBytes unset tx_seq type cmd cmd_len t u h)

take-append : (n : ℕ) (xs ys : Bytes) → n ≤ length xs → take n (xs ++ ys) ≡ take n (xs ++ [])
take-append zero xs ys h = refl
take-append (suc n) [] ys h = absurd (omega arith)
take-append (suc n) (x ∷ xs) ys h =
    ap (λ (t : Bytes). x ∷ t) (take-append n xs ys (omega (arith, h)))

-- What the array held before is not sent with at most as many bytes as are copied.
pub reply_frame-unset :
    (unset : Bytes) (tx_seq type : ℕ) (cmd : Bytes) (cmd_len : ℕ)
    → cmd_len ≤ length (take (if type == 0xDC then 3 else 2) cmd)
    → reply_frame unset tx_seq type cmd cmd_len ≡ reply_frame [] tx_seq type cmd cmd_len
unfolding reply_frame reply_body
reply_frame-unset unset tx_seq type cmd cmd_len h =
    rw (take-append cmd_len (take (if type == 0xDC then 3 else 2) cmd) unset h) refl
