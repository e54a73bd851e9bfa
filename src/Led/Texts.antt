-- ===== src/Led/Texts.antt =====
-- The packets of src/QYLED.cpp that carry a text, against the layout.
use imachine_hb_f.Checksum.{Bytes}
use imachine_hb_f.Led.Layout.{IsPacket, assemble-le32, zeros, read_le32, IsPacket-read_le32}
use imachine_hb_f.Led.Packets.{
  byte_at, shifted_left, le32, head, tail, fast_packet, font_byte, specially_body, specially_packet,
  voice_packet,
}
use imachine_hb_f.Prelude.{
  ℕ, ◌+◌, ◌-◌, ◌*◌, ◌/◌, ◌%◌, ◌^◌, ◌≤◌, ◌<◌, ◌≡◌, ◌↔◌, refl, sym, ap, ◌∙◌, [], ◌∷◌, ◌++◌, take,
  length, length-append, length-take, append_assoc, arith,
}

length-specially_body :
    (line font colour specially : ℕ) (bytes : Bytes) (data_len : ℕ)
    → data_len ≤ length bytes
    → length (specially_body line font colour specially bytes data_len) ≡ data_len + 65
unfolding specially_body
length-specially_body line font colour specially bytes data_len h = omega (
  arith,
  length-append {0} (take data_len bytes) (
      0xFF ∷ 0x00 ∷ 0x01 ∷ 0x00 ∷ 0x01 ∷ 0x00 ∷ 0x01 ∷ 0x00 ∷ 0x10 ∷ 0x48 ∷ 0x2D ∷ 0x31 ∷ 0x2C
      ∷ []),
  length-take {0} data_len bytes,
)

pub length-specially_packet :
    (line font colour specially : ℕ) (bytes : Bytes) (data_len : ℕ)
    → data_len ≤ length bytes
    → length (specially_packet line font colour specially bytes data_len) ≡ data_len + 84
unfolding specially_packet specially_body
length-specially_packet line font colour specially bytes data_len h = omega (
  arith,
  length-append {0} (specially_body line font colour specially bytes data_len) tail,
  length-specially_body line font colour specially bytes data_len h,
)

-- A text of any length that the array has room for.
pub specially_packet-IsPacket :
    (line font colour specially : ℕ) (bytes : Bytes) (data_len : ℕ)
    → data_len ≤ length bytes
    → data_len + 84 < 2 ^ 32
    → IsPacket (specially_packet line font colour specially bytes data_len)
specially_packet-IsPacket line font colour specially bytes data_len h l =
    let e = length-specially_body line font colour specially bytes data_len h in
    record {
      kind = 0x31;
      id = zeros;
      body = specially_body line font colour specially bytes data_len;
      id_length = refl;
      fits = omega arith;
      whole =
          unfold specially_packet in
          assemble-le32 0x31 zeros (specially_body line font colour specially bytes data_len)
            (data_len + 84) (data_len + 84 - 19) (omega arith) (omega arith);
    }

-- The body of a voice packet: a synthesis command with its own length.
abbrev pub voice_body : ℕ → Bytes → ℕ → Bytes
voice_body mode bytes data_len =
    0xFD
    ∷ byte_at (data_len + 2) 8
    ∷ byte_at (data_len + 2) 0
    ∷ 0x01
    ∷ mode % 256
    ∷ (take data_len bytes ++ (0x00 ∷ 0x00 ∷ []))

length-voice_body :
    (mode : ℕ) (bytes : Bytes) (data_len : ℕ)
    → data_len ≤ length bytes
    → length (voice_body mode bytes data_len) ≡ data_len + 7
length-voice_body mode bytes data_len h = omega (
  arith,
  length-append {0} (take data_len bytes) (0x00 ∷ 0x00 ∷ []),
  length-take {0} data_len bytes,
)

masked_le32 :
    (n : ℕ) (rest : Bytes)
    → n < 4096
    → byte_at n 0 ∷ n / 2 ^ 8 % 16 ∷ n / 2 ^ 16 % 16 ∷ n / 2 ^ 24 % 16 ∷ rest ≡ le32 n rest
masked_le32 n rest h =
    let p : n / 2 ^ 8 % 16 ≡ byte_at n 8 = omega arith in
    let q : n / 2 ^ 16 % 16 ≡ byte_at n 16 = omega arith in
    let r : n / 2 ^ 24 % 16 ≡ byte_at n 24 = omega arith in
    λ i. byte_at n 0 ∷ p i ∷ q i ∷ r i ∷ rest

-- The masks by 0xF do no harm to lengths below 4096.
pub voice_packet-IsPacket :
    (mode : ℕ) (bytes : Bytes) (data_len : ℕ)
    → data_len ≤ length bytes
    → data_len + 7 < 4096
    → IsPacket (voice_packet mode bytes data_len)
voice_packet-IsPacket mode bytes data_len h l =
    let e = length-voice_body mode bytes data_len h in
    record {
      kind = 0x68;
      id = 0x02 ∷ 0x00 ∷ 0x00 ∷ 0x00 ∷ [];
      body = voice_body mode bytes data_len;
      id_length = refl;
      fits = omega arith;
      whole =
          unfold voice_packet in
          (ap (λ (t : Bytes). head (le32 (data_len + 26) (0x68 ∷ 0x02 ∷ 0 ∷ 0 ∷ 0 ∷ t)))
              (masked_le32 (data_len + 2 + 5) _ (omega arith)
                ∙ ap
                    (λ (t : Bytes). le32 (data_len + 2 + 5) (
                      0xFD
                      ∷ byte_at (data_len + 2) 8
                      ∷ byte_at (data_len + 2) 0
                      ∷ 0x01
                      ∷ mode % 256
                      ∷ t))
                    (sym (append_assoc (take data_len bytes) (0x00 ∷ 0x00 ∷ []) tail)))
            ∙ assemble-le32 0x68 (0x02 ∷ 0x00 ∷ 0x00 ∷ 0x00 ∷ []) (voice_body mode bytes data_len)
                (data_len + 26) (data_len + 2 + 5) (omega arith) (omega arith));
    }

pub length-voice_packet :
    (mode : ℕ) (bytes : Bytes) (data_len : ℕ)
    → data_len ≤ length bytes
    → length (voice_packet mode bytes data_len) ≡ data_len + 26
unfolding voice_packet
length-voice_packet mode bytes data_len h = omega (
  arith,
  length-append {0} (take data_len bytes) (0x00 ∷ 0x00 ∷ tail),
  length-take {0} data_len bytes,
)

-- The text, with the four attributes and the length before it.
abbrev fast_body : ℕ → ℕ → ℕ → Bytes → ℕ → Bytes
fast_body line font colour bytes data_len =
    line % 256
    ∷ 0x00
    ∷ (0x01 + colour % 16 * 16)
    ∷ font_byte font
    ∷ data_len % 256
    ∷ take data_len bytes

shifted_le32 :
    (n : ℕ) (rest : Bytes)
    → n < 256
    → shifted_left n 0 ∷ shifted_left n 8 ∷ shifted_left n 16 ∷ shifted_left n 24 ∷ rest
      ≡ le32 n rest
shifted_le32 n rest h =
    let o : shifted_left n 0 ≡ byte_at n 0 = omega arith in
    let p : shifted_left n 8 ≡ byte_at n 8 = omega arith in
    let q : shifted_left n 16 ≡ byte_at n 16 = omega arith in
    let r : shifted_left n 24 ≡ byte_at n 24 = omega arith in λ i. o i ∷ p i ∷ q i ∷ r i ∷ rest

length-fast_packet :
    (line font colour : ℕ) (bytes : Bytes) (data_len : ℕ)
    → data_len ≤ length bytes
    → length (fast_packet line font colour bytes data_len) ≡ data_len + 24
unfolding fast_packet
length-fast_packet line font colour bytes data_len h =
    omega (arith, length-append {0} (take data_len bytes) tail, length-take {0} data_len bytes)

read_le32-fast_packet :
    (line font colour : ℕ) (bytes : Bytes) (data_len : ℕ)
    → read_le32 (fast_packet line font colour bytes data_len) 4 ≡ (data_len + 24) % 256
unfolding fast_packet
read_le32-fast_packet line font colour bytes data_len = omega arith

fast_packet_short :
    (line font colour : ℕ) (bytes : Bytes) (data_len : ℕ)
    → data_len ≤ length bytes
    → data_len + 24 < 256
    → IsPacket (fast_packet line font colour bytes data_len)
fast_packet_short line font colour bytes data_len h l =
    let body = fast_body line font colour bytes data_len in
    let e : length body ≡ data_len + 5 = omega (arith, length-take {0} data_len bytes) in
    record {
      kind = 0x65;
      id = zeros;
      body = fast_body line font colour bytes data_len;
      id_length = refl;
      fits = omega arith;
      whole =
          unfold fast_packet in
          (ap head (shifted_le32 (data_len + 24) _ l)
            ∙ ap (λ (t : Bytes). head (le32 (data_len + 24) (0x65 ∷ 0 ∷ 0 ∷ 0 ∷ 0 ∷ t)))
                (shifted_le32 (data_len + 5) _ (omega arith))
            ∙ assemble-le32 0x65 zeros (fast_body line font colour bytes data_len) (data_len + 24)
                (data_len + 5) (omega arith) (omega arith));
    }

-- `DisplayFast` shifts its length fields the wrong way: its packet has the layout exactly while its
-- length fits one byte.
pub fast_packet-IsPacket_iff :
    (line font colour : ℕ) (bytes : Bytes) (data_len : ℕ)
    → data_len ≤ length bytes
    → IsPacket (fast_packet line font colour bytes data_len) ↔ (data_len + 24 < 256)
fast_packet-IsPacket_iff line font colour bytes data_len h = (
  (λ w. omega (
    arith,
    IsPacket-read_le32 _ w,
    length-fast_packet line font colour bytes data_len h,
    read_le32-fast_packet line font colour bytes data_len,
  )),
  fast_packet_short line font colour bytes data_len h,
)
