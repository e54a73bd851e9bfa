-- ===== src/Led/Packets.antt =====
-- The bytes of the packets of src/QYLED.cpp, in the order in which `pos++` writes them.
use imachine_hb_f.Checksum.{Bytes}
use imachine_hb_f.Prelude.{
  ℕ, ◌+◌, ◌-◌, ◌*◌, ◌/◌, ◌%◌, ◌^◌, [], ◌∷◌, ◌++◌, take, ltb, ◌==◌, if◌then◌else◌,
}

abbrev pub Pair : Type 0
Pair = ℕ × ℕ

-- A difference stored in a byte.
abbrev pub sub8 : ℕ → ℕ → ℕ
sub8 a b = (a + 256 - b % 256) % 256

-- `(n >> k) & 0xFF`
abbrev pub byte_at : ℕ → ℕ → ℕ
byte_at n k = n / 2 ^ k % 256

-- `(n << k) & 0xFF` on an unsigned int
abbrev pub shifted_left : ℕ → ℕ → ℕ
shifted_left n k = n * 2 ^ k % 2 ^ 32 % 256

-- Four bytes, the lowest first, before `rest`.
abbrev pub le32 : ℕ → Bytes → Bytes
le32 n rest = byte_at n 0 ∷ byte_at n 8 ∷ byte_at n 16 ∷ byte_at n 24 ∷ rest

abbrev pub head : Bytes → Bytes
head rest = 0xFE ∷ 0x5C ∷ 0x4B ∷ 0x89 ∷ rest

abbrev pub tail : Bytes
tail = 0xFF ∷ 0xFF ∷ []

-- A length that the source writes as one byte and three zeros.
abbrev small : ℕ → Bytes → Bytes
small n rest = n ∷ 0x00 ∷ 0x00 ∷ 0x00 ∷ rest

unfoldable pub page_packet : ℕ → Bytes
page_packet page = head (
    small 0x15 (0x66 ∷ 0x92 ∷ 0x79 ∷ 0x95 ∷ 0x72 ∷ small 0x02 (page % 256 ∷ sub8 0xFF page ∷ tail)))

unfoldable pub relay_packet : Pair → Pair → Pair → Bytes
relay_packet r1 r2 r3 =
    head
      (small 0x19 (0x61 ∷ small 0x00 (small 0x06 (r1.0 ∷ r1.1 ∷ r2.0 ∷ r2.1 ∷ r3.0 ∷ r3.1 ∷ tail))))

unfoldable pub switch_packet : ℕ → Bytes
switch_packet status =
    head (small 0x13 ((if status == 0 then 0x52 else 0x51) ∷ small 0x00 (small 0x00 tail)))

bright_mode : ℕ → ℕ
bright_mode mode = if mode == 0 then 0x02 else 0x01

bright_level : ℕ → ℕ
bright_level size = 7 - (if ltb 7 size then 7 else size)

unfoldable pub bright_packet : ℕ → ℕ → Bytes
unfolding bright_mode bright_level
bright_packet mode size = head (
    small 0x17 (
      0x76
      ∷ small 0x00 (
          small 0x04 (
            bright_mode mode
            ∷ sub8 0xFF (bright_mode mode)
            ∷ bright_level size
            ∷ sub8 0xFF (bright_level size)
            ∷ tail))))

abbrev clamp_font : ℕ → ℕ
clamp_font font = if ltb 3 font then 3 else font

-- `0x10 | (Font & 0x0F)`: the two parts share no bit.
unfoldable pub font_byte : ℕ → ℕ
font_byte font = 0x10 + clamp_font font % 16

-- The length fields shift left, as the source does.
unfoldable pub fast_packet : ℕ → ℕ → ℕ → Bytes → ℕ → Bytes
unfolding font_byte
fast_packet line font colour bytes data_len = head (
    shifted_left (data_len + 24) 0
    ∷ shifted_left (data_len + 24) 8
    ∷ shifted_left (data_len + 24) 16
    ∷ shifted_left (data_len + 24) 24
    ∷ 0x65
    ∷ small 0x00 (
        shifted_left (data_len + 5) 0
        ∷ shifted_left (data_len + 5) 8
        ∷ shifted_left (data_len + 5) 16
        ∷ shifted_left (data_len + 5) 24
        ∷ line % 256
        ∷ 0x00
        ∷ (0x01 + colour % 16 * 16)
        ∷ font_byte font
        ∷ data_len % 256
        ∷ (take data_len bytes ++ tail)))

-- The material: its identifier, how it plays, its attributes, its length, the text, and its end.
unfoldable pub specially_body : ℕ → ℕ → ℕ → ℕ → Bytes → ℕ → Bytes
unfolding font_byte
specially_body line font colour specially bytes data_len =
    0x30
    ∷ 0x30
    ∷ 0x30
    ∷ 0x30
    ∷ 0x30
    ∷ 0x30
    ∷ 0x30
    ∷ 0x30
    ∷ (0x30 + line) % 256
    ∷ 0x2C
    ∷ specially % 256
    ∷ 0x05
    ∷ 0x00
    ∷ 0x30
    ∷ 0x31
    ∷ 0x30
    ∷ 0x31
    ∷ 0x30
    ∷ 0x31
    ∷ 0x39
    ∷ 0x39
    ∷ 0x31
    ∷ 0x32
    ∷ 0x33
    ∷ 0x31
    ∷ small 0x13 (
        0x55
        ∷ 0xAA
        ∷ 0x00
        ∷ 0x00
        ∷ 0x37
        ∷ 0x32
        ∷ 0x32
        ∷ 0x31
        ∷ 0x33
        ∷ 0x31
        ∷ 0x00
        ∷ 0x00
        ∷ 0x10
        ∷ 0x00
        ∷ 0x20
        ∷ 0x00
        ∷ colour % 256
        ∷ font_byte font
        ∷ 0x00
        ∷ le32 (data_len + 10) (
            take data_len bytes
            ++ (0xFF ∷ 0x00 ∷ 0x01 ∷ 0x00 ∷ 0x01 ∷ 0x00 ∷ 0x01 ∷ 0x00 ∷ 0x10 ∷ 0x48 ∷ 0x2D ∷ 0x31
                ∷ 0x2C ∷ [])))

unfoldable pub specially_packet : ℕ → ℕ → ℕ → ℕ → Bytes → ℕ → Bytes
unfolding specially_body
specially_packet line font colour specially bytes data_len = head (
    le32 (data_len + 84) (
      0x31
      ∷ small 0x00 (
          le32 (data_len + 84 - 19)
            (specially_body line font colour specially bytes data_len ++ tail))))

-- The upper bytes of the inner length are masked by 0xF, as the source does.
unfoldable pub voice_packet : ℕ → Bytes → ℕ → Bytes
voice_packet mode bytes data_len = head (
    le32 (data_len + 26) (
      0x68
      ∷ 0x02
      ∷ 0x00
      ∷ 0x00
      ∷ 0x00
      ∷ byte_at (data_len + 2 + 5) 0
      ∷ (data_len + 2 + 5) / 2 ^ 8 % 16
      ∷ (data_len + 2 + 5) / 2 ^ 16 % 16
      ∷ (data_len + 2 + 5) / 2 ^ 24 % 16
      ∷ 0xFD
      ∷ byte_at (data_len + 2) 8
      ∷ byte_at (data_len + 2) 0
      ∷ 0x01
      ∷ mode % 256
      ∷ (take data_len bytes ++ (0x00 ∷ 0x00 ∷ tail))))

unfoldable pub traffic_packet : ℕ → ℕ → Bytes
traffic_packet line mode = head (
    small 0x20 (
      0x67
      ∷ small 0x00 (
          small 0x0D (
            0x01
            ∷ 0xFE
            ∷ 0x00
            ∷ 0x00
            ∷ 0x00
            ∷ line % 256
            ∷ (if mode == 0 then 0x00 else 0x01)
            ∷ 0x00
            ∷ 0x01
            ∷ 0x00
            ∷ 0x00
            ∷ 0x00
            ∷ 0x00
            ∷ tail))))
