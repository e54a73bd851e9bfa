-- ===== src/Tests/Led.antt =====
-- The display's packets for short texts.
use imachine_hb_f.Checksum.{Bytes}
use imachine_hb_f.Led.{new_led, disply_show}
use imachine_hb_f.Led.Packets.{page_packet, fast_packet, specially_packet}
use imachine_hb_f.Led.Layout.{IsPacket}
use imachine_hb_f.Led.Texts.{fast_packet-IsPacket_iff}
use imachine_hb_f.Led.Queue.{Queued, disply_show-Queued}
use imachine_hb_f.Prelude.{◌+◌, ◌<◌, ◌≡◌, ◌↔◌, refl, false, [], ◌∷◌, length, arith}

abbrev ab : Bytes
ab = 0x41 ∷ 0x42 ∷ []

page_one :
    page_packet 1
    ≡ 0xFE ∷ 0x5C ∷ 0x4B ∷ 0x89 ∷ 0x15 ∷ 0 ∷ 0 ∷ 0 ∷ 0x66 ∷ 0x92 ∷ 0x79 ∷ 0x95 ∷ 0x72 ∷ 2 ∷ 0 ∷ 0
      ∷ 0 ∷ 1 ∷ 0xFE ∷ 0xFF ∷ 0xFF ∷ []
unfolding page_packet
page_one = refl

text_packet_length : length (specially_packet 1 0 1 9 ab 2) ≡ 86
unfolding specially_packet
text_packet_length = refl

fast_packet-IsPacket_iff_example : IsPacket (fast_packet 1 0 1 ab 2) ↔ (2 + 24 < 256)
fast_packet-IsPacket_iff_example = fast_packet-IsPacket_iff 1 0 1 ab 2 (omega arith)

disply_show-Queued_example :
    Queued new_led 1 450 (specially_packet 1 0 1 9 ab 2) false (disply_show new_led 1 0 1 9 ab 2)
unfolding new_led
disply_show-Queued_example =
    disply_show-Queued new_led 1 0 1 9 ab 2 (omega arith) (omega arith) (omega arith)
