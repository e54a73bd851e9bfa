-- ===== src/Led/Layout.antt =====
-- The layout that the packets of src/QYLED.cpp share, and the fixed packets that have it.
use imachine_hb_f.Checksum.{Bytes}
use imachine_hb_f.Led.Packets.{
  Pair, sub8, le32, head, tail, page_packet, relay_packet, switch_packet, bright_packet,
  traffic_packet,
}
use imachine_hb_f.Prelude.{
  ℕ, ◌+◌, ◌*◌, ◌%◌, ◌^◌, ◌<◌, ◌≡◌, refl, sym, ap, ◌∙◌, [], ◌∷◌, ◌++◌, take, drop, get_or, length,
  length-append, arith, ◌==◌, if◌then◌else◌,
}

-- A kind, four bytes of identifier and a body, with the two lengths that the controller reads:
-- that of the whole packet, and that of the body.
abbrev pub assemble : ℕ → Bytes → Bytes → Bytes
assemble kind id body =
    head (le32 (length body + 19) (kind ∷ (id ++ le32 (length body) (body ++ tail))))

pub record IsPacket (packet : Bytes) : Type 0 where
  pub kind : ℕ
  pub id : Bytes
  pub body : Bytes
  pub id_length : length id ≡ 4
  pub fits : length body + 19 < 2 ^ 32
  pub whole : packet ≡ assemble kind id body

pub assemble-le32 :
    (kind : ℕ) (id body : Bytes) (n m : ℕ)
    → n ≡ length body + 19
    → m ≡ length body
    → head (le32 n (kind ∷ (id ++ le32 m (body ++ tail)))) ≡ assemble kind id body
assemble-le32 kind id body n m p q =
    ap (λ (t : ℕ). head (le32 t (kind ∷ (id ++ le32 m (body ++ tail))))) p
    ∙ ap (λ (t : ℕ). head (le32 (length body + 19) (kind ∷ (id ++ le32 t (body ++ tail))))) q

pub page_packet-IsPacket : (page : ℕ) → IsPacket (page_packet page)
unfolding page_packet
page_packet-IsPacket page = record {
  kind = 0x66;
  id = 0x92 ∷ 0x79 ∷ 0x95 ∷ 0x72 ∷ [];
  body = page % 256 ∷ sub8 0xFF page ∷ [];
  id_length = refl;
  fits = omega arith;
  whole = refl;
}

abbrev pub zeros : Bytes
zeros = 0 ∷ 0 ∷ 0 ∷ 0 ∷ []

pub relay_packet-IsPacket : (r1 r2 r3 : Pair) → IsPacket (relay_packet r1 r2 r3)
unfolding relay_packet
relay_packet-IsPacket r1 r2 r3 = record {
  kind = 0x61;
  id = zeros;
  body = r1.0 ∷ r1.1 ∷ r2.0 ∷ r2.1 ∷ r3.0 ∷ r3.1 ∷ [];
  id_length = refl;
  fits = omega arith;
  whole = refl;
}

pub switch_packet-IsPacket : (status : ℕ) → IsPacket (switch_packet status)
unfolding switch_packet
switch_packet-IsPacket status = record {
  kind = if status == 0 then 0x52 else 0x51;
  id = zeros;
  body = [];
  id_length = refl;
  fits = omega arith;
  whole = refl;
}

pub bright_packet-IsPacket : (mode size : ℕ) → IsPacket (bright_packet mode size)
unfolding bright_packet
bright_packet-IsPacket mode size = record {
  kind = 0x76;
  id = zeros;
  body = drop 17 (take 21 (bright_packet mode size));
  id_length = refl;
  fits = omega arith;
  whole = refl;
}

pub traffic_packet-IsPacket : (line mode : ℕ) → IsPacket (traffic_packet line mode)
unfolding traffic_packet
traffic_packet-IsPacket line mode = record {
  kind = 0x67;
  id = zeros;
  body = drop 17 (take 30 (traffic_packet line mode));
  id_length = refl;
  fits = omega arith;
  whole = refl;
}

-- The length that the controller reads at a place of a packet.
abbrev pub read_le32 : Bytes → ℕ → ℕ
read_le32 p i =
    get_or p i 0
    + 2 ^ 8 * get_or p (i + 1) 0
    + 2 ^ 16 * get_or p (i + 2) 0
    + 2 ^ 24 * get_or p (i + 3) 0

assemble-read_le32 :
    (kind : ℕ) (id body : Bytes)
    → length id ≡ 4
    → length body + 19 < 2 ^ 32
    → read_le32 (assemble kind id body) 4 ≡ length (assemble kind id body)
assemble-read_le32 kind id body h l =
    omega
      (arith, length-append {0} id (le32 (length body) (body ++ tail)), length-append {0} body tail)

-- A packet of this layout says its own length at byte 4.
pub IsPacket-read_le32 : (p : Bytes) → IsPacket p → read_le32 p 4 ≡ length p
IsPacket-read_le32 p w =
    ap (λ (t : Bytes). read_le32 t 4) w.whole
    ∙ assemble-read_le32 w.kind w.id w.body w.id_length w.fits
    ∙ sym (ap length w.whole)
