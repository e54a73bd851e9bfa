-- ===== src/Tests/Checksum.antt =====
-- The checksum on a heartbeat, and its theorems there.
use imachine_hb_f.Checksum.{Bytes, bcc_data_check}
use imachine_hb_f.Checksum.Detection.{bcc_data_check_damage}
use imachine_hb_f.Prelude.{◌≡◌, refl, [], ◌∷◌, arith}

abbrev heartbeat : Bytes
heartbeat = 0x00 ∷ 0x90 ∷ 0x00 ∷ 0x00 ∷ 0x00 ∷ 0x00 ∷ []

-- 0x90 closes the frame FF FF 00 90 00 00 00 00.
heartbeat_checksum : bcc_data_check (0xFF ∷ 0xFF ∷ heartbeat) 2 6 2 ≡ 0x90
unfolding bcc_data_check
heartbeat_checksum = refl

heartbeat_accepted :
    bcc_data_check (0xFF ∷ 0xFF ∷ 0x00 ∷ 0x90 ∷ 0x00 ∷ 0x00 ∷ 0x00 ∷ 0x00 ∷ 0x90 ∷ []) 2 7 0 ≡ 1
unfolding bcc_data_check
heartbeat_accepted = refl

bcc_data_check_damage_example :
    bcc_data_check (0xFF ∷ 0xFF ∷ 0x00 ∷ 0x91 ∷ 0x00 ∷ 0x00 ∷ 0x00 ∷ 0x00 ∷ 0x90 ∷ []) 2 7 0 ≡ 0
bcc_data_check_damage_example =
    bcc_data_check_damage (0xFF ∷ 0xFF ∷ []) (0x00 ∷ []) 0x90 0x91
      (0x00 ∷ 0x00 ∷ 0x00 ∷ 0x00 ∷ 0x90 ∷ []) [] (omega arith) (omega arith) (omega arith)
      heartbeat_accepted
