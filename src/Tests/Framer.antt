-- ===== src/Tests/Framer.antt =====
-- The framer on a barrier frame with a heartbeat behind it.
use mathlib.Core.List.{flatten}
use imachine_hb_f.Checksum.{Bytes, bcc_data_check}
use imachine_hb_f.Framer.{
  Framer, Received, closed, fault, out_of_fuel, received, receive, receive_all, frame_len,
  too_short, passes, pass, find_header, located, sized, checked, rejected,
}
use imachine_hb_f.Framer.Pieces.{ArePieces, receive_all-flatten}
use imachine_hb_f.Framer.Checked.{AreChecked, receive-AreChecked}
use imachine_hb_f.Framer.Passes.{holding, memory, IsFrame, command_of}
use imachine_hb_f.Framer.Stream.{AreFrames, commands_of, receive_stream}
use imachine_hb_f.Framer.Termination.{IsFramer, Ends, receive-Ends}
use imachine_hb_f.Prelude.{
  ℕ, ◌≡◌, true, refl, inl, inr, Option, none, some, List, [], ◌∷◌, ◌++◌, arith,
}

abbrev raise : Bytes
raise = 0xFF ∷ 0xFF ∷ 0x00 ∷ 0x10 ∷ 0x00 ∷ 0x00 ∷ 0x00 ∷ 0x02 ∷ 0xA3 ∷ 0x01 ∷ 0xB0 ∷ []

abbrev heartbeat : Bytes
heartbeat = 0xFF ∷ 0xFF ∷ 0x00 ∷ 0x90 ∷ 0x00 ∷ 0x00 ∷ 0x00 ∷ 0x00 ∷ 0x90 ∷ []

heartbeat-IsFrame : IsFrame heartbeat []
unfolding frame_len bcc_data_check
heartbeat-IsFrame = record { header = refl; size = λ old. refl; seal = refl; long = omega arith }

both-AreFrames : AreFrames (raise ∷ heartbeat ∷ [])
unfolding frame_len bcc_data_check too_short flatten
both-AreFrames = (
  record { header = refl; size = λ old. refl; seal = refl; long = omega arith },
  refl,
  heartbeat-IsFrame,
)

-- A barrier frame that carries 32 where its length stands: good on its own, it is too short to be looked at when
-- it comes behind another frame.
abbrev long_claim : Bytes
long_claim = 0xFF ∷ 0xFF ∷ 0x00 ∷ 0x10 ∷ 0x00 ∷ 0x00 ∷ 0x00 ∷ 0x20 ∷ 0xA3 ∷ 0x01 ∷ 0x92 ∷ []

long_claim-IsFrame : IsFrame long_claim []
unfolding frame_len bcc_data_check
long_claim-IsFrame = record { header = refl; size = λ old. refl; seal = refl; long = omega arith }

long_claim_waits : too_short (memory long_claim) 11 ≡ true
unfolding too_short
long_claim_waits = refl

receive_stream_example :
    (c : Option ℕ) × (receive (holding [] none) (raise ++ heartbeat)
      ≡ received (command_of raise heartbeat ∷ command_of heartbeat [] ∷ []) (holding [] c))
unfolding flatten commands_of
receive_stream_example = receive_stream raise (heartbeat ∷ []) none both-AreFrames (omega arith)

-- A new connection, over a buffer that was never written to.
abbrev fresh : Framer
fresh = record { recv_data = []; pos = 0; index1 = none; index2 = 0; command_len = none }

fresh-IsFramer : IsFramer fresh
fresh-IsFramer = record { ahead = λ start e. cc; positive = λ len e. cc }

receive-Ends_example : Ends (receive fresh raise)
receive-Ends_example = receive-Ends fresh raise fresh-IsFramer

both_received :
    (c : Option ℕ) × (receive (holding [] none) (raise ++ heartbeat)
      ≡ received (command_of raise heartbeat ∷ command_of heartbeat [] ∷ []) (holding [] c))
unfolding flatten commands_of
both_received = receive_stream raise (heartbeat ∷ []) none both-AreFrames (omega arith)

receive-AreChecked_example : AreChecked (command_of raise heartbeat ∷ command_of heartbeat [] ∷ [])
receive-AreChecked_example =
    receive-AreChecked (holding [] none) (holding [] (both_received.0)) (raise ++ heartbeat)
      (command_of raise heartbeat ∷ command_of heartbeat [] ∷ []) (both_received.1)

-- The barrier frame in three pieces, behind a heartbeat.
abbrev in_three : List Bytes
in_three =
    (0xFF ∷ 0xFF ∷ [])
    ∷ (0x00 ∷ 0x10 ∷ 0x00 ∷ 0x00 ∷ 0x00 ∷ [])
    ∷ (0x02 ∷ 0xA3 ∷ 0x01 ∷ 0xB0 ∷ [])
    ∷ []

in_three-ArePieces : ArePieces [] (some 9) in_three
unfolding frame_len
in_three-ArePieces = (
  omega arith,
  inl (omega arith),
  (omega arith, inr (omega arith, 9, refl, omega arith), omega arith),
)

in_three-IsFrame : IsFrame (flatten in_three) []
unfolding frame_len bcc_data_check flatten
in_three-IsFrame = record { header = refl; size = λ old. refl; seal = refl; long = omega arith }

receive_all-flatten_example :
    receive_all (holding [] (some 9)) in_three
    ≡ received (command_of raise [] ∷ []) (holding [] (some 11))
unfolding flatten
receive_all-flatten_example =
    receive_all-flatten in_three (some 9) in_three-ArePieces in_three-IsFrame (omega arith)

abbrev bytes_kept : Received → ℕ
bytes_kept closed = 0
bytes_kept fault = 0
bytes_kept out_of_fuel = 0
bytes_kept (received cs f) = f.pos

-- The first ten bytes of a warning light frame of 23, behind a heartbeat: its kind is not there yet, they
-- are taken for a frame of 9 bytes, and thrown away.
start_lost :
    bytes_kept (
      receive
        (holding [] (some 9))
        (0xFF ∷ 0xFF ∷ 0x00 ∷ 0x10 ∷ 0x00 ∷ 0x00 ∷ 0x00 ∷ 0x0E ∷ 0x00 ∷ 0xA0 ∷ []))
    ≡ 0
unfolding receive passes pass find_header located frame_len sized checked bcc_data_check rejected
start_lost = refl
