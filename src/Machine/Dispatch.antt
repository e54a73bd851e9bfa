-- ===== src/Machine/Dispatch.antt =====
-- `Analysis` and `CommunicationAnalysis` of src/IMachine.cpp. A frame is the memory from its first
-- byte to the end of the receive buffer, since the source reads it through a pointer.
use imachine_hb_f.Checksum.{Bytes, byte, bcc_data_check}
use imachine_hb_f.Machine.{Machine, in_charge}
use imachine_hb_f.Machine.Handlers.{
  Reply, Handled, balus_trade, display_voice, display_control, traffic_control, flash_light_control,
}
use imachine_hb_f.Machine.Send.{communication_send}
use imachine_hb_f.Prelude.{
  ℕ, ◌-◌, Bool, true, ◌&&◌, Option, none, some, [], ◌∷◌, drop, ltb, ◌==◌, if◌then◌else◌,
}

-- What the environment decides during a command.
pub record Env : Type 0 where
  -- `steady_clock::now()`
  pub now : ℕ
  -- whether the speech engine's call throws
  pub throws : Bool
  -- what the variable `Type` of `CommunicationAnalysis` holds before it is assigned
  pub unset_type : ℕ

-- The machine and the reply bytes after `Analysis`.
abbrev pub Analysed : Type 0
Analysed = Machine × Reply

-- `resetTimer = true`, at the end of `Analysis`.
unfoldable pub after_handler : Option Handled → Option Analysed
after_handler none = none
after_handler (some (m, r, ret)) = some (record m { reset_timer = true }, r)

-- The device switch; the second check has passed for `checked`.
unfoldable pub device : Env → Machine → Bytes → ℕ → Reply → Bool → Option Analysed
unfolding after_handler
device env m cmd cmd_len oput checked =
    let refused = some (record m { reset_timer = true }, oput) in
    if byte cmd 4 == 0x07
    then (if checked then after_handler (some (flash_light_control m (drop 4 cmd))) else refused)
    else if byte cmd 4 == 0x53
    then (if checked
        then after_handler (display_voice env.throws m (drop 4 cmd) (cmd_len - 7))
        else refused)
    else if byte cmd 4 == 0x44
    then (if checked
        then after_handler (display_control env.now m (drop 4 cmd) 42 oput)
        else refused)
    else if byte cmd 4 == 0x64
    then (if checked
        then after_handler (display_control env.now m (drop 4 cmd) 71 oput)
        else refused)
    else some (m, oput)

unfoldable pub is_device : Bytes → Bool
is_device cmd = byte cmd 0 == 0xA0 && byte cmd 1 == 0xB0 && byte cmd 2 == 0xC0 && byte cmd 3 == 0xD0

unfoldable pub analysis : Env → Machine → Bytes → ℕ → Reply → Option Analysed
unfolding is_device after_handler
analysis env m cmd cmd_len oput =
    if ltb cmd_len 1
    then some (m, oput)
    else if is_device cmd
    then device env m cmd cmd_len oput (bcc_data_check cmd 0 cmd_len 0 == 1)
    else if byte cmd 0 == 0xA3
    then after_handler (some (balus_trade m cmd oput))
    else if byte cmd 0 == 0xAE
    then after_handler (some (traffic_control m cmd oput))
    else some (record m { reset_timer = true }, oput)

-- The reply to the client that sent the command, if it is one of the two. Of the frame no byte is unset: two
-- are copied, and two sent.
unfoldable pub reply : ℕ → ℕ → Bytes → Analysed → Machine
reply tx_seq type ip (m, r) = (communication_send [] m tx_seq type (r.0 ∷ r.1 ∷ []) 2 0 ip).0

unfoldable pub reply_if : ℕ → ℕ → Bytes → Option Analysed → Option Machine
reply_if tx_seq type ip none = none
reply_if tx_seq type ip (some a) = some (reply tx_seq type ip a)

-- The type byte for a device, or `none` where the frame is dropped without a reply.
unfoldable pub device_type : ℕ → Option ℕ
device_type code =
    if code == 0x44
    then some 0xD4
    else if code == 0x64
    then some 0xD4
    else if code == 0x07
    then some 0xDF
    else if code == 0x53
    then some 0xD4
    else none

unfoldable pub communication_analysis : Env → Machine → Bytes → ℕ → Bytes → Option Machine
unfolding reply_if
communication_analysis env m cmd cmd_len ip =
    let tx_seq = byte cmd 3 in
    let nothing : Option Analysed = some (m, (0, 0)) in
    if byte cmd 8 == 0xA4
    then (if in_charge m ip
        then elim (device_type (byte cmd 13)) [
          | none ↦ some m
          | some type ↦ reply_if tx_seq type ip (analysis env m (drop 9 cmd) (cmd_len - 10) (0, 0))
        ]
        else reply_if tx_seq env.unset_type ip nothing)
    else if byte cmd 8 == 0xA3
    then reply_if tx_seq 0xD3 ip
        (if in_charge m ip then analysis env m (drop 8 cmd) cmd_len (0, 0) else nothing)
    else if byte cmd 8 == 0xAE
    then reply_if tx_seq 0xDE ip
        (if in_charge m ip then analysis env m (drop 8 cmd) cmd_len (0, 0) else nothing)
    else some m
