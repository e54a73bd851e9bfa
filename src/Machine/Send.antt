-- ===== src/Machine/Send.antt =====
-- `CommunicationSend` of src/IMachine.cpp, and `TcpServer::WriteByte` of src/TcpServer.cpp.
use imachine_hb_f.Checksum.{Bytes, bcc_data_check}
use imachine_hb_f.Machine.{Machine, TcpServer, str_eq}
use imachine_hb_f.Prelude.{
  ℕ, ◌-◌, ◌/◌, ◌%◌, Bool, true, false, Option, none, some, [], ◌∷◌, ◌++◌, take, length, ◌==◌,
  if◌then◌else◌,
}

unfoldable pub write_byte : TcpServer → Bytes → TcpServer × Bool
write_byte tcp bytes =
    if tcp.is_open then (record tcp { sent = bytes ∷ tcp.sent }, true) else (tcp, false)

-- The header and the data of a reply. Three bytes are copied for the coils and two for any other reply, and
-- `DataLen` grows by `CmdLen` whatever was copied: `unset` is what `SendData` holds behind the copied bytes, up
-- to its end.
unfoldable pub reply_body : Bytes → ℕ → ℕ → Bytes → ℕ → Bytes
reply_body unset tx_seq type cmd cmd_len =
    if type == 0xB0
    then 0xFF ∷ 0xFF ∷ 0x00 ∷ 0x09 ∷ 0x00 ∷ 0x00 ∷ 0x00 ∷ 0x01 ∷ 0xB0 ∷ []
    else 0xFF
      ∷ 0xFF
      ∷ 0x00
      ∷ tx_seq / 10
      ∷ 0x00
      ∷ 0x00
      ∷ cmd_len / 256 % 256
      ∷ cmd_len % 256
      ∷ take cmd_len (take (if type == 0xDC then 3 else 2) cmd ++ unset)

unfoldable pub reply_frame : Bytes → ℕ → ℕ → Bytes → ℕ → Bytes
unfolding reply_body
reply_frame unset tx_seq type cmd cmd_len =
    let body = reply_body unset tx_seq type cmd cmd_len in
    body ++ bcc_data_check body 2 (length body - 2) 2 ∷ []

-- The result is `none` where control runs off the end of the function, which returns a `bool`.
unfoldable pub communication_send :
    Bytes → Machine → ℕ → ℕ → Bytes → ℕ → ℕ → Bytes → Machine × Option Bool
unfolding write_byte reply_frame
communication_send unset m tx_seq type cmd cmd_len is_coil ip =
    let frame = reply_frame unset tx_seq type cmd cmd_len in
    if str_eq ip m.client1
    then (record m { tcp1 = (write_byte m.tcp1 frame).0 }, none)
    else if str_eq ip m.client2
    then (record m { tcp2 = (write_byte m.tcp2 frame).0 }, none)
    else if is_coil == 1
    then (m, some false)
    else (m, none)
