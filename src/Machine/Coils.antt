-- ===== src/Machine/Coils.antt =====
-- The lane's three vehicle coils: `VehicleThread` of src/IMachine.cpp, one pass of its loop at a time,
-- and the heartbeat of `HeartThread`. The pauses between the passes are left out.
pub mod Reports
pub mod Addressee
use imachine_hb_f.Machine.{Machine}
use imachine_hb_f.Machine.Send.{communication_send}
use imachine_hb_f.Prelude.{ℕ, ◌+◌, ◌/◌, Bool, true, false, ◌&&◌, ◌||◌, [], ◌∷◌, ◌==◌, if◌then◌else◌}
use imachine_hb_f.Prelude.Int.{ℤ, pos, negsuc, int_eq}

-- What `GetIOValue` returns for the three coils and the manual switch in a pass.
pub record Inputs : Type 0 where
  pub io1 : ℤ
  pub io2 : ℤ
  pub io3 : ℤ
  pub manual : ℤ

-- The thread's locals: `oldIOStatus`, `ManualSwitchStatusOld`, `Oput[2]` and `TxSEQ`.
pub record Coils : Type 0 where
  pub old1 : ℤ
  pub old2 : ℤ
  pub old3 : ℤ
  pub manual_old : ℤ
  pub coil : ℕ
  pub tx_seq : ℕ

abbrev pub minus_one : ℤ
minus_one = negsuc 0

abbrev is_off : ℤ → Bool
is_off v = int_eq v (pos 0)

abbrev is_on : ℤ → Bool
is_on v = int_eq v (pos 1)

-- `Oput[2]`; it is left as it was when a coil could not be read.
unfoldable pub coil_byte : ℤ → ℤ → ℤ → ℕ → ℕ
coil_byte v1 v2 v3 old =
    if is_off v3 && is_off v2 && is_off v1
    then 0x00
    else if is_off v3 && is_off v2 && is_on v1
    then 0x01
    else if is_off v3 && is_on v2 && is_off v1
    then 0x02
    else if is_off v3 && is_on v2 && is_on v1
    then 0x03
    else if is_on v3 && is_off v2 && is_off v1
    then 0x04
    else if is_on v3 && is_off v2 && is_on v1
    then 0x05
    else if is_on v3 && is_on v2 && is_off v1
    then 0x06
    else if is_on v3 && is_on v2 && is_on v1
    then 0x07
    else old

unfoldable pub next_seq : ℕ → ℕ
next_seq tx_seq = if tx_seq / 10 == 0x08 then 0x10 else tx_seq + 10

-- The state of the coils goes to the client in charge: three bytes are copied, and three sent.
unfoldable pub report : Inputs → Coils → Machine → Machine
report inputs c m =
    if int_eq inputs.manual (pos 0)
    then (communication_send [] m c.tx_seq 0xDC (0xDC ∷ 0x00 ∷ c.coil ∷ []) 3 1 m.client1).0
    else if int_eq inputs.manual (pos 1)
    then (communication_send [] m c.tx_seq 0xDC (0xDC ∷ 0x00 ∷ c.coil ∷ []) 3 1 m.client2).0
    else m

-- Whether `newIOStatus[i]` was read and differs from `oldIOStatus[i]`.
unfoldable pub changed : ℤ → ℤ → Bool
changed new old = if int_eq new minus_one then false else if int_eq new old then false else true

-- `new` was read where it differs: the coil's old value becomes the new one.
abbrev pub kept : ℤ → ℤ → ℤ
kept new old = if changed new old then new else old

-- The locals once a changed coil is counted, and once the switch is seen to have changed.
abbrev pub counted : Inputs → Coils → Coils
counted inputs c = record c {
  coil = coil_byte inputs.io1 inputs.io2 inputs.io3 c.coil;
  tx_seq = next_seq c.tx_seq;
}

abbrev pub switched : Inputs → Coils → Coils
switched inputs c = record c { manual_old = inputs.manual }

-- One turn of the loop over the coils, but for the store in `oldIOStatus[i]`.
unfoldable pub visit : Inputs → ℤ → ℤ → Machine × Coils → Machine × Coils
unfolding changed report
visit inputs new old (m, c) =
    if changed new old
    then (report inputs (counted inputs c) m, counted inputs c)
    else if int_eq inputs.manual c.manual_old
    then (m, c)
    else (report inputs (switched inputs c) m, switched inputs c)

unfoldable pub visit_all : Inputs → Machine × Coils → Machine × Coils
unfolding visit
visit_all inputs (m, c) =
    let (n, d) =
      visit inputs inputs.io3 c.old3
        (visit inputs inputs.io2 c.old2 (visit inputs inputs.io1 c.old1 (m, c))) in
    (
      n,
      record d {
        old1 = kept inputs.io1 c.old1;
        old2 = kept inputs.io2 c.old2;
        old3 = kept inputs.io3 c.old3;
      },
    )

unfoldable pub vehicle_pass : Inputs → Machine × Coils → Machine × Coils
unfolding visit_all
vehicle_pass inputs (m, c) =
    if m.tcp1.is_open || m.tcp2.is_open
    then visit_all inputs (record m { manual_switch_status = inputs.manual }, c)
    else (m, record c { old1 = minus_one; old2 = minus_one; old3 = minus_one })

unfoldable pub heart_pass : Machine → Machine
heart_pass m =
    if m.tcp1.is_open || m.tcp2.is_open
    then (let n = (communication_send [] m 0x90 0xB0 [] 0 0 m.client1).0 in
        (communication_send [] n 0x90 0xB0 [] 0 0 n.client2).0)
    else m
