-- ===== src/Channels/Manage.antt =====
-- `CreatComm` of src/CommManage.cpp, which opens a channel. What the system calls return is a parameter.
use imachine_hb_f.Channels.Tcp.{
  TcpClient, new_client, connect_failed, open_socket, tcp_open, tcp_delete,
}
use imachine_hb_f.Channels.Uart.{SerialPort, new_port, configure, serial_open, serial_close}
use imachine_hb_f.Prelude.{
  ℕ, ◌%◌, ◌&&◌, not, Bool, true, false, Option, none, some, List, [], ◌∷◌, ◌==◌, if◌then◌else◌, ◌≡◌,
  refl, ==_refl, Bool-cases, inl, inr,
}

pub data Channel : Type 0 where
  serial : SerialPort → Channel
  tcp : TcpClient → Channel

-- What `open` or `socket` returns; whether the attributes are accepted, or the server answers; and what
-- the member `fd` of a new port holds.
pub record Attempt : Type 0 where
  pub fd : Option ℕ
  pub accepted : Bool
  pub unset : Option ℕ

-- The channel, and whether it has been deleted: then NULL is returned.
pub record Created : Type 0 where
  pub channel : Channel
  pub deleted : Bool

unfoldable pub created_serial : SerialPort × Bool → Created
unfolding serial_close
created_serial (p, true) = record { channel = serial p; deleted = false }
created_serial (p, false) = record { channel = serial (serial_close p); deleted = true }

unfoldable pub created_tcp : TcpClient × Bool → Created
unfolding tcp_delete
created_tcp (c, true) = record { channel = tcp c; deleted = false }
created_tcp (c, false) = record { channel = tcp (tcp_delete c); deleted = true }

unfoldable pub creat_comm : Attempt → ℕ → ℕ → Created
unfolding created_serial created_tcp new_port new_client serial_open tcp_open
creat_comm a n_type port =
    if n_type == 0
    then created_serial (serial_open a.fd a.accepted (new_port a.unset port))
    else created_tcp (tcp_open a.fd a.accepted (new_client port))

abbrev pub left_open : Channel → List ℕ
left_open (serial p) = p.descriptors
left_open (tcp c) = c.descriptors

abbrev pub left_running : Channel → Bool
left_running (serial p) = false
left_running (tcp c) = c.thread_runs

abbrev pub own : Option ℕ → List ℕ
own none = []
own (some fd) = fd ∷ []

-- What is left of a channel: when it is deleted nothing is open, and its thread goes on or not; else it
-- has the descriptor that was opened for it.
abbrev Left : Option ℕ → Bool → Channel → Bool → Type 0
Left fd runs c true = (left_open c ≡ []) × (left_running c ≡ runs)
Left fd runs c false = left_open c ≡ own fd

abbrev pub Leaves : Option ℕ → Bool → Created → Type 0
Leaves fd runs c = Left fd runs c.channel c.deleted

created_serial-Leaves :
    (fd : Option ℕ) (accepted : Bool) (unset : Option ℕ) (rate : ℕ)
    → Leaves fd false (created_serial (serial_open fd accepted (new_port unset rate)))
unfolding created_serial serial_open serial_close configure new_port
created_serial-Leaves none accepted unset rate = (refl, refl)
created_serial-Leaves (some f) true unset rate = refl
created_serial-Leaves (some f) false unset rate = rw (==_refl f) (refl, refl)

created_tcp-Leaves :
    (fd : Option ℕ) (accepted : Bool) (port : ℕ)
    → Leaves fd (not (port % 65536 == 0)) (created_tcp (tcp_open fd accepted (new_client port)))
unfolding created_tcp tcp_open open_socket connect_failed tcp_delete new_client
created_tcp-Leaves none accepted port = (refl, refl)
created_tcp-Leaves (some f) true port = refl
created_tcp-Leaves (some f) false port = rw (==_refl f) (refl, refl)

-- When CreatComm returns NULL, the deleted channel has left no descriptor open; but for a client whose port
-- is not a multiple of 65536, which is 0 as an unsigned short, the connecting thread goes on and uses the
-- deleted object. Otherwise the channel has the descriptor that was opened for it.
pub creat_comm-Leaves :
    (a : Attempt) (n_type port : ℕ)
    → Leaves a.fd (not (n_type == 0) && not (port % 65536 == 0)) (creat_comm a n_type port)
unfolding creat_comm
creat_comm-Leaves a n_type port = elim (Bool-cases (n_type == 0)) [
  | inl e ↦ rw e (created_serial-Leaves a.fd a.accepted a.unset port)
  | inr e ↦ rw e (created_tcp-Leaves a.fd a.accepted port)
]
