-- ===== src/Channels/Display.antt =====
-- `DisplayInit` and `DisplayExit` of src/QYLED.cpp: the channel of the display and its thread.
use imachine_hb_f.Channels.Manage.{
  Channel, serial, tcp, Attempt, Created, creat_comm, created_serial, created_tcp, left_open,
}
use imachine_hb_f.Channels.Tcp.{new_client, tcp_open, open_socket, tcp_close, tcp_delete}
use imachine_hb_f.Channels.Uart.{new_port, serial_open, configure, serial_close}
use imachine_hb_f.Klist.{Node}
use imachine_hb_f.Prelude.{
  ℕ, Bool, Bool-cases, inl, inr, true, false, Option, none, some, List, [], ◌==◌, ==_refl, ◌≡◌,
  refl, if◌then◌else◌,
}

-- `comm`, `ledList`, and whether the thread of `DisplayThread` has been started.
pub record Display : Type 0 where
  pub comm : Option Channel
  pub led_list : Option (List Node)
  pub thread_runs : Bool

unfoldable pub after_creat : Created → Display → Display × Bool
after_creat c d =
    if c.deleted
    then (record d { comm = none }, false)
    else (record d { comm = some c.channel; thread_runs = true }, true)

-- `DisplayInit`, whose two branches call `CreatComm` alike.
unfoldable pub display_init : Attempt → ℕ → ℕ → Display → Display × Bool
unfolding creat_comm after_creat
display_init a n_type port d = after_creat (creat_comm a n_type port) d

-- `delete comm`
unfoldable pub delete_channel : Channel → Channel
unfolding serial_close tcp_delete
delete_channel (serial p) = serial (serial_close p)
delete_channel (tcp c) = tcp (tcp_delete c)

unfoldable pub delete_comm : Option Channel → List ℕ
unfolding delete_channel
delete_comm none = []
delete_comm (some c) = left_open (delete_channel c)

-- `DisplayExit`, with the descriptors that the deleted channel leaves open.
unfoldable pub display_exit : Display → Display × List ℕ
unfolding delete_comm
display_exit d = (record d { comm = none; led_list = none }, delete_comm d.comm)

-- What is left after `DisplayInit` and `DisplayExit`.
abbrev Left : Display × Bool → Type 0
Left (d, ok) = (delete_comm d.comm ≡ []) × (d.thread_runs ≡ ok)

created_serial-Left :
    (fd : Option ℕ) (accepted : Bool) (unset : Option ℕ) (rate : ℕ) (l : Option (List Node))
    → Left (
        after_creat
          (created_serial (serial_open fd accepted (new_port unset rate)))
          (record { comm = none; led_list = l; thread_runs = false }))
unfolding after_creat created_serial serial_open serial_close configure new_port delete_comm
    delete_channel
created_serial-Left none accepted unset rate l = (refl, refl)
created_serial-Left (some f) true unset rate l = rw (==_refl f) (refl, refl)
created_serial-Left (some f) false unset rate l = (refl, refl)

created_tcp-Left :
    (fd : Option ℕ) (accepted : Bool) (port : ℕ) (l : Option (List Node))
    → Left (
        after_creat
          (created_tcp (tcp_open fd accepted (new_client port)))
          (record { comm = none; led_list = l; thread_runs = false }))
unfolding after_creat created_tcp tcp_open open_socket tcp_close tcp_delete new_client delete_comm
    delete_channel
created_tcp-Left none accepted port l = (refl, refl)
created_tcp-Left (some f) true port l = rw (==_refl f) (refl, refl)
created_tcp-Left (some f) false port l = (refl, refl)

-- From a display without a channel and a thread: after DisplayInit, whether it succeeds or not, and
-- DisplayExit, no descriptor is open and both pointers are NULL; but the thread, which uses them, goes on
-- whenever DisplayInit has succeeded.
pub display_exit-display_init :
    (a : Attempt) (n_type port : ℕ) (l : Option (List Node))
    → let d : Display = record { comm = none; led_list = l; thread_runs = false } in
      let e = display_exit (display_init a n_type port d).0 in
      (e.1 ≡ [])
      × (e.0
          ≡ record { comm = none; led_list = none; thread_runs = (display_init a n_type port d).1 })
unfolding display_exit display_init creat_comm
display_exit-display_init a n_type port l = elim (Bool-cases (n_type == 0)) [
  | inl e ↦
      (let (p, q) = created_serial-Left a.fd a.accepted a.unset port l in
        rw e (p, λ i. record { comm = none; led_list = none; thread_runs = q i }))
  | inr e ↦
      (let (p, q) = created_tcp-Left a.fd a.accepted port l in
        rw e (p, λ i. record { comm = none; led_list = none; thread_runs = q i }))
]
