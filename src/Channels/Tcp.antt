-- ===== src/Channels/Tcp.antt =====
-- The client of src/Tcp.cpp. What the system calls return is part of the operations.
use imachine_hb_f.Server.{close}
use imachine_hb_f.Prelude.{
  ℕ, zero, suc, ◌+◌, ◌%◌, Bool, true, false, not, ◌||◌, Option, none, some, List, [], ◌∷◌, ltb,
  ◌==◌, if◌then◌else◌,
}
use imachine_hb_f.Prelude.Int.{ℤ, pos, negsuc}

-- The members, with `none` for a `sockfd` of -1; whether the thread of the constructor runs; and, of the
-- process, the descriptors that the channel has opened and not closed, and what it has logged of
-- connections that fail.
pub record TcpClient : Type 0 where
  pub sockfd : Option ℕ
  pub is_open : Bool
  pub connect_len : ℕ
  pub thread_runs : Bool
  pub descriptors : List ℕ
  pub logged : ℕ

-- `close`, also of -1.
abbrev pub close_fd : Option ℕ → List ℕ → List ℕ
close_fd none ds = ds
close_fd (some fd) ds = close fd ds

-- The `unsigned short` that the constructor makes of an `int` (a negative one stands by its two's complement).
abbrev pub port_of : ℕ → ℕ
port_of port = port % 65536

-- The constructor, with the `int` that the caller passes as the port.
unfoldable pub new_client : ℕ → TcpClient
new_client port = record {
  sockfd = none;
  is_open = false;
  connect_len = 0;
  thread_runs = not (port_of port == 0);
  descriptors = [];
  logged = 0;
}

-- A failed `connect`: `ConnectLen` counts the failures, and not all of them are logged.
unfoldable pub connect_failed : ℕ → TcpClient → TcpClient
connect_failed fd c =
    let counted : TcpClient =
      if c.connect_len == 0 || ltb 600 c.connect_len
      then record c { logged = c.logged + 1; connect_len = 0 }
      else c in
    record counted {
      connect_len = counted.connect_len + 1;
      descriptors = close fd counted.descriptors;
    }

unfoldable pub open_socket : ℕ → Bool → TcpClient → TcpClient × Bool
unfolding connect_failed
open_socket fd connects c =
    let made : TcpClient = record c { sockfd = some fd; descriptors = fd ∷ c.descriptors } in
    if connects
    then (record made { is_open = true; connect_len = 0 }, true)
    else (connect_failed fd made, false)

-- `Open`, by the result of `socket` and whether `connect` succeeds.
unfoldable pub tcp_open : Option ℕ → Bool → TcpClient → TcpClient × Bool
unfolding open_socket
tcp_open none connects c = (record c { sockfd = none }, false)
tcp_open (some fd) connects c = open_socket fd connects c

-- `Close`
unfoldable pub tcp_close : TcpClient → TcpClient × Bool
tcp_close c =
    let cancelled : TcpClient = record c { thread_runs = false } in
    (
      (if c.is_open
          then record cancelled { descriptors = close_fd c.sockfd c.descriptors }
          else cancelled),
      true,
    )

-- The destructor
unfoldable pub tcp_delete : TcpClient → TcpClient
unfolding tcp_close
tcp_delete c = if c.is_open then (tcp_close c).0 else c

-- What `Send` and `Recv` do when the server has gone.
unfoldable pub disconnect : TcpClient → TcpClient × ℤ
disconnect c =
    (record c { descriptors = close_fd c.sockfd c.descriptors; is_open = false }, negsuc 0)

-- `Send`, by whether `send` succeeds.
unfoldable pub tcp_send : Bool → TcpClient → TcpClient × ℤ
unfolding disconnect
tcp_send sent c = if c.is_open then (if sent then (c, pos 1) else disconnect c) else (c, pos 0)

unfoldable pub after_recv : ℤ → TcpClient → TcpClient × ℤ
unfolding disconnect
after_recv (pos (suc n)) c = (c, pos (suc n))
after_recv (pos zero) c = disconnect c
after_recv (negsuc n) c = disconnect c

-- `Recv`, by the result of `recv`.
unfoldable pub tcp_recv : ℤ → TcpClient → TcpClient × ℤ
unfolding after_recv
tcp_recv got c = if c.is_open then after_recv got c else (c, negsuc 0)

unfoldable pub after_select : ℤ → ℤ → TcpClient → TcpClient × ℤ
unfolding after_recv
after_select (negsuc n) got c = (c, negsuc 0)
after_select (pos zero) got c = (c, pos 0)
after_select (pos (suc n)) got c = after_recv got c

-- `Recv` with a time, by the results of `select` and of `recv`.
unfoldable pub tcp_recv_within : ℤ → ℤ → TcpClient → TcpClient × ℤ
unfolding after_select
tcp_recv_within ready got c = if c.is_open then after_select ready got c else (c, negsuc 0)

-- A turn of `ConnectThread`.
unfoldable pub connect_turn : Option ℕ → Bool → TcpClient → TcpClient
unfolding tcp_open
connect_turn fd connects c =
    if c.thread_runs then (if c.is_open then c else (tcp_open fd connects c).0) else c

-- The users of a channel: a turn of its thread, with what `socket` and `connect` do; `Send`; and the two
-- of `Recv`.
pub data TcpEvent : Type 0 where
  turns : Option ℕ → Bool → TcpEvent
  sends : Bool → TcpEvent
  receives : ℤ → TcpEvent
  waits : ℤ → ℤ → TcpEvent

unfoldable pub tcp_step : TcpEvent → TcpClient → TcpClient
unfolding connect_turn tcp_send tcp_recv tcp_recv_within
tcp_step (turns fd connects) c = connect_turn fd connects c
tcp_step (sends sent) c = (tcp_send sent c).0
tcp_step (receives got) c = (tcp_recv got c).0
tcp_step (waits ready got) c = (tcp_recv_within ready got c).0

unfoldable pub tcp_run : List TcpEvent → TcpClient → TcpClient
unfolding tcp_step
tcp_run [] c = c
tcp_run (e ∷ es) c = tcp_run es (tcp_step e c)
