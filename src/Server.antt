-- ===== src/Server.antt =====
-- The connections of src/TcpServer.cpp: the thread that accepts clients, in the pieces between which the
-- receiving loop of src/IMachine.cpp can run, and what that loop does to the connection.
pub mod Sound
pub mod Pieces
pub mod Descriptors
pub mod Listen
use imachine_hb_f.Prelude.{ℕ, Bool, true, false, ◌||◌, List, [], ◌∷◌, ◌==◌, if◌then◌else◌}

-- Where the thread of `Accept` is: before `accept`, behind it with the new descriptor, in `Close` in front of
-- `isOpen = false` or in front of `close`, in front of `newfd = new_fd`, or in front of `isOpen = true`.
pub data Acceptor : Type 0 where
  waiting : Acceptor
  got marking closing ready storing : ℕ → Acceptor

-- Where the receiving loop is: outside of `ReceiveCmd1`, in `RecvByte`, or behind it with a result that
-- is not positive, in `Close` in front of `isOpen = false` or in front of `close`.
pub data Receiver : Type 0 where
  outside receiving hung_up dropping : Receiver

-- `isOpen` and `newfd`, the descriptors of clients that the process holds open, and the two threads.
pub record Server : Type 0 where
  pub is_open : Bool
  pub newfd : ℕ
  pub descriptors : List ℕ
  pub acceptor : Acceptor
  pub receiver : Receiver

abbrev pub holds : ℕ → List ℕ → Bool
holds fd [] = false
holds fd (d ∷ ds) = (d == fd) || holds fd ds

-- `close`, of a descriptor that is open or not.
abbrev pub close : ℕ → List ℕ → List ℕ
close fd [] = []
close fd (d ∷ ds) = if d == fd then ds else d ∷ close fd ds

-- `Close` has two pieces, by whichever thread: the store to `isOpen`, and `close` of what `newfd` holds by then.
-- The `shutdown` between them leaves what is kept here as it is.
unfoldable pub mark_closed : Server → Server
mark_closed s = record s { is_open = false }

unfoldable pub close_newfd : Server → Server
close_newfd s = record s { descriptors = close s.newfd s.descriptors }

-- `accept` gives a descriptor that is not in use.
abbrev pub accept_at : ℕ → Acceptor → Server → Server
accept_at fd waiting s =
    if holds fd s.descriptors
    then s
    else record s { descriptors = fd ∷ s.descriptors; acceptor = got fd }
accept_at fd other s = s

-- A piece of `Accept` behind `accept`: the test of `isOpen`, the two of `Close`, and the two stores.
abbrev pub accept_next : Acceptor → Server → Server
accept_next waiting s = s
accept_next (got fd) s = record s { acceptor = if s.is_open then marking fd else ready fd }
accept_next (marking fd) s = record (mark_closed s) { acceptor = closing fd }
accept_next (closing fd) s = record (close_newfd s) { acceptor = ready fd }
accept_next (ready fd) s = record s { newfd = fd; acceptor = storing fd }
accept_next (storing fd) s = record s { is_open = true; acceptor = waiting }

-- A piece of the receiving loop: the test of `isOpen` outside, and the two of `Close` behind `RecvByte`.
abbrev pub receive_next : Receiver → Server → Server
receive_next outside s = if s.is_open then record s { receiver = receiving } else s
receive_next receiving s = s
receive_next hung_up s = record (mark_closed s) { receiver = dropping }
receive_next dropping s = record (close_newfd s) { receiver = outside }

-- `RecvByte` returns.
abbrev pub hang_up_at : Receiver → Server → Server
hang_up_at receiving s = record s { receiver = hung_up }
hang_up_at other s = s

-- A piece of a thread; one that is not due changes nothing. `accepts` has the descriptor that the system
-- gives. `hangs_up`: `recv` returns 0 or less, because the client has gone or the socket is shut down.
pub data ServerEvent : Type 0 where
  accepts : ℕ → ServerEvent
  accepter_goes_on receiver_goes_on hangs_up : ServerEvent

unfoldable pub server_step : ServerEvent → Server → Server
unfolding mark_closed close_newfd
server_step (accepts fd) s = accept_at fd s.acceptor s
server_step accepter_goes_on s = accept_next s.acceptor s
server_step receiver_goes_on s = receive_next s.receiver s
server_step hangs_up s = hang_up_at s.receiver s

unfoldable pub server_run : List ServerEvent → Server → Server
unfolding server_step
server_run [] s = s
server_run (e ∷ es) s = server_run es (server_step e s)

-- After the constructor, whatever `newfd` holds.
abbrev pub new_server : ℕ → Server
new_server n = record {
  is_open = false;
  newfd = n;
  descriptors = [];
  acceptor = waiting;
  receiver = outside;
}
