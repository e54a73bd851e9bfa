-- ===== src/Server/Descriptors.antt =====
-- The descriptors of src/TcpServer.cpp, over the orders in which its two threads can run.
use imachine_hb_f.Server.{
  Acceptor, waiting, Server, ServerEvent, accepts, accepter_goes_on, receiver_goes_on, hangs_up,
  server_step, server_run, new_server,
}
use imachine_hb_f.Server.Pieces.{
  accepts-IsSound, accepter-IsSound, receiver-IsSound, hangs_up-IsSound,
}
use imachine_hb_f.Server.Sound.{
  IsCalm, StoresOn, DropsOn, Unbroken, IsSound, idle_closed, idle_open, idle_drops, got_closed,
  got_open, got_drops, marking_open, marking_drops, marking_closed, closing_held, closing_drops,
  closing_gone, ready_late, ready_drops, ready_quiet, stored,
}
use imachine_hb_f.Prelude.{ℕ, ◌≡◌, refl, List, [], ◌∷◌, if◌then◌else◌}

server_step-IsSound :
    (e : ServerEvent) (s : Server)
    → IsSound s
    → StoresOn e s.acceptor
    → DropsOn e s.receiver
    → IsSound (server_step e s)
server_step-IsSound (accepts fd) s h p q = accepts-IsSound fd s h p q
server_step-IsSound accepter_goes_on s h p q = accepter-IsSound s h q
server_step-IsSound receiver_goes_on s h p q = receiver-IsSound s h p
server_step-IsSound hangs_up s h p q = hangs_up-IsSound s h p q

server_run-IsSound :
    (es : List ServerEvent) (s : Server) → IsSound s → Unbroken es s → IsSound (server_run es s)
unfolding server_run
server_run-IsSound [] s h u = h
server_run-IsSound (e ∷ es) s h (p, q, u) =
    server_run-IsSound es (server_step e s) (server_step-IsSound e s h p q) u

-- The client of the connection.
abbrev pub connected : Server → List ℕ
connected s = if s.is_open then s.newfd ∷ [] else []

-- The accepting thread waits for a client.
abbrev pub IsWaiting : Acceptor → Type 0
IsWaiting waiting = Unit {0}
IsWaiting other = ⊥

IsSound-descriptors :
    (s : Server)
    → IsSound s
    → IsWaiting s.acceptor
    → IsCalm s.receiver
    → s.descriptors ≡ connected s
IsSound-descriptors _ (idle_closed n) a b = refl
IsSound-descriptors _ (idle_open n r c) a b = refl
IsSound-descriptors _ (idle_drops n) a b = absurd b
IsSound-descriptors _ (got_closed n fd) a b = absurd a
IsSound-descriptors _ (got_open n fd r c h) a b = absurd a
IsSound-descriptors _ (got_drops n fd h) a b = absurd a
IsSound-descriptors _ (marking_open n fd r c h) a b = absurd a
IsSound-descriptors _ (marking_drops n fd h) a b = absurd a
IsSound-descriptors _ (marking_closed n fd h) a b = absurd a
IsSound-descriptors _ (closing_held n fd r c h) a b = absurd a
IsSound-descriptors _ (closing_drops n fd h) a b = absurd a
IsSound-descriptors _ (closing_gone n fd h) a b = absurd a
IsSound-descriptors _ (ready_late n fd r c h) a b = absurd a
IsSound-descriptors _ (ready_drops n fd h) a b = absurd a
IsSound-descriptors _ (ready_quiet n fd) a b = absurd a
IsSound-descriptors _ (stored fd r c) a b = absurd a

-- From a new server on, in every order of the pieces of the two threads in which nothing comes between the
-- accepting thread's stores to newfd and isOpen, nor between the receiving loop's isOpen = false and close:
-- whenever the accepting thread waits for a client and the receiving loop is not in Close, the descriptors of
-- clients that are open are newfd alone if isOpen is true, and none otherwise.
pub server_run-descriptors :
    (es : List ServerEvent) (n : ℕ)
    → Unbroken es (new_server n)
    → IsWaiting (server_run es (new_server n)).acceptor
    → IsCalm (server_run es (new_server n)).receiver
    → (server_run es (new_server n)).descriptors ≡ connected (server_run es (new_server n))
server_run-descriptors es n u a b =
    IsSound-descriptors (server_run es (new_server n))
      (server_run-IsSound es (new_server n) (idle_closed n) u) a b
