-- ===== src/Server/Pieces.antt =====
-- Each piece of the two threads of src/TcpServer.cpp and src/IMachine.cpp, from the states of Server/Sound.antt.
use imachine_hb_f.Server.{
  outside, receiving, hung_up, dropping, Server, mark_closed, close_newfd, accepts,
  accepter_goes_on, receiver_goes_on, hangs_up, server_step,
}
use imachine_hb_f.Server.Sound.{
  StoresOn, DropsOn, IsSound, idle_closed, idle_open, idle_drops, got_closed, got_open, got_drops,
  marking_open, marking_drops, marking_closed, closing_held, closing_drops, closing_gone,
  ready_late, ready_drops, ready_quiet, stored, other,
}
use imachine_hb_f.Prelude.{ℕ, inl, inr, Bool-cases, ◌==◌, ==_refl, arith}

pub accepts-IsSound :
    (new : ℕ) (s : Server)
    → IsSound s
    → StoresOn (accepts new) s.acceptor
    → DropsOn (accepts new) s.receiver
    → IsSound (server_step (accepts new) s)
unfolding server_step
accepts-IsSound new _ (idle_closed n) p q = got_closed n new
accepts-IsSound new _ (idle_open n r c) p q = elim (Bool-cases (n == new)) [
  | inl e ↦ rw e (idle_open n r c)
  | inr e ↦ rw e (got_open n new r c (ground (arith, e)))
]
accepts-IsSound new _ (idle_drops n) p q = absurd q
accepts-IsSound new _ (got_closed n fd) p q = got_closed n fd
accepts-IsSound new _ (got_open n fd r c h) p q = got_open n fd r c h
accepts-IsSound new _ (got_drops n fd h) p q = absurd q
accepts-IsSound new _ (marking_open n fd r c h) p q = marking_open n fd r c h
accepts-IsSound new _ (marking_drops n fd h) p q = absurd q
accepts-IsSound new _ (marking_closed n fd h) p q = marking_closed n fd h
accepts-IsSound new _ (closing_held n fd r c h) p q = closing_held n fd r c h
accepts-IsSound new _ (closing_drops n fd h) p q = absurd q
accepts-IsSound new _ (closing_gone n fd h) p q = closing_gone n fd h
accepts-IsSound new _ (ready_late n fd r c h) p q = ready_late n fd r c h
accepts-IsSound new _ (ready_drops n fd h) p q = absurd q
accepts-IsSound new _ (ready_quiet n fd) p q = ready_quiet n fd
accepts-IsSound new _ (stored fd r c) p q = absurd p

pub accepter-IsSound :
    (s : Server)
    → IsSound s
    → DropsOn accepter_goes_on s.receiver
    → IsSound (server_step accepter_goes_on s)
unfolding server_step mark_closed close_newfd
accepter-IsSound _ (idle_closed n) q = idle_closed n
accepter-IsSound _ (idle_open n r c) q = idle_open n r c
accepter-IsSound _ (idle_drops n) q = absurd q
accepter-IsSound _ (got_closed n fd) q = ready_quiet n fd
accepter-IsSound _ (got_open n fd r c h) q = marking_open n fd r c h
accepter-IsSound _ (got_drops n fd h) q = absurd q
accepter-IsSound _ (marking_open n fd r c h) q = closing_held n fd r c h
accepter-IsSound _ (marking_drops n fd h) q = absurd q
accepter-IsSound _ (marking_closed n fd h) q = closing_gone n fd h
accepter-IsSound _ (closing_held n fd r c h) q =
    rw (other fd n h, ==_refl n) (ready_late n fd r c h)
accepter-IsSound _ (closing_drops n fd h) q = absurd q
accepter-IsSound _ (closing_gone n fd h) q = rw (other fd n h) (ready_late n fd outside tt h)
accepter-IsSound _ (ready_late n fd r c h) q = stored fd r c
accepter-IsSound _ (ready_drops n fd h) q = absurd q
accepter-IsSound _ (ready_quiet n fd) q = stored fd outside tt
accepter-IsSound _ (stored fd r c) q = idle_open fd r c

pub receiver-IsSound :
    (s : Server)
    → IsSound s
    → StoresOn receiver_goes_on s.acceptor
    → IsSound (server_step receiver_goes_on s)
unfolding server_step mark_closed close_newfd
receiver-IsSound _ (idle_closed n) p = idle_closed n
receiver-IsSound _ (idle_open n outside c) p = idle_open n receiving tt
receiver-IsSound _ (idle_open n receiving c) p = idle_open n receiving tt
receiver-IsSound _ (idle_open n hung_up c) p = idle_drops n
receiver-IsSound _ (idle_open n dropping c) p = absurd c
receiver-IsSound _ (idle_drops n) p = rw (==_refl n) (idle_closed n)
receiver-IsSound _ (got_closed n fd) p = got_closed n fd
receiver-IsSound _ (got_open n fd outside c h) p = got_open n fd receiving tt h
receiver-IsSound _ (got_open n fd receiving c h) p = got_open n fd receiving tt h
receiver-IsSound _ (got_open n fd hung_up c h) p = got_drops n fd h
receiver-IsSound _ (got_open n fd dropping c h) p = absurd c
receiver-IsSound _ (got_drops n fd h) p = rw (other fd n h, ==_refl n) (got_closed n fd)
receiver-IsSound _ (marking_open n fd outside c h) p = marking_open n fd receiving tt h
receiver-IsSound _ (marking_open n fd receiving c h) p = marking_open n fd receiving tt h
receiver-IsSound _ (marking_open n fd hung_up c h) p = marking_drops n fd h
receiver-IsSound _ (marking_open n fd dropping c h) p = absurd c
receiver-IsSound _ (marking_drops n fd h) p = rw (other fd n h, ==_refl n) (marking_closed n fd h)
receiver-IsSound _ (marking_closed n fd h) p = marking_closed n fd h
receiver-IsSound _ (closing_held n fd outside c h) p = closing_held n fd outside tt h
receiver-IsSound _ (closing_held n fd receiving c h) p = closing_held n fd receiving tt h
receiver-IsSound _ (closing_held n fd hung_up c h) p = closing_drops n fd h
receiver-IsSound _ (closing_held n fd dropping c h) p = absurd c
receiver-IsSound _ (closing_drops n fd h) p = rw (other fd n h, ==_refl n) (closing_gone n fd h)
receiver-IsSound _ (closing_gone n fd h) p = closing_gone n fd h
receiver-IsSound _ (ready_late n fd outside c h) p = ready_late n fd outside tt h
receiver-IsSound _ (ready_late n fd receiving c h) p = ready_late n fd receiving tt h
receiver-IsSound _ (ready_late n fd hung_up c h) p = ready_drops n fd h
receiver-IsSound _ (ready_late n fd dropping c h) p = absurd c
receiver-IsSound _ (ready_drops n fd h) p = rw (other fd n h) (ready_quiet n fd)
receiver-IsSound _ (ready_quiet n fd) p = ready_quiet n fd
receiver-IsSound _ (stored fd r c) p = absurd p

pub hangs_up-IsSound :
    (s : Server)
    → IsSound s
    → StoresOn hangs_up s.acceptor
    → DropsOn hangs_up s.receiver
    → IsSound (server_step hangs_up s)
unfolding server_step
hangs_up-IsSound _ (idle_closed n) p q = idle_closed n
hangs_up-IsSound _ (idle_open n outside c) p q = idle_open n outside tt
hangs_up-IsSound _ (idle_open n receiving c) p q = idle_open n hung_up tt
hangs_up-IsSound _ (idle_open n hung_up c) p q = idle_open n hung_up tt
hangs_up-IsSound _ (idle_open n dropping c) p q = absurd c
hangs_up-IsSound _ (idle_drops n) p q = absurd q
hangs_up-IsSound _ (got_closed n fd) p q = got_closed n fd
hangs_up-IsSound _ (got_open n fd outside c h) p q = got_open n fd outside tt h
hangs_up-IsSound _ (got_open n fd receiving c h) p q = got_open n fd hung_up tt h
hangs_up-IsSound _ (got_open n fd hung_up c h) p q = got_open n fd hung_up tt h
hangs_up-IsSound _ (got_open n fd dropping c h) p q = absurd c
hangs_up-IsSound _ (got_drops n fd h) p q = absurd q
hangs_up-IsSound _ (marking_open n fd outside c h) p q = marking_open n fd outside tt h
hangs_up-IsSound _ (marking_open n fd receiving c h) p q = marking_open n fd hung_up tt h
hangs_up-IsSound _ (marking_open n fd hung_up c h) p q = marking_open n fd hung_up tt h
hangs_up-IsSound _ (marking_open n fd dropping c h) p q = absurd c
hangs_up-IsSound _ (marking_drops n fd h) p q = absurd q
hangs_up-IsSound _ (marking_closed n fd h) p q = marking_closed n fd h
hangs_up-IsSound _ (closing_held n fd outside c h) p q = closing_held n fd outside tt h
hangs_up-IsSound _ (closing_held n fd receiving c h) p q = closing_held n fd hung_up tt h
hangs_up-IsSound _ (closing_held n fd hung_up c h) p q = closing_held n fd hung_up tt h
hangs_up-IsSound _ (closing_held n fd dropping c h) p q = absurd c
hangs_up-IsSound _ (closing_drops n fd h) p q = absurd q
hangs_up-IsSound _ (closing_gone n fd h) p q = closing_gone n fd h
hangs_up-IsSound _ (ready_late n fd outside c h) p q = ready_late n fd outside tt h
hangs_up-IsSound _ (ready_late n fd receiving c h) p q = ready_late n fd hung_up tt h
hangs_up-IsSound _ (ready_late n fd hung_up c h) p q = ready_late n fd hung_up tt h
hangs_up-IsSound _ (ready_late n fd dropping c h) p q = absurd c
hangs_up-IsSound _ (ready_drops n fd h) p q = absurd q
hangs_up-IsSound _ (ready_quiet n fd) p q = ready_quiet n fd
hangs_up-IsSound _ (stored fd r c) p q = absurd p
