-- ===== src/Tests/Channels.antt =====
-- The channels of src/Tcp.cpp, src/Udp.cpp and src/CommManage.cpp, run.
use imachine_hb_f.Channels.Manage.{Attempt, Leaves, creat_comm, creat_comm-Leaves}
use imachine_hb_f.Channels.Retries.{failures, held, tcp_run-held}
use imachine_hb_f.Channels.Tcp.{
  new_client, tcp_open, tcp_delete, TcpEvent, turns, sends, receives, tcp_run, tcp_step,
  connect_turn, open_socket, connect_failed,
}
use imachine_hb_f.Channels.Udp.{
  new_udp, udp_open, udp_close, install, UdpEvent, opens, closes, udp_step, udp_run,
}
use imachine_hb_f.Prelude.Int.{pos}
use imachine_hb_f.Prelude.{ℕ, ◌≡◌, refl, true, false, some, none, List, [], ◌∷◌}

-- The server answers at the second try, and goes at the second message.
abbrev hangs_up : List TcpEvent
hangs_up = turns (some 7) true ∷ sends true ∷ receives (pos 3) ∷ receives (pos 0) ∷ []

tcp_run-held_example :
    ((tcp_run hangs_up (tcp_open (some 6) false (new_client 5000)).0).descriptors
      ≡ held (tcp_run hangs_up (tcp_open (some 6) false (new_client 5000)).0))
    × ((tcp_delete (tcp_run hangs_up (tcp_open (some 6) false (new_client 5000)).0)).descriptors
        ≡ [])
tcp_run-held_example = tcp_run-held 5000 (some 6) false hangs_up

abbrev three_tries : List ℕ
three_tries = 6 ∷ 6 ∷ 8 ∷ []

one_line : (tcp_run (failures three_tries) (new_client 5000)).logged ≡ 1
unfolding tcp_run tcp_step connect_turn tcp_open open_socket connect_failed new_client
one_line = refl

abbrev three_opens : List UdpEvent
three_opens = opens (some 4) ∷ closes ∷ opens (some 5) ∷ opens (some 6) ∷ closes ∷ []

-- The number that sockfd held is closed, and nothing else.
nothing_closed :
    (udp_run three_opens (new_udp (some 2) (2 ∷ 1 ∷ []))).descriptors ≡ 6 ∷ 5 ∷ 4 ∷ 1 ∷ []
unfolding udp_run udp_step udp_open udp_close install new_udp
nothing_closed = refl

abbrev no_answer : Attempt
no_answer = record { fd = some 6; accepted = false; unset = none }

creat_comm-Leaves_example : Leaves (some 6) true (creat_comm no_answer 1 5000)
creat_comm-Leaves_example = creat_comm-Leaves no_answer 1 5000
