-- ===== src/Tests/Server.antt =====
-- A second client takes the place of the first.
use imachine_hb_f.Prelude.{◌≡◌, refl, true, false, List, [], ◌∷◌, ◌++◌, arith}
use imachine_hb_f.Server.{
  ServerEvent, accepts, accepter_goes_on, receiver_goes_on, hangs_up, waiting, outside, server_run,
  server_step, mark_closed, close_newfd, new_server,
}
use imachine_hb_f.Server.Descriptors.{connected, server_run-descriptors}
use imachine_hb_f.Server.Sound.{Unbroken}

-- The test of `isOpen` and the two stores, for a first client, from whom the loop then receives.
abbrev first_client : List ServerEvent
first_client =
    accepts 5 ∷ accepter_goes_on ∷ accepter_goes_on ∷ accepter_goes_on ∷ receiver_goes_on ∷ []

-- The first connection is shut down, and the loop has not noticed when the second is in place.
abbrev second_client : List ServerEvent
second_client =
    first_client
    ++ (accepts 6
        ∷ accepter_goes_on
        ∷ accepter_goes_on
        ∷ hangs_up
        ∷ accepter_goes_on
        ∷ accepter_goes_on
        ∷ accepter_goes_on
        ∷ [])

second_client-Unbroken : Unbroken second_client (new_server 0)
unfolding server_step mark_closed close_newfd
second_client-Unbroken = omega arith

second_open : (server_run second_client (new_server 0)).descriptors ≡ 6 ∷ []
unfolding server_run server_step mark_closed close_newfd
second_open = refl

server_run-descriptors_example :
    (server_run second_client (new_server 0)).descriptors
    ≡ connected (server_run second_client (new_server 0))
unfolding server_run server_step mark_closed close_newfd
server_run-descriptors_example = server_run-descriptors second_client 0 second_client-Unbroken tt tt

-- The loop that received from the first client closes the connection of the second.
second_closed :
    server_run (second_client ++ (receiver_goes_on ∷ receiver_goes_on ∷ [])) (new_server 0)
    ≡ record {
      is_open = false;
      newfd = 6;
      descriptors = [];
      acceptor = waiting;
      receiver = outside;
    }
unfolding server_run server_step mark_closed close_newfd
second_closed = refl

-- The loop has stored false to `isOpen` when a second client comes and is put in place; then it closes that one,
-- and the first stays open for ever.
abbrev torn_close : List ServerEvent
torn_close =
    first_client
    ++ (hangs_up
        ∷ receiver_goes_on
        ∷ accepts 6
        ∷ accepter_goes_on
        ∷ accepter_goes_on
        ∷ accepter_goes_on
        ∷ receiver_goes_on
        ∷ [])

first_lost : server_run torn_close (new_server 0) ≡ record {
  is_open = true;
  newfd = 6;
  descriptors = 5 ∷ [];
  acceptor = waiting;
  receiver = outside;
}
unfolding server_run server_step mark_closed close_newfd
first_lost = refl
