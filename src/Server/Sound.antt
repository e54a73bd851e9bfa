-- ===== src/Server/Sound.antt =====
-- The states of the two threads of src/TcpServer.cpp and src/IMachine.cpp and of their descriptors, in the orders
-- that do not break up the stores.
use imachine_hb_f.Server.{
  Acceptor, waiting, got, marking, closing, ready, storing, Receiver, outside, receiving, hung_up,
  dropping, Server, ServerEvent, accepts, accepter_goes_on, receiver_goes_on, hangs_up, server_step,
}
use imachine_hb_f.Prelude.{ℕ, ◌≡◌, ◌≢◌, true, false, List, [], ◌∷◌, ◌==◌, arith}

-- Not between the two pieces of `Close`.
abbrev pub IsCalm : Receiver → Type 0
IsCalm outside = Unit {0}
IsCalm receiving = Unit {0}
IsCalm hung_up = Unit {0}
IsCalm dropping = ⊥

-- Between the two stores of the accepting thread no other piece runs, and none between the two of `Close` in
-- the receiving loop.
abbrev pub StoresOn : ServerEvent → Acceptor → Type 0
StoresOn accepter_goes_on a = Unit {0}
StoresOn (accepts fd) (storing fd') = ⊥
StoresOn receiver_goes_on (storing fd) = ⊥
StoresOn hangs_up (storing fd) = ⊥
StoresOn e a = Unit {0}

abbrev pub DropsOn : ServerEvent → Receiver → Type 0
DropsOn receiver_goes_on r = Unit {0}
DropsOn (accepts fd) dropping = ⊥
DropsOn accepter_goes_on dropping = ⊥
DropsOn hangs_up dropping = ⊥
DropsOn e r = Unit {0}

abbrev pub Unbroken : List ServerEvent → Server → Type 0
Unbroken [] s = Unit {0}
Unbroken (e ∷ es) s = StoresOn e s.acceptor × DropsOn e s.receiver × Unbroken es (server_step e s)

pub data IsSound : Server → Type 0 where
  idle_closed :
      (n : ℕ)
      → IsSound (record {
        is_open = false;
        newfd = n;
        descriptors = [];
        acceptor = waiting;
        receiver = outside;
      })
  idle_open :
      (n : ℕ) (r : Receiver)
      → IsCalm r
      → IsSound (record {
        is_open = true;
        newfd = n;
        descriptors = n ∷ [];
        acceptor = waiting;
        receiver = r;
      })
  idle_drops :
      (n : ℕ)
      → IsSound (record {
        is_open = false;
        newfd = n;
        descriptors = n ∷ [];
        acceptor = waiting;
        receiver = dropping;
      })
  got_closed :
      (n fd : ℕ)
      → IsSound (record {
        is_open = false;
        newfd = n;
        descriptors = fd ∷ [];
        acceptor = got fd;
        receiver = outside;
      })
  got_open :
      (n fd : ℕ) (r : Receiver)
      → IsCalm r
      → fd ≢ n
      → IsSound (record {
        is_open = true;
        newfd = n;
        descriptors = fd ∷ n ∷ [];
        acceptor = got fd;
        receiver = r;
      })
  got_drops :
      (n fd : ℕ)
      → fd ≢ n
      → IsSound (record {
        is_open = false;
        newfd = n;
        descriptors = fd ∷ n ∷ [];
        acceptor = got fd;
        receiver = dropping;
      })
  marking_open :
      (n fd : ℕ) (r : Receiver)
      → IsCalm r
      → fd ≢ n
      → IsSound (record {
        is_open = true;
        newfd = n;
        descriptors = fd ∷ n ∷ [];
        acceptor = marking fd;
        receiver = r;
      })
  marking_drops :
      (n fd : ℕ)
      → fd ≢ n
      → IsSound (record {
        is_open = false;
        newfd = n;
        descriptors = fd ∷ n ∷ [];
        acceptor = marking fd;
        receiver = dropping;
      })
  marking_closed :
      (n fd : ℕ)
      → fd ≢ n
      → IsSound (record {
        is_open = false;
        newfd = n;
        descriptors = fd ∷ [];
        acceptor = marking fd;
        receiver = outside;
      })
  closing_held :
      (n fd : ℕ) (r : Receiver)
      → IsCalm r
      → fd ≢ n
      → IsSound (record {
        is_open = false;
        newfd = n;
        descriptors = fd ∷ n ∷ [];
        acceptor = closing fd;
        receiver = r;
      })
  closing_drops :
      (n fd : ℕ)
      → fd ≢ n
      → IsSound (record {
        is_open = false;
        newfd = n;
        descriptors = fd ∷ n ∷ [];
        acceptor = closing fd;
        receiver = dropping;
      })
  closing_gone :
      (n fd : ℕ)
      → fd ≢ n
      → IsSound (record {
        is_open = false;
        newfd = n;
        descriptors = fd ∷ [];
        acceptor = closing fd;
        receiver = outside;
      })
  ready_late :
      (n fd : ℕ) (r : Receiver)
      → IsCalm r
      → fd ≢ n
      → IsSound (record {
        is_open = false;
        newfd = n;
        descriptors = fd ∷ [];
        acceptor = ready fd;
        receiver = r;
      })
  ready_drops :
      (n fd : ℕ)
      → fd ≢ n
      → IsSound (record {
        is_open = false;
        newfd = n;
        descriptors = fd ∷ [];
        acceptor = ready fd;
        receiver = dropping;
      })
  ready_quiet :
      (n fd : ℕ)
      → IsSound (record {
        is_open = false;
        newfd = n;
        descriptors = fd ∷ [];
        acceptor = ready fd;
        receiver = outside;
      })
  stored :
      (fd : ℕ) (r : Receiver)
      → IsCalm r
      → IsSound (record {
        is_open = false;
        newfd = fd;
        descriptors = fd ∷ [];
        acceptor = storing fd;
        receiver = r;
      })

pub other : (fd n : ℕ) → fd ≢ n → (fd == n) ≡ false
other fd n h = ground (arith, h)
