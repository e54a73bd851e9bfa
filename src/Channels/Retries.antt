-- ===== src/Channels/Retries.antt =====
-- What the client of src/Tcp.cpp holds open, and which failures it logs.
use imachine_hb_f.Channels.Tcp.{
  TcpClient, port_of, new_client, connect_failed, open_socket, tcp_open, tcp_close, tcp_delete,
  disconnect, tcp_send, after_recv, tcp_recv, after_select, tcp_recv_within, connect_turn, TcpEvent,
  turns, sends, receives, waits, tcp_step, tcp_run,
}
use imachine_hb_f.Prelude.{
  ℕ, zero, suc, ◌+◌, ◌*◌, ◌/◌, ◌≤◌, ◌<◌, Bool, true, false, not, ◌||◌, Option, none, some, List, [],
  ◌∷◌, length, min, ltb, ◌==◌, if◌then◌else◌, ◌≡◌, refl, inl, inr, Bool-cases, ==_refl, arith,
}
use imachine_hb_f.Prelude.Int.{pos, negsuc}
use mathlib.Core.Path.{subst}

-- The descriptor of an open channel.
abbrev pub held : TcpClient → List ℕ
held c = if c.is_open then elim c.sockfd [ none ↦ [] | some fd ↦ fd ∷ [] ] else []

data IsTidy : TcpClient → Type 0 where
  shut :
      (s : Option ℕ) (n l : ℕ) (r : Bool)
      → IsTidy (record {
        sockfd = s;
        is_open = false;
        connect_len = n;
        thread_runs = r;
        descriptors = [];
        logged = l;
      })
  opened :
      (fd n l : ℕ) (r : Bool)
      → IsTidy (record {
        sockfd = some fd;
        is_open = true;
        connect_len = n;
        thread_runs = r;
        descriptors = fd ∷ [];
        logged = l;
      })

disconnect-IsTidy :
    (fd n l : ℕ) (r : Bool)
    → IsTidy
        (disconnect (record {
          sockfd = some fd;
          is_open = true;
          connect_len = n;
          thread_runs = r;
          descriptors = fd ∷ [];
          logged = l;
        })).0
unfolding disconnect
disconnect-IsTidy fd n l r = rw (==_refl fd) (shut (some fd) n l r)

tcp_open-IsTidy :
    (s fd : Option ℕ) (connects : Bool) (n l : ℕ) (r : Bool)
    → IsTidy
        (tcp_open fd connects (record {
          sockfd = s;
          is_open = false;
          connect_len = n;
          thread_runs = r;
          descriptors = [];
          logged = l;
        })).0
unfolding tcp_open open_socket connect_failed
tcp_open-IsTidy s none connects n l r = shut none n l r
tcp_open-IsTidy s (some fd) true n l r = opened fd 0 l r
tcp_open-IsTidy s (some fd) false n l r = elim (Bool-cases (n == 0 || ltb 600 n)) [
  | inl e ↦ rw (e, ==_refl fd) (shut (some fd) 1 (l + 1) r)
  | inr e ↦ rw (e, ==_refl fd) (shut (some fd) (n + 1) l r)
]

tcp_step-IsTidy : (e : TcpEvent) (c : TcpClient) → IsTidy c → IsTidy (tcp_step e c)
unfolding tcp_step connect_turn tcp_send tcp_recv tcp_recv_within after_recv after_select
tcp_step-IsTidy (turns fd connects) _ (shut s n l true) = tcp_open-IsTidy s fd connects n l true
tcp_step-IsTidy (turns fd connects) _ (shut s n l false) = shut s n l false
tcp_step-IsTidy (turns fd connects) _ (opened f n l true) = opened f n l true
tcp_step-IsTidy (turns fd connects) _ (opened f n l false) = opened f n l false
tcp_step-IsTidy (sends sent) _ (shut s n l r) = shut s n l r
tcp_step-IsTidy (sends true) _ (opened f n l r) = opened f n l r
tcp_step-IsTidy (sends false) _ (opened f n l r) = disconnect-IsTidy f n l r
tcp_step-IsTidy (receives got) _ (shut s n l r) = shut s n l r
tcp_step-IsTidy (receives (pos (suc k))) _ (opened f n l r) = opened f n l r
tcp_step-IsTidy (receives (pos zero)) _ (opened f n l r) = disconnect-IsTidy f n l r
tcp_step-IsTidy (receives (negsuc k)) _ (opened f n l r) = disconnect-IsTidy f n l r
tcp_step-IsTidy (waits ready got) _ (shut s n l r) = shut s n l r
tcp_step-IsTidy (waits (negsuc k) got) _ (opened f n l r) = opened f n l r
tcp_step-IsTidy (waits (pos zero) got) _ (opened f n l r) = opened f n l r
tcp_step-IsTidy (waits (pos (suc k)) (pos (suc j))) _ (opened f n l r) = opened f n l r
tcp_step-IsTidy (waits (pos (suc k)) (pos zero)) _ (opened f n l r) = disconnect-IsTidy f n l r
tcp_step-IsTidy (waits (pos (suc k)) (negsuc j)) _ (opened f n l r) = disconnect-IsTidy f n l r

tcp_run-IsTidy : (es : List TcpEvent) (c : TcpClient) → IsTidy c → IsTidy (tcp_run es c)
unfolding tcp_run
tcp_run-IsTidy [] c h = h
tcp_run-IsTidy (e ∷ es) c h = tcp_run-IsTidy es (tcp_step e c) (tcp_step-IsTidy e c h)

IsTidy-held :
    (c : TcpClient) → IsTidy c → (c.descriptors ≡ held c) × ((tcp_delete c).descriptors ≡ [])
unfolding tcp_delete tcp_close
IsTidy-held _ (shut s n l r) = (refl, refl)
IsTidy-held _ (opened fd n l r) = (refl, rw (==_refl fd) refl)

-- After the constructor and one Open, as CreatComm calls them, and any sequence of turns of the
-- connecting thread, of Send and of Recv, with whatever results of the system calls: the descriptors that
-- the channel holds are the one of its sockfd if isOpen is true, and none otherwise; and none is left after
-- the destructor.
pub tcp_run-held :
    (port : ℕ) (fd : Option ℕ) (connects : Bool) (es : List TcpEvent)
    → ((tcp_run es (tcp_open fd connects (new_client port)).0).descriptors
        ≡ held (tcp_run es (tcp_open fd connects (new_client port)).0))
      × ((tcp_delete (tcp_run es (tcp_open fd connects (new_client port)).0)).descriptors ≡ [])
unfolding new_client
tcp_run-held port fd connects es =
    let start = tcp_open-IsTidy none fd connects 0 0 (not (port_of port == 0)) in
    IsTidy-held _ (tcp_run-IsTidy es _ start)

-- Turns in which the server does not answer.
abbrev pub failures : List ℕ → List TcpEvent
failures [] = []
failures (fd ∷ fds) = turns (some fd) false ∷ failures fds

-- The state after `k` failures.
record AfterFailures (k : ℕ) (c : TcpClient) : Type 0 where
  runs : c.thread_runs ≡ true
  closed : c.is_open ≡ false
  bound : c.connect_len ≤ 601
  some_left : min 1 k ≤ c.connect_len
  sum : c.connect_len + 601 * c.logged ≡ k + 601 * min 1 k

failure-AfterFailures :
    (k fd : ℕ) (c : TcpClient)
    → AfterFailures k c
    → AfterFailures (k + 1) (tcp_step (turns (some fd) false) c)
unfolding tcp_step connect_turn tcp_open open_socket connect_failed
failure-AfterFailures k fd c h =
    rw (h.runs, h.closed)
      (elim (Bool-cases (c.connect_len == 0 || ltb 600 c.connect_len)) [
        | inl e ↦ rw e (record {
          runs = refl;
          closed = refl;
          bound = omega arith;
          some_left = omega arith;
          sum = ground (arith, e, h.bound, h.some_left, h.sum);
        })
        | inr e ↦ rw e (record {
          runs = refl;
          closed = refl;
          bound = ground (arith, e, h.bound);
          some_left = omega arith;
          sum = ground (arith, e, h.bound, h.some_left, h.sum);
        })
      ])

failures-AfterFailures :
    (fds : List ℕ) (k : ℕ) (c : TcpClient)
    → AfterFailures k c
    → AfterFailures (k + length fds) (tcp_run (failures fds) c)
unfolding tcp_run
failures-AfterFailures [] k c h =
    let e : k ≡ k + 0 = omega arith in subst (λ (j : ℕ). AfterFailures j c) e h
failures-AfterFailures (fd ∷ fds) k c h =
    let e : k + 1 + length fds ≡ k + suc (length fds) = omega arith in
    subst (λ (j : ℕ). AfterFailures j (tcp_run (failures fds) (tcp_step (turns (some fd) false) c)))
      e
      (failures-AfterFailures fds (k + 1) (tcp_step (turns (some fd) false) c)
        (failure-AfterFailures k fd c h))

-- From a new client with a port (as an unsigned short) on, while the server does not answer, of the tries of the connecting
-- thread the first is logged, and then one of every 601; and the counter stays at 601 or less.
pub failures-logged :
    (port : ℕ) (fds : List ℕ)
    → 0 < port_of port
    → ((tcp_run (failures fds) (new_client port)).logged ≡ (length fds + 600) / 601)
      × ((tcp_run (failures fds) (new_client port)).connect_len ≤ 601)
unfolding new_client
failures-logged port fds h =
    let z : (port_of port == 0) ≡ false = ground arith in
    let start : AfterFailures 0 (new_client port) = record {
      runs = rw z refl;
      closed = refl;
      bound = omega arith;
      some_left = omega arith;
      sum = omega arith;
    } in
    let k = failures-AfterFailures fds 0 (new_client port) start in
    (omega (arith, k.bound, k.some_left, k.sum), k.bound)
