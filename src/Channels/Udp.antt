-- ===== src/Channels/Udp.antt =====
-- The client of src/Udp.cpp. What the system calls return is part of the operations.
use imachine_hb_f.Channels.Tcp.{close_fd}
use imachine_hb_f.Prelude.{
  ℕ, zero, suc, Bool, true, false, Option, none, some, List, [], ◌∷◌, if◌then◌else◌, ◌≡◌, refl,
}
use imachine_hb_f.Prelude.Int.{ℤ, pos, negsuc}

-- `isOpen`, `sockfd` with `none` for -1, and the descriptors that are open.
pub record UdpClient : Type 0 where
  pub is_open : Bool
  pub sockfd : Option ℕ
  pub descriptors : List ℕ

-- The constructor, whatever `sockfd` holds.
unfoldable pub new_udp : Option ℕ → List ℕ → UdpClient
new_udp sockfd ds = record { is_open = false; sockfd = sockfd; descriptors = ds }

unfoldable pub install : Option ℕ → UdpClient → UdpClient × Bool
install none c = (record c { sockfd = none }, false)
install (some fd) c =
    (record c { sockfd = some fd; is_open = true; descriptors = fd ∷ c.descriptors }, true)

-- `Open`, by the result of `socket`.
unfoldable pub udp_open : Option ℕ → UdpClient → UdpClient × Bool
unfolding install
udp_open fd c =
    install fd (if c.is_open then c else record c { descriptors = close_fd c.sockfd c.descriptors })

abbrev close_negative : Option ℕ → List ℕ → List ℕ
close_negative none ds = close_fd none ds
close_negative (some fd) ds = ds

-- `Close`, which the destructor calls too: it closes a negative `sockfd`.
unfoldable pub udp_close : UdpClient → UdpClient × Bool
udp_close c = (record c { descriptors = close_negative c.sockfd c.descriptors }, false)

-- `Recv` with a time, by the results of `select` and of `recvfrom`.
unfoldable pub udp_recv_within : ℤ → ℤ → ℤ
udp_recv_within (negsuc n) got = negsuc 0
udp_recv_within (pos zero) got = pos 0
udp_recv_within (pos (suc n)) (pos (suc k)) = pos (suc k)
udp_recv_within (pos (suc n)) (pos zero) = negsuc 0
udp_recv_within (pos (suc n)) (negsuc k) = negsuc 0

pub data UdpEvent : Type 0 where
  opens : Option ℕ → UdpEvent
  closes : UdpEvent

unfoldable pub udp_step : UdpEvent → UdpClient → UdpClient
unfolding udp_open udp_close
udp_step (opens fd) c = (udp_open fd c).0
udp_step closes c = (udp_close c).0

unfoldable pub udp_run : List UdpEvent → UdpClient → UdpClient
unfolding udp_step
udp_run [] c = c
udp_run (e ∷ es) c = udp_run es (udp_step e c)

-- The descriptors that the calls of Open were given, the last one first, before `ds`.
abbrev pub given : List UdpEvent → List ℕ → List ℕ
given [] ds = ds
given (opens none ∷ es) ds = given es ds
given (opens (some fd) ∷ es) ds = given es (fd ∷ ds)
given (closes ∷ es) ds = given es ds

open_run :
    (es : List UdpEvent) (s : Option ℕ) (ds : List ℕ)
    → (udp_run es (record { is_open = true; sockfd = s; descriptors = ds })).descriptors
      ≡ given es ds
unfolding udp_run udp_step udp_open udp_close install
open_run [] s ds = refl
open_run (opens none ∷ es) s ds = open_run es none ds
open_run (opens (some fd) ∷ es) s ds = open_run es (some fd) (fd ∷ ds)
open_run (closes ∷ es) none ds = open_run es none ds
open_run (closes ∷ es) (some fd) ds = open_run es (some fd) ds

-- From the constructor on, with whatever sockfd held before, and the first Open, which succeeds:
-- this Open closes the number that sockfd held, and after it no call of Open, of Close or of the
-- destructor closes anything, so that all descriptors that Open is given stay open.
pub udp_run-given :
    (es : List UdpEvent) (s : Option ℕ) (fd : ℕ) (ds : List ℕ)
    → (udp_run es (udp_open (some fd) (new_udp s ds)).0).descriptors ≡ given es (fd ∷ close_fd s ds)
unfolding udp_open new_udp install
udp_run-given es s fd ds = open_run es (some fd) (fd ∷ close_fd s ds)
