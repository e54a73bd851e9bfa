-- ===== src/Server/Listen.antt =====
-- `Open`, `ReadByte` and the destructor of src/TcpServer.cpp. What the system calls return is part of the
-- operations.
use imachine_hb_f.Server.{close}
use imachine_hb_f.Prelude.{
  ℕ, zero, suc, Bool, Bool-cases, Option-cases, inl, inr, true, false, ◌&&◌, Option, none, some,
  List, ◌∷◌, ==_refl, ◌≡◌, refl, if◌then◌else◌,
}
use imachine_hb_f.Prelude.Int.{ℤ, pos, negsuc}

-- `sockfd`, with `none` for -1; whether the thread of `AcceptThread` runs; and the sockets open.
pub record Listener : Type 0 where
  pub sockfd : Option ℕ
  pub accepts : Bool
  pub descriptors : List ℕ

-- What `socket` returns, and whether `bind` and `listen` succeed.
pub record Net : Type 0 where
  pub socket : Option ℕ
  pub binds : Bool
  pub listens : Bool

unfoldable pub bind_socket : ℕ → Net → Listener → Listener × Bool
bind_socket fd net l =
    let made : Listener = record l { sockfd = some fd; descriptors = fd ∷ l.descriptors } in
    let shut : Listener = record made { descriptors = close fd made.descriptors } in
    if net.binds
    then (if net.listens then (record made { accepts = true }, true) else (shut, false))
    else (shut, false)

-- `Open`
unfoldable pub open_server : Net → Listener → Listener × Bool
unfolding bind_socket
open_server net l = elim net.socket [
  | none ↦ (record l { sockfd = none }, false)
  | some fd ↦ bind_socket fd net l
]

-- `ReadByte`, by `isOpen` and the results of `select` and of `recv`.
unfoldable pub read_byte : Bool → ℤ → ℤ → ℤ
read_byte false ready got = negsuc 0
read_byte true (negsuc n) got = negsuc 0
read_byte true (pos zero) got = pos 0
read_byte true (pos (suc n)) got = got

-- The listener of a call of Open that has this result.
abbrev pub Opens : Option ℕ → List ℕ → Listener × Bool → Type 0
Opens none ds r = (r.1 ≡ false) × (r.0.descriptors ≡ ds)
Opens (some fd) ds (l, true) = (l.sockfd ≡ some fd) × (l.accepts ≡ true) × (l.descriptors ≡ fd ∷ ds)
Opens (some fd) ds (l, false) = l.descriptors ≡ ds

bind_socket-Opens :
    (fd : ℕ) (net : Net) (l : Listener)
    → Opens (some fd) l.descriptors (bind_socket fd net l)
      × ((bind_socket fd net l).1 ≡ (net.binds && net.listens))
unfolding bind_socket
bind_socket-Opens fd net l = elim (Bool-cases net.binds) [
  | inr b ↦ rw (b, ==_refl fd) (refl, refl)
  | inl b ↦ elim (Bool-cases net.listens) [
    | inr c ↦ rw (b, c, ==_refl fd) (refl, refl)
    | inl c ↦ rw (b, c) ((refl, refl, refl), refl)
  ]
]

-- Open returns true exactly when the socket is made, bound and listened on, and then has it and the
-- accepting thread; otherwise it leaves no socket open.
pub open_server-Opens :
    (net : Net) (l : Listener)
    → Opens net.socket l.descriptors (open_server net l)
      × ((open_server net l).1
          ≡ (elim net.socket [ none ↦ false | some fd ↦ net.binds && net.listens ]))
unfolding open_server bind_socket
open_server-Opens net l = elim (Option-cases net.socket) [
  | inl e ↦ rw e ((refl, refl), refl)
  | inr (fd, e) ↦ rw e (bind_socket-Opens fd net l)
]
