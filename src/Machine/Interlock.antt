-- ===== src/Machine/Interlock.antt =====
-- The two relays of the barrier are never on together, at any moment of any run of commands.
use imachine_hb_f.Checksum.{Bytes, byte}
use imachine_hb_f.Machine.{Machine}
use imachine_hb_f.Machine.Handlers.{
  Reply, Action, act, act_all, release, balustrade_thread, balus_actions, join, move_barrier,
  balus_trade,
}
use imachine_hb_f.Prelude.{
  ℕ, ◌≡◌, inl, inr, Bool, true, false, Bool-cases, ◌&&◌, List, [], ◌∷◌, ◌++◌, arith, ◌==◌,
  if◌then◌else◌,
}

abbrev pub both_on : Machine → Bool
both_on m = m.balustrade_up.level && m.balustrade_down.level

-- A predicate of every state that a list of writes passes through, the last one included.
abbrev pub Always : (Machine → Type 0) → List Action → Machine → Type 0
Always P [] m = P m
Always P (a ∷ more) m = P m × Always P more (act a m)

-- What holds between commands: never both on; a relay that is on has an open line that takes writes;
-- and a relay is on only while a thread is there to switch it off.
pub record IsInterlocked (m : Machine) : Type 0 where
  pub apart : both_on m ≡ false
  pub up_works :
      m.balustrade_up.level ≡ true
      → (m.balustrade_up.is_open ≡ true) × (m.balustrade_up.writable ≡ true)
  pub down_works :
      m.balustrade_down.level ≡ true
      → (m.balustrade_down.is_open ≡ true) × (m.balustrade_down.writable ≡ true)
  pub released :
      m.balustrade_running ≡ false
      → (m.balustrade_up.level ≡ false) × (m.balustrade_down.level ≡ false)

-- The state that `join` leaves: both relays off.
record IsReleased (m : Machine) : Type 0 where
  up : m.balustrade_up.level ≡ false
  down : m.balustrade_down.level ≡ false
  idle : m.balustrade_running ≡ false

thread-IsReleased : (m : Machine) → IsInterlocked m → IsReleased (balustrade_thread m)
unfolding balustrade_thread
thread-IsReleased m v = ground arith

join-IsReleased : (m : Machine) → IsInterlocked m → IsReleased (join m)
unfolding join
join-IsReleased m v = ground arith

IsReleased-IsInterlocked : (m : Machine) → IsReleased m → IsInterlocked m
IsReleased-IsInterlocked m r = ground arith

pub thread-IsInterlocked : (m : Machine) → IsInterlocked m → IsInterlocked (balustrade_thread m)
thread-IsInterlocked m v = IsReleased-IsInterlocked (balustrade_thread m) (thread-IsReleased m v)

-- While the thread switches the relays off, they are never both on.
pub thread-Always : (m : Machine) → IsInterlocked m → Always (λ s. both_on s ≡ false) release m
unfolding act
thread-Always m v = ground arith

release_lem :
    (m : Machine)
    → IsInterlocked m
    → ((act_all release m).balustrade_up.level ≡ false)
      × ((act_all release m).balustrade_down.level ≡ false)
unfolding act_all
release_lem m v = ground arith

-- From both off, the writes of a command never pass through both on.
balus_actions-Always :
    (m : Machine) (code : ℕ)
    → m.balustrade_up.level ≡ false
    → m.balustrade_down.level ≡ false
    → Always (λ s. both_on s ≡ false) (balus_actions code) m
unfolding balus_actions act
balus_actions-Always m code u d = elim (Bool-cases (code == 0)) [
  | inl e ↦ rw e (ground arith)
  | inr e ↦ elim (Bool-cases (code == 1)) [
    | inl f ↦ rw (e, f) (ground arith)
    | inr f ↦ rw (e, f) (ground arith)
  ]
]

move_barrier-IsInterlocked :
    (code : ℕ) (m : Machine) → IsReleased m → IsInterlocked (move_barrier code m)
unfolding move_barrier
move_barrier-IsInterlocked code m r = elim (Bool-cases (code == 0)) [
  | inl e ↦ rw e (ground arith)
  | inr e ↦ elim (Bool-cases (code == 1)) [
    | inl f ↦ rw (e, f) (ground arith)
    | inr f ↦ rw (e, f) (ground arith)
  ]
]

-- Any command leaves the interlock as it was.
pub balus_trade-IsInterlocked :
    (m : Machine) (cmd : Bytes) (oput : Reply)
    → IsInterlocked m
    → IsInterlocked (balus_trade m cmd oput).0
balus_trade-IsInterlocked m cmd oput v =
    unfold balus_trade in move_barrier-IsInterlocked (byte cmd 1) (join m) (join-IsReleased m v)

-- The writes of the barrier, in their order: what is left of the command in progress, then what the
-- thread and the commands to come will write.
pub data Event : Type 0 where
  command : Bytes → Event
  second_passes : Event

abbrev pub writes : Event → Machine → List Action
writes (command cmd) m =
    (if m.balustrade_running then release else []) ++ balus_actions (byte cmd 1)
writes second_passes m = if m.balustrade_running then release else []

unfoldable pub handle : Event → Machine → Machine
unfolding join
handle (command cmd) m = (balus_trade m cmd (0, 0)).0
handle second_passes m = join m

abbrev pub AlwaysApart : List Event → Machine → Type 0
AlwaysApart [] m = both_on m ≡ false
AlwaysApart (e ∷ more) m =
    Always (λ s. both_on s ≡ false) (writes e m) m
    × ((handle e m).balustrade_up ≡ (act_all (writes e m) m).balustrade_up)
    × ((handle e m).balustrade_down ≡ (act_all (writes e m) m).balustrade_down)
    × AlwaysApart more (handle e m)

Always-append :
    (P : Machine → Type 0) (xs ys : List Action) (m : Machine)
    → Always P xs m
    → Always P ys (act_all xs m)
    → Always P (xs ++ ys) m
unfolding act_all
Always-append P [] ys m h k = k
Always-append P (x ∷ xs) ys m h k = (h.0, Always-append P xs ys (act x m) h.1 k)

writes-Always :
    (e : Event) (m : Machine) → IsInterlocked m → Always (λ s. both_on s ≡ false) (writes e m) m
writes-Always second_passes m v = elim (Bool-cases m.balustrade_running) [
  | inl r ↦ simp r (thread-Always m v)
  | inr r ↦ simp r v.apart
]
writes-Always (command cmd) m v = elim (Bool-cases m.balustrade_running) [
  | inl r ↦
      let (up, down) = release_lem m v in
      simp r (
        Always-append (λ s. both_on s ≡ false) release (balus_actions (byte cmd 1)) m
          (thread-Always m v) (balus_actions-Always (act_all release m) (byte cmd 1) up down))
  | inr r ↦ simp r (balus_actions-Always m (byte cmd 1) (v.released r).0 (v.released r).1)
]

-- The listed writes are those that the event makes.
handle-writes :
    (e : Event) (m : Machine)
    → ((handle e m).balustrade_up ≡ (act_all (writes e m) m).balustrade_up)
      × ((handle e m).balustrade_down ≡ (act_all (writes e m) m).balustrade_down)
unfolding handle balus_trade
handle-writes second_passes m = ground arith
handle-writes (command cmd) m = ground arith

handle-IsInterlocked : (e : Event) (m : Machine) → IsInterlocked m → IsInterlocked (handle e m)
unfolding handle
handle-IsInterlocked (command cmd) m v = balus_trade-IsInterlocked m cmd (0, 0) v
handle-IsInterlocked second_passes m v = IsReleased-IsInterlocked (join m) (join-IsReleased m v)

-- From a state where the interlock holds, in every run of barrier commands and expiries of the
-- barrier thread the two relays are never on together, neither between the events nor between two
-- writes of one event.
pub run-AlwaysApart : (es : List Event) (m : Machine) → IsInterlocked m → AlwaysApart es m
run-AlwaysApart [] m v = v.apart
run-AlwaysApart (e ∷ es) m v = (
  writes-Always e m v,
  (handle-writes e m).0,
  (handle-writes e m).1,
  run-AlwaysApart es (handle e m) (handle-IsInterlocked e m v),
)
