-- ===== src/Machine/Commands.antt =====
-- The commands of a client in charge, from the frame to the reply.
use imachine_hb_f.Checksum.{Bytes, byte}
use mathlib.Core.Path.{subst}
use imachine_hb_f.Gpio.{Gpio, set_on, set_off}
use imachine_hb_f.Machine.{Machine, in_charge}
use imachine_hb_f.Machine.Dispatch.{
  Env, analysis, after_handler, reply, communication_analysis, reply_if,
}
use imachine_hb_f.Machine.Handlers.{
  Reply, balus_trade, traffic_control, move_barrier, join, balustrade_thread, balus_actions,
  act_all, act,
}
use imachine_hb_f.Prelude.{
  ℕ, ◌+◌, ◌<◌, ◌≡◌, refl, ap, fun_ext, Bool, Option, ◌&&◌, ◌∙◌, inl, inr, true, false, Bool-cases,
  some, drop, ltb, get_or-drop, arith, ◌==◌, if◌then◌else◌,
}

byte-drop : (n : ℕ) (cmd : Bytes) (i : ℕ) → byte (drop n cmd) i ≡ byte cmd (n + i)
byte-drop n cmd i = get_or-drop n cmd i 0

analysis_barrier :
    (env : Env) (m : Machine) (cmd : Bytes) (cmd_len : ℕ) (oput : Reply)
    → byte cmd 0 ≡ 0xA3
    → 0 < cmd_len
    → analysis env m cmd cmd_len oput ≡ after_handler (some (balus_trade m cmd oput))
unfolding analysis
analysis_barrier env m cmd cmd_len oput c l =
    let e : ltb cmd_len 1 ≡ false = ground arith in
    let d : (byte cmd 0 == 0xA0) ≡ false = ground arith in
    let b : (byte cmd 0 == 0xA3) ≡ true = ground arith in rw (e, d, b) refl

analysis_traffic :
    (env : Env) (m : Machine) (cmd : Bytes) (cmd_len : ℕ) (oput : Reply)
    → byte cmd 0 ≡ 0xAE
    → 0 < cmd_len
    → analysis env m cmd cmd_len oput ≡ after_handler (some (traffic_control m cmd oput))
unfolding analysis
analysis_traffic env m cmd cmd_len oput c l =
    let e : ltb cmd_len 1 ≡ false = ground arith in
    let d : (byte cmd 0 == 0xA0) ≡ false = ground arith in
    let b : (byte cmd 0 == 0xA3) ≡ false = ground arith in
    let t : (byte cmd 0 == 0xAE) ≡ true = ground arith in rw (e, d, b, t) refl

dispatch_barrier :
    (env : Env) (m : Machine) (cmd : Bytes) (cmd_len : ℕ) (ip : Bytes)
    → in_charge m ip ≡ true
    → byte cmd 8 ≡ 0xA3
    → communication_analysis env m cmd cmd_len ip
      ≡ reply_if (byte cmd 3) 0xD3 ip (analysis env m (drop 8 cmd) cmd_len (0, 0))
unfolding communication_analysis
dispatch_barrier env m cmd cmd_len ip h c =
    let a : (byte cmd 8 == 0xA4) ≡ false = ground arith in
    let b : (byte cmd 8 == 0xA3) ≡ true = ground arith in rw (a, b, h) refl

dispatch_traffic :
    (env : Env) (m : Machine) (cmd : Bytes) (cmd_len : ℕ) (ip : Bytes)
    → in_charge m ip ≡ true
    → byte cmd 8 ≡ 0xAE
    → communication_analysis env m cmd cmd_len ip
      ≡ reply_if (byte cmd 3) 0xDE ip (analysis env m (drop 8 cmd) cmd_len (0, 0))
unfolding communication_analysis
dispatch_traffic env m cmd cmd_len ip h c =
    let a : (byte cmd 8 == 0xA4) ≡ false = ground arith in
    let b : (byte cmd 8 == 0xA3) ≡ false = ground arith in
    let t : (byte cmd 8 == 0xAE) ≡ true = ground arith in rw (a, b, t, h) refl

-- What a write to an output does, which a line that is not open or does not accept it leaves as it was.
abbrev pub driven : Bool → Gpio → Gpio
driven level g = if g.is_open && g.writable then record g { level = level } else g

set_on-driven : (g : Gpio) → (set_on g).0 ≡ driven true g
unfolding set_on
set_on-driven g = ground arith

set_off-driven : (g : Gpio) → (set_off g).0 ≡ driven false g
unfolding set_off
set_off-driven g = ground arith

abbrev barrier_outcome : (Gpio → Gpio) → (Gpio → Gpio) → Machine → Bytes → Bytes → Option Machine
barrier_outcome on off m cmd ip =
    let j : Machine =
      if m.balustrade_running
      then record m {
        balustrade_up = off m.balustrade_up;
        balustrade_down = off m.balustrade_down;
        balustrade_running = false;
      }
      else m in
    some (
      reply (byte cmd 3) 0xD3 ip (
        if byte cmd 9 == 0
        then (
          record j {
            balustrade_up = off j.balustrade_up;
            balustrade_down = on j.balustrade_down;
            balustrade_running = true;
            reset_timer = true;
          },
          (0xA3, 0x03),
        )
        else if byte cmd 9 == 1
        then (
          record j {
            balustrade_up = on j.balustrade_up;
            balustrade_down = off j.balustrade_down;
            balustrade_running = true;
            reset_timer = true;
          },
          (0xA3, 0x02),
        )
        else (record j { reset_timer = true }, (0xA3, 0x00))))

barrier_writes :
    (env : Env) (m : Machine) (cmd : Bytes) (cmd_len : ℕ) (ip : Bytes)
    → in_charge m ip ≡ true
    → byte cmd 8 ≡ 0xA3
    → 0 < cmd_len
    → communication_analysis env m cmd cmd_len ip
      ≡ barrier_outcome (λ g. (set_on g).0) (λ g. (set_off g).0) m cmd ip
unfolding after_handler reply_if balus_trade join balustrade_thread move_barrier balus_actions
    act_all act
barrier_writes env m cmd cmd_len ip h c l =
    dispatch_barrier env m cmd cmd_len ip h c
    ∙ ap (reply_if (byte cmd 3) 0xD3 ip)
        (analysis_barrier env m (drop 8 cmd) cmd_len (0, 0) (byte-drop 8 cmd 0 ∙ c) l)
    ∙ elim (Bool-cases m.balustrade_running) [
      | inl r ↦ elim (Bool-cases (byte cmd 9 == 0)) [
        | inl e ↦ rw (byte-drop 8 cmd 0, byte-drop 8 cmd 1, c, r, e) refl
        | inr e ↦ elim (Bool-cases (byte cmd 9 == 1)) [
          | inl f ↦ rw (byte-drop 8 cmd 0, byte-drop 8 cmd 1, c, r, e, f) refl
          | inr f ↦ rw (byte-drop 8 cmd 0, byte-drop 8 cmd 1, c, r, e, f) refl
        ]
      ]
      | inr r ↦ elim (Bool-cases (byte cmd 9 == 0)) [
        | inl e ↦ rw (byte-drop 8 cmd 0, byte-drop 8 cmd 1, c, r, e) refl
        | inr e ↦ elim (Bool-cases (byte cmd 9 == 1)) [
          | inl f ↦ rw (byte-drop 8 cmd 0, byte-drop 8 cmd 1, c, r, e, f) refl
          | inr f ↦ rw (byte-drop 8 cmd 0, byte-drop 8 cmd 1, c, r, e, f) refl
        ]
      ]
    ]

-- A barrier command from the client in charge: when the thread of the command before it still runs, it is
-- waited for, which has switched both relays off. Then 0x00 switches the relay that lifts off and the one that
-- lowers on, 0x01 the first on and the second off, and both start the thread; any other byte does neither. A
-- write changes what was last written through an output that is open and accepts it, and no other. The timer is
-- reset, and the answer is the code 0xA3 of the command itself and 0x03 (down), 0x02 (up) or 0x00.
pub barrier_command :
    (env : Env) (m : Machine) (cmd : Bytes) (cmd_len : ℕ) (ip : Bytes)
    → in_charge m ip ≡ true
    → byte cmd 8 ≡ 0xA3
    → 0 < cmd_len
    → let j : Machine =
        if m.balustrade_running
        then record m {
          balustrade_up = driven false m.balustrade_up;
          balustrade_down = driven false m.balustrade_down;
          balustrade_running = false;
        }
        else m in
      communication_analysis env m cmd cmd_len ip
      ≡ some (
          reply (byte cmd 3) 0xD3 ip (
            if byte cmd 9 == 0
            then (
              record j {
                balustrade_up = driven false j.balustrade_up;
                balustrade_down = driven true j.balustrade_down;
                balustrade_running = true;
                reset_timer = true;
              },
              (0xA3, 0x03),
            )
            else if byte cmd 9 == 1
            then (
              record j {
                balustrade_up = driven true j.balustrade_up;
                balustrade_down = driven false j.balustrade_down;
                balustrade_running = true;
                reset_timer = true;
              },
              (0xA3, 0x02),
            )
            else (record j { reset_timer = true }, (0xA3, 0x00))))
barrier_command env m cmd cmd_len ip h c l =
    subst
      (λ (f : (Gpio → Gpio) × (Gpio → Gpio)).
        communication_analysis env m cmd cmd_len ip ≡ barrier_outcome f.0 f.1 m cmd ip)
      (λ i. (fun_ext set_on-driven i, fun_ext set_off-driven i))
      (barrier_writes env m cmd cmd_len ip h c l)

-- A traffic light command from the client in charge: 0x00 is green and switches the line on, 0x01
-- is red and switches it off, and any other byte leaves it; the timer is reset, and the answer is
-- 0xDE with 0, 1 or 0.
pub traffic_command :
    (env : Env) (m : Machine) (cmd : Bytes) (cmd_len : ℕ) (ip : Bytes)
    → in_charge m ip ≡ true
    → byte cmd 8 ≡ 0xAE
    → 0 < cmd_len
    → communication_analysis env m cmd cmd_len ip
      ≡ some (
          reply (byte cmd 3) 0xDE ip (
            if byte cmd 9 == 1
            then (
              record m { traffic_led = (set_off m.traffic_led).0; reset_timer = true },
              (0xDE, 1),
            )
            else if byte cmd 9 == 0
            then (
              record m { traffic_led = (set_on m.traffic_led).0; reset_timer = true },
              (0xDE, 0),
            )
            else (record m { reset_timer = true }, (0xDE, 0))))
unfolding after_handler reply_if traffic_control
traffic_command env m cmd cmd_len ip h c l =
    dispatch_traffic env m cmd cmd_len ip h c
    ∙ ap (reply_if (byte cmd 3) 0xDE ip)
        (analysis_traffic env m (drop 8 cmd) cmd_len (0, 0) (byte-drop 8 cmd 0 ∙ c) l)
    ∙ elim (Bool-cases (byte cmd 9 == 1)) [
      | inl e ↦ rw (byte-drop 8 cmd 1, e) refl
      | inr e ↦ elim (Bool-cases (byte cmd 9 == 0)) [
        | inl f ↦ rw (byte-drop 8 cmd 1, e, f) refl
        | inr f ↦ rw (byte-drop 8 cmd 1, e, f) refl
      ]
    ]
