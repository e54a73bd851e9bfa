-- ===== src/Tests/Lane.antt =====
-- The lane's threads on a few passes.
use imachine_hb_f.Checksum.{Bytes}
use imachine_hb_f.Framer.{Command}
use imachine_hb_f.Led.{Led, new_led}
use imachine_hb_f.Machine.{Machine, in_charge, str_eq}
use imachine_hb_f.Machine.Coils.{
  Inputs, Coils, vehicle_pass, visit, visit_all, coil_byte, changed, next_seq,
}
use imachine_hb_f.Machine.Coils.Addressee.{spared, vehicle_pass-spared}
use imachine_hb_f.Machine.Coils.Reports.{reading, vehicle_pass-mask}
use imachine_hb_f.Machine.Dispatch.{Env}
use imachine_hb_f.Machine.Effects.{SameDevices}
use imachine_hb_f.Machine.Idle.{timer_pass, Defaulted, timer_pass-Defaulted}
use imachine_hb_f.Machine.Serve.{serve, serve-SameDevices}
use imachine_hb_f.Gpio.{Gpio}
use imachine_hb_f.Prelude.{ℕ, ◌≡◌, refl, true, false, some, List, [], ◌∷◌, arith}
use imachine_hb_f.Prelude.Int.{pos}

abbrev line_off : Gpio
line_off = record { is_open = true; writable = true; level = false }

abbrev robot : Bytes
robot = 0x31 ∷ 0x30 ∷ []

abbrev operator : Bytes
operator = 0x31 ∷ 0x31 ∷ []

-- Both clients are connected, and a text was shown at the clock's start.
abbrev lane : Machine
lane = record {
  tcp1 = record { is_open = true; sent = [] };
  tcp2 = record { is_open = true; sent = [] };
  client1 = robot;
  client2 = operator;
  manual_switch_status = pos 0;
  balustrade_up = line_off;
  balustrade_down = line_off;
  traffic_led = line_off;
  flash_light = line_off;
  balustrade_running = false;
  displaying_default_content = false;
  reset_timer = false;
  last_play_time = 0;
  led = new_led;
  spoken = [];
}

abbrev started_coils : Coils
started_coils = record {
  old1 = pos 0;
  old2 = pos 0;
  old3 = pos 0;
  manual_old = pos 0;
  coil = 0;
  tx_seq = 0;
}

-- A vehicle on the first coil and the third, for the client in charge by `manual`.
abbrev two_coils : ℕ → Inputs
two_coils manual = record {
  io1 = reading true;
  io2 = reading false;
  io3 = reading true;
  manual = pos manual;
}

-- The pass sends two frames, with the sequence numbers 1 and 2.
two_frames :
    (vehicle_pass (two_coils 0) (lane, started_coils)).1
    ≡ record { old1 = pos 1; old2 = pos 0; old3 = pos 1; manual_old = pos 0; coil = 5; tx_seq = 20 }
unfolding vehicle_pass visit_all visit coil_byte changed next_seq
two_frames = refl

vehicle_pass-mask_example :
    let r = (vehicle_pass (two_coils 0) (lane, started_coils)).1 in
    (r.old1 ≡ pos 1) × (r.old2 ≡ pos 0) × (r.old3 ≡ pos 1) × (r.coil ≡ 5)
vehicle_pass-mask_example =
    vehicle_pass-mask true false true (pos 0) lane started_coils refl (λ e. cc)

different_clients : str_eq operator robot ≡ false
unfolding str_eq
different_clients = refl

vehicle_pass-spared_example :
    spared false (vehicle_pass (two_coils 1) (lane, started_coils)).0 ≡ spared false lane
vehicle_pass-spared_example =
    vehicle_pass-spared false (two_coils 1) lane started_coils refl different_clients

timer_pass-Defaulted_example :
    (after : Led) × (let n : Machine = record lane {
      led = after;
      displaying_default_content = true;
    } in
      (timer_pass 10000000000 lane ≡ some n) × (timer_pass 20000000000 n ≡ some n))
    × Defaulted lane.led after
unfolding new_led
timer_pass-Defaulted_example =
    timer_pass-Defaulted 10000000000 20000000000 lane (omega arith) refl (omega arith)

operator_waits : in_charge lane operator ≡ false
unfolding in_charge str_eq
operator_waits = refl

-- A barrier frame and a heartbeat from the operator, while the robot is in charge.
abbrev turn : List (Env × Command)
turn =
    (
      record { now = 5; throws = false; unset_type = 0 },
      record { frame = 0xFF ∷ 0xFF ∷ 0 ∷ 0x10 ∷ 0 ∷ 0 ∷ 0 ∷ 2 ∷ 0xA3 ∷ 0x01 ∷ 0xB0 ∷ []; len = 11 },
    )
    ∷ (
      record { now = 6; throws = false; unset_type = 0 },
      record { frame = 0xFF ∷ 0xFF ∷ 0 ∷ 0x90 ∷ 0 ∷ 0 ∷ 0 ∷ 0 ∷ 0x90 ∷ []; len = 9 },
    )
    ∷ []

serve-SameDevices_example : (n : Machine) × (serve operator lane turn ≡ some n) × SameDevices lane n
serve-SameDevices_example = serve-SameDevices operator lane turn operator_waits
