-- ===== src/Machine.antt =====
-- The lane controller of include/IMachine.h: its members, as far as commands read or change them.
-- The two receiving threads are taken one command at a time.
pub mod Words
pub mod Send
pub mod Handlers
pub mod Dispatch
pub mod Interlock
pub mod Screen
pub mod Effects
pub mod Voice
pub mod Frames
pub mod Flash
pub mod Commands
pub mod Serve
pub mod Coils
pub mod Idle
use imachine_hb_f.Checksum.{Bytes}
use imachine_hb_f.Gpio.{Gpio}
use imachine_hb_f.Led.{Led}
unfoldable pub use imachine_hb_f.Strings.{str_eq}
use imachine_hb_f.Prelude.{ℕ, Bool, true, false, ◌&&◌, ◌||◌, List, [], ◌∷◌, ◌==◌}
use imachine_hb_f.Prelude.Int.{ℤ, pos, int_eq}

-- A server socket: whether a client is connected, and what was sent to it, newest first.
pub record TcpServer : Type 0 where
  pub is_open : Bool
  pub sent : List Bytes

-- The four outputs are the objects of the class `Gpio`, each with what was last written through it. They drive
-- four lines where their pins in the configuration differ; by the defaults of `ReadCfg`, `Balustrade_up` and
-- `TrafficLed` both have output 1, and `Balustrade_down` and `FlashLight` output 2.
pub record Machine : Type 0 where
  pub tcp1 : TcpServer
  pub tcp2 : TcpServer
  pub client1 : Bytes
  pub client2 : Bytes
  pub manual_switch_status : ℤ
  pub balustrade_up : Gpio
  pub balustrade_down : Gpio
  pub traffic_led : Gpio
  pub flash_light : Gpio
  -- `balustradeThread` holds a thread that has not yet switched the relays off.
  pub balustrade_running : Bool
  pub displaying_default_content : Bool
  pub reset_timer : Bool
  pub last_play_time : ℕ
  pub led : Led
  -- What was handed to the speech engine, newest first: the sound level and the text.
  pub spoken : List (ℕ × Bytes)

-- The mode gate: the robot's client while the switch is low, the operator's while it is high.
unfoldable pub in_charge : Machine → Bytes → Bool
in_charge m ip =
    str_eq ip m.client1 && int_eq m.manual_switch_status (pos 0)
    || str_eq ip m.client2 && int_eq m.manual_switch_status (pos 1)
