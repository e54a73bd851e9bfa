-- ===== src/Startup.antt =====
-- The start of the program: `main` of src/main.cpp, `ReadCfg`, `Init` and `Start` of src/IMachine.cpp, and
-- `FB_Open` with `DisplayInit` of src/QYLED.cpp. `atoi`, and whether the channel to the display can be
-- opened and the servers' sockets listened on, are parameters.
pub mod Serving
use imachine_hb_f.Checksum.{Bytes}
use imachine_hb_f.Config.{
  IniSection, not_found_section, not_found_key, found, get_value, get_string_value,
}
use imachine_hb_f.Prelude.{
  ℕ, ◌+◌, Bool, true, false, ◌||◌, List, [], ◌∷◌, length, drop, ltb, ◌==◌, if◌then◌else◌,
}
use imachine_hb_f.Prelude.Int.{ℤ, pos, int_eq}
use imachine_hb_f.Strings.{ascii}

unfoldable pub get_int_value : (Bytes → ℤ) → Bytes → Bytes → ℤ → List IniSection → ℤ
get_int_value atoi section key default_value file = elim (get_value section key file) [
  | not_found_section ↦ default_value
  | not_found_key ↦ default_value
  | found value comment ↦ atoi value
]

-- The members of `IMachine` that `ReadCfg` sets.
pub record Settings : Type 0 where
  pub i1 : ℤ
  pub i2 : ℤ
  pub i3 : ℤ
  pub i4 : ℤ
  pub tcp_port1 : ℤ
  pub tcp_port2 : ℤ
  pub o1 : ℤ
  pub o2 : ℤ
  pub o3 : ℤ
  pub o4 : ℤ
  pub dev : Bytes
  pub port : ℤ
  pub uart1 : Bytes
  pub communication : ℤ
  pub led_mode : ℤ
  pub client1 : Bytes
  pub client2 : Bytes

unfoldable pub settings : (Bytes → ℤ) → List IniSection → Settings
unfolding get_int_value
settings atoi file = record {
  i1 = get_int_value atoi (ascii "IOCardIn") (ascii "VehicleDevice1") (pos 1) file;
  i2 = get_int_value atoi (ascii "IOCardIn") (ascii "VehicleDevice2") (pos 2) file;
  i3 = get_int_value atoi (ascii "IOCardIn") (ascii "VehicleDevice3") (pos 3) file;
  i4 = get_int_value atoi (ascii "IOCardIn") (ascii "ManualSwitch") (pos 4) file;
  tcp_port1 = get_int_value atoi (ascii "socket") (ascii "RobortPort") (pos 5000) file;
  tcp_port2 = get_int_value atoi (ascii "socket") (ascii "ManualPort") (pos 5001) file;
  o1 = get_int_value atoi (ascii "IOCardOut") (ascii "Balustrade_up") (pos 1) file;
  o2 = get_int_value atoi (ascii "IOCardOut") (ascii "Balustrade_down") (pos 2) file;
  o3 = get_int_value atoi (ascii "IOCardOut") (ascii "TrafficLed") (pos 1) file;
  o4 = get_int_value atoi (ascii "IOCardOut") (ascii "FlashLight") (pos 2) file;
  dev = get_string_value (ascii "Serial") (ascii "Serial") (ascii "/dev/ttyS0") file;
  port = get_int_value atoi (ascii "Serial") (ascii "baudRate") (pos 9600) file;
  uart1 = get_string_value (ascii "Serial") (ascii "Led") (ascii "/dev/ttyS5") file;
  communication = get_int_value atoi (ascii "Serial") (ascii "communication") (pos 0) file;
  led_mode = get_int_value atoi (ascii "Serial") (ascii "LedMode") (pos 0) file;
  client1 = get_string_value (ascii "Clients") (ascii "Client1") (ascii "192.168.1.2") file;
  client2 = get_string_value (ascii "Clients") (ascii "Client2") (ascii "192.168.1.3") file;
}

-- The result of `ReadCfg`.
unfoldable pub read_cfg : Settings → Bool
read_cfg s = int_eq s.communication (pos 0) || int_eq s.communication (pos 2)

-- `substr(0, find_first_of(','))`
unfoldable pub before_comma : Bytes → Bytes
before_comma [] = []
before_comma (c ∷ cs) = if c == 0x2C then [] else c ∷ before_comma cs

-- `FB_Open` returns, or `substr` throws because it is to start behind the end.
pub data FbOpen : Type 0 where
  returned : Bool → FbOpen
  thrown : FbOpen

-- `CreatComm`, with the channel that it makes and whether that opens.
abbrev pub Channels : Type 0
Channels = ℤ → Bytes → ℤ → Bool

-- From the place behind the device on.
unfoldable pub open_port : (Bytes → ℤ) → Channels → ℤ → Bytes → Bytes → FbOpen
unfolding before_comma
open_port atoi opens n_type device rest =
    if length (before_comma rest) == 0
    then returned false
    else returned (opens n_type device (atoi (before_comma rest)))

unfoldable pub fb_open : (Bytes → ℤ) → Channels → ℤ → Bytes → FbOpen
unfolding open_port before_comma
fb_open atoi opens n_type paras =
    if int_eq n_type (pos 2) || int_eq n_type (pos 0)
    then (if length (before_comma paras) == 0
        then returned false
        else if ltb (length paras) (length (before_comma paras) + 1)
        then thrown
        else open_port atoi opens n_type (before_comma paras)
            (drop (length (before_comma paras) + 1) paras))
    else returned false

-- How the start ends: `main` deletes the machine and exits; an exception ends the program; the threads of
-- `Init` read `Tcp1`, which was not set; or the loops run, with what `Open` of each server has returned, which
-- `Start` does not look at.
pub data StartUp : Type 0 where
  gives_up uncaught unset_pointer : StartUp
  loops : Settings → Bool → Bool → StartUp

-- `Open` of a server, by its port.
abbrev pub Listens : Type 0
Listens = ℤ → Bool

abbrev pub after_open : Listens → Settings → FbOpen → StartUp
after_open listens s thrown = uncaught
after_open listens s (returned false) = gives_up
after_open listens s (returned true) =
    if int_eq s.communication (pos 2)
    then loops s (listens s.tcp_port1) (listens s.tcp_port2)
    else unset_pointer

unfoldable pub start_up : (Bytes → ℤ) → Channels → Listens → List IniSection → StartUp
unfolding settings read_cfg fb_open
start_up atoi opens listens file =
    let s = settings atoi file in
    if read_cfg s then after_open listens s (fb_open atoi opens s.led_mode s.uart1) else gives_up
