-- ===== src/Tests/Startup.antt =====
-- The start with no configuration at all, and with one that works.
use imachine_hb_f.Checksum.{Bytes}
use imachine_hb_f.Config.{IniItem, IniSection, get_section, get_value, get_string_value, find_item}
use imachine_hb_f.Prelude.{ℕ, ◌+◌, ◌-◌, ◌*◌, ◌≡◌, ◌↔◌, refl, true, List, [], ◌∷◌}
use imachine_hb_f.Prelude.Int.{ℤ, pos}
use imachine_hb_f.Startup.{Channels, Listens, uncaught, loops, settings, start_up}
use imachine_hb_f.Startup.Serving.{CanServe, Serves, start_up-CanServe_iff}
use imachine_hb_f.Strings.{ascii, str_eq}

-- Of digits, the number that they write.
abbrev decimal : ℕ → Bytes → ℕ
decimal n [] = n
decimal n (c ∷ cs) = decimal (n * 10 + (c - 0x30)) cs

abbrev digits : Bytes → ℤ
digits s = pos (decimal 0 s)

abbrev any_channel : Channels
any_channel n_type device port = true

abbrev any_port : Listens
any_port port = true

abbrev entry : Bytes → Bytes → IniItem
entry key value = record { key = key; value = value; comment = []; right_comment = [] }

abbrev working : List IniSection
working =
    record {
      name = ascii "Serial";
      comment = [];
      right_comment = [];
      items =
          entry (ascii "communication") (ascii "2")
          ∷ entry (ascii "Led") (ascii "/dev/ttyS5,9600")
          ∷ [];
    }
    ∷ []

start_up-CanServe_iff_example :
    Serves (start_up digits any_channel any_port working)
    ↔ CanServe digits any_channel any_port working
start_up-CanServe_iff_example = start_up-CanServe_iff digits any_channel any_port working

working_serves :
    start_up digits any_channel any_port working ≡ loops (settings digits working) true true
unfolding start_up ascii get_value get_section find_item str_eq get_string_value
working_serves = refl

-- The default of `Led` has no comma.
default_uncaught :
    (atoi : Bytes → ℤ) (opens : Channels) (listens : Listens)
    → start_up atoi opens listens [] ≡ uncaught
unfolding start_up ascii get_value get_section get_string_value
default_uncaught atoi opens listens = refl
