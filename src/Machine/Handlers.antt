-- ===== src/Machine/Handlers.antt =====
-- The device handlers of src/IMachine.cpp. `oput` is the pair of reply bytes that a handler writes;
-- the number is what the handler returns. `none` is a write past the end of a local array.
use imachine_hb_f.Checksum.{Bytes, byte}
use imachine_hb_f.Gpio.{set_on, set_off}
use imachine_hb_f.Led.{Led, Outcome, disply_show, display_bright, and_then}
use imachine_hb_f.Machine.{Machine}
use imachine_hb_f.Machine.Words.{voice_word}
use imachine_hb_f.Prelude.{
  ℕ, zero, suc, ◌+◌, ◌-◌, Bool, true, false, Option, none, some, List, [], ◌∷◌, ◌++◌, length, drop,
  ltb, ◌==◌, if◌then◌else◌,
}
use imachine_hb_f.Prelude.Int.{ℤ, pos, negsuc}

abbrev pub Reply : Type 0
Reply = ℕ × ℕ

-- The machine after a handler, its reply bytes, and what it returns.
abbrev pub Handled : Type 0
Handled = Machine × Reply × ℤ

-- The writes to the two relays of the barrier.
pub data Action : Type 0 where
  up_on up_off down_on down_off : Action

unfoldable pub act : Action → Machine → Machine
unfolding set_on set_off
act up_on m = record m { balustrade_up = (set_on m.balustrade_up).0 }
act up_off m = record m { balustrade_up = (set_off m.balustrade_up).0 }
act down_on m = record m { balustrade_down = (set_on m.balustrade_down).0 }
act down_off m = record m { balustrade_down = (set_off m.balustrade_down).0 }

unfoldable pub act_all : List Action → Machine → Machine
unfolding act
act_all [] m = m
act_all (a ∷ more) m = act_all more (act a m)

-- `Balustrade_Thread`, after its second has passed.
abbrev pub release : List Action
release = up_off ∷ down_off ∷ []

unfoldable pub balustrade_thread : Machine → Machine
unfolding act_all
balustrade_thread m = record (act_all release m) { balustrade_running = false }

-- What the command switches, after the thread of the command before it has been joined.
unfoldable pub balus_actions : ℕ → List Action
balus_actions code =
    if code == 0 then up_off ∷ down_on ∷ [] else if code == 1 then up_on ∷ down_off ∷ [] else []

-- `join` waits for the running thread to finish.
unfoldable pub join : Machine → Machine
unfolding balustrade_thread
join m = if m.balustrade_running then balustrade_thread m else m

starts_thread : ℕ → Bool → Bool
starts_thread code running = if code == 0 then true else if code == 1 then true else running

-- The writes of a command, and the new thread that a known command starts.
unfoldable pub move_barrier : ℕ → Machine → Machine
unfolding balus_actions starts_thread act_all
move_barrier code m = record (act_all (balus_actions code) m) {
  balustrade_running = starts_thread code m.balustrade_running;
}

-- The copy of the command's first byte overwrites the 0xD3 written before it.
unfoldable pub balus_trade : Machine → Bytes → Reply → Handled
unfolding join move_barrier
balus_trade m cmd oput = (
  move_barrier (byte cmd 1) (join m),
  (byte cmd 0, (if byte cmd 1 == 0 then 0x03 else if byte cmd 1 == 1 then 0x02 else oput.1)),
  pos 4,
)

-- `strcat(VoiceData, word)` for each byte from `i` on, `n` of them; `VoiceData` has room for 255
-- characters and the closing zero.
unfoldable pub voice_data : Bytes → ℕ → ℕ → Bytes → Option Bytes
unfolding voice_word
voice_data cmd i zero text = some text
voice_data cmd i (suc n) text =
    let longer = text ++ voice_word (byte cmd i) in
    let rest = voice_data cmd (i + 1) n longer in if ltb 255 (length longer) then none else rest

-- `throws` says whether the speech engine's call throws; it is called once in either case.
unfoldable pub display_voice : Bool → Machine → Bytes → ℕ → Option Handled
display_voice throws m cmd cmd_len = elim (voice_data cmd 2 (cmd_len - 2) []) [
  | none ↦ none
  | some text ↦ some (
    record m { spoken = (byte cmd 0, text) ∷ m.spoken },
    (0xD4, (if throws then 0x05 else 0x04)),
    pos 4,
  )
]

-- The geometry of the two screens: rows, bytes in a row, and where the text starts.
pub record Geometry : Type 0 where
  pub font : ℕ
  pub line_count : ℕ
  pub chars_per_line : ℕ
  pub start : ℕ

-- 'D' shows 3 rows of 6 characters, 'd' 4 rows of 8, two bytes to a character.
abbrev pub upper_d : Geometry
upper_d = record { font = 1; line_count = 3; chars_per_line = 12; start = 6 }

abbrev pub lower_d : Geometry
lower_d = record { font = 0; line_count = 4; chars_per_line = 16; start = 7 }

unfoldable pub geometry : ℕ → Option Geometry
geometry mode = if mode == 0x44 then some upper_d else if mode == 0x64 then some lower_d else none

-- The loop over the rows: `n` rows may still be shown, `line` is the next and `i` its first byte.
-- Every case of the source's `switch` stores the colour byte itself.
unfoldable pub show_lines : Geometry → Bytes → ℕ → ℕ → ℕ → ℕ → Led → Outcome
unfolding disply_show
show_lines g cmd cmd_len zero line i led = some (led, false)
show_lines g cmd cmd_len (suc n) line i led =
    let len = if ltb g.chars_per_line (cmd_len - i) then g.chars_per_line else cmd_len - i in
    let next = λ (l : Led). show_lines g cmd cmd_len n (line + 1) (i + g.chars_per_line) l in
    if ltb i (cmd_len - g.start)
    then and_then (disply_show led line g.font (byte cmd (2 + line)) 0x09 (drop i cmd) len) next
    else some (led, false)

-- The rows, then the brightness.
unfoldable pub show_screen : Geometry → Bytes → ℕ → Led → Outcome
unfolding show_lines display_bright
show_screen g cmd cmd_len led =
    and_then (show_lines g cmd cmd_len g.line_count 1 g.start led)
      (λ l. display_bright l 0x02 (byte cmd 1))

unfoldable pub with_screen : Machine → Outcome → Option Handled
with_screen m none = none
with_screen m (some (led, b)) = some (record m { led = led }, (0xD4, 0x03), pos 4)

-- `now` is the clock. `success` is never set, so the second reply byte is 0x03 on every path.
unfoldable pub display_control : ℕ → Machine → Bytes → ℕ → Reply → Option Handled
unfolding with_screen
display_control now m cmd cmd_len oput =
    let noted = record m {
      displaying_default_content = false;
      reset_timer = true;
      last_play_time = now;
    } in
    elim (geometry (byte cmd 0)) [
      | none ↦ some (noted, (0xD4, oput.1), negsuc 0)
      | some g ↦ with_screen noted (show_screen g cmd cmd_len m.led)
    ]

unfoldable pub traffic_control : Machine → Bytes → Reply → Handled
unfolding set_on set_off
traffic_control m cmd oput =
    if byte cmd 1 == 0x01
    then (record m { traffic_led = (set_off m.traffic_led).0 }, (0xDE, 0x01), pos 4)
    else if byte cmd 1 == 0x00
    then (record m { traffic_led = (set_on m.traffic_led).0 }, (0xDE, 0x00), pos 4)
    else (m, (0xDE, oput.1), pos 4)

unfoldable pub flash_light_control : Machine → Bytes → Handled
unfolding set_on set_off
flash_light_control m cmd =
    if byte cmd 0 == 0x01
    then (record m { flash_light = (set_on m.flash_light).0 }, (0xDF, 0x03), pos 4)
    else (record m { flash_light = (set_off m.flash_light).0 }, (0xDF, 0x04), pos 4)
