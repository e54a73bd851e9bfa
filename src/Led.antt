-- ===== src/Led.antt =====
-- The display of src/QYLED.cpp: each operation builds a packet for the display controller and puts
-- it in the task list under a line. Bytes are numbers below 256, and an `int` stored in a byte is
-- taken modulo 256. `none` is a write past the end of one of the local arrays.
pub mod Packets
pub mod Layout
pub mod Texts
pub mod Queue
pub mod Relay
use Packets.{
  Pair, page_packet, relay_packet, switch_packet, bright_packet, fast_packet, specially_packet,
  voice_packet, traffic_packet, sub8,
}
use imachine_hb_f.Checksum.{Bytes}
use imachine_hb_f.Klist.{Node, show_add}
use imachine_hb_f.Prelude.{
  ℕ, zero, suc, ◌+◌, ◌-◌, ◌*◌, ◌%◌, Bool, true, false, Option, none, some, List, [], ◌∷◌, length,
  take, ltb, ◌==◌, if◌then◌else◌, replicate,
}
use imachine_hb_f.Prelude.Int.{ℤ, pos, negsuc, int_eq}

-- The members of `QLED`, and the three static arrays of `DisplaySetRelay`.
pub record Led : Type 0 where
  pub display_mode : ℕ
  pub oldpage : ℤ
  pub relay1 : Pair
  pub relay2 : Pair
  pub relay3 : Pair
  pub led_list : List Node

-- The constructor, over the statics' initial values.
unfoldable pub new_led : Led
new_led = record {
  display_mode = 1;
  oldpage = negsuc 0;
  relay1 = (0xFD, 0x02);
  relay2 = (0xFD, 0x02);
  relay3 = (0xFD, 0x02);
  led_list = [];
}

-- The value of a method: the display after it, and what it returns.
abbrev pub Outcome : Type 0
Outcome = Option (Led × Bool)

abbrev with_list : Led → Bool → Option (List Node) → Outcome
with_list led b none = none
with_list led b (some ps) = some (record led { led_list = ps }, b)

-- `ledList->ShowAdd(line, packet, pos, timeout)` and the method's `return`.
unfoldable pub queue : Led → ℕ → Bytes → ℕ → Bool → Outcome
queue led line packet timeout b =
    with_list led b (show_add line packet (length packet) timeout led.led_list)

abbrev pub and_then : Outcome → (Led → Outcome) → Outcome
and_then none f = none
and_then (some (led, b)) f = f led

-- `page` is what the caller passes; the page is queued twice when it is page 1.
unfoldable pub display_page : Led → ℕ → Outcome
unfolding queue
display_page led page =
    if int_eq led.oldpage (pos page)
    then some (led, true)
    else and_then (queue (record led { oldpage = pos page }) 7 (page_packet page) 150 true)
        (λ l. if page == 1 then queue l 7 (page_packet page) 150 true else some (l, true))

-- The pair of bytes that a switch case stores: `first` is the byte complemented in the last branch.
unfoldable pub relay_pair : ℕ → ℕ → (ℕ → ℕ) → Pair
relay_pair value sec first =
    if value == 0
    then (0xFD, 0x02)
    else if sec == 0
    then (0xFC, 0x03)
    else ((0xB0 + sec * 2) % 256, sub8 0xFF (first ((0xB0 + sec * 2) % 256)))

unfoldable pub queue_relays : Led → Outcome
unfolding queue
queue_relays led = queue led 8 (relay_packet led.relay1 led.relay2 led.relay3) 150 true

-- Cases 2 and 3 complement `Relay1[0]`, as the source does.
unfoldable pub display_set_relay : Led → ℕ → ℕ → ℕ → Outcome
unfolding relay_pair
display_set_relay led bit value sec =
    if bit == 1
    then queue_relays (record led { relay1 = relay_pair value sec (λ own. own) })
    else if bit == 2
    then queue_relays (record led { relay2 = relay_pair value sec (λ own. led.relay1.0) })
    else if bit == 3
    then queue_relays (record led { relay3 = relay_pair value sec (λ own. led.relay1.0) })
    else some (led, false)

unfoldable pub display_switch : Led → ℕ → Outcome
unfolding queue
display_switch led status = queue led 9 (switch_packet status) 150 true

-- It returns 0.
unfoldable pub display_bright : Led → ℕ → ℕ → Outcome
unfolding queue
display_bright led mode size = queue led 10 (bright_packet mode size) 150 false

-- The size of `display_data` and of `voice_data`.
abbrev pub array_size : ℕ
array_size = 1024

unfoldable pub display_fast : Led → ℕ → ℕ → ℕ → Bytes → ℕ → Outcome
unfolding queue
display_fast led line font colour bytes data_len =
    if ltb array_size (data_len + 24)
    then none
    else queue led line (fast_packet line font colour bytes data_len) 80 false

unfoldable pub display_specially : Led → ℕ → ℕ → ℕ → ℕ → Bytes → ℕ → Outcome
unfolding queue
display_specially led line font colour specially bytes data_len =
    if ltb array_size (data_len + 84)
    then none
    else queue led line (specially_packet line font colour specially bytes data_len) 450 false

-- `char buf[128]` takes a copy for the log.
unfoldable pub disply_show : Led → ℕ → ℕ → ℕ → ℕ → Bytes → ℕ → Outcome
unfolding display_fast display_specially
disply_show led line font colour specially bytes data_len =
    if ltb 128 data_len
    then none
    else if led.display_mode == 0
    then display_fast led line font colour bytes data_len
    else display_specially led line font colour (if ltb 20 data_len then 1 else specially) bytes
        data_len

clear_line : Led → ℕ → ℕ → Outcome
unfolding display_fast display_specially
clear_line led line n =
    if led.display_mode == 0
    then display_fast led line 0 1 (replicate 16 0x20) n
    else display_specially led line 0 1 9 (replicate 16 0x20) n

unfoldable pub display_clear : Led → ℕ → Outcome
unfolding clear_line
display_clear led line =
    if line == 0
    then and_then (clear_line led 1 8) (λ l1. and_then (clear_line l1 2 8) (λ l2.
      and_then (clear_line l2 3 8) (λ l3. and_then (clear_line l3 4 8) (λ l4. some (l4, true)))))
    else clear_line led line 2

-- `char buf[512]` takes a copy for the log, after the packet is queued.
unfoldable pub voice_play : Led → ℕ → Bytes → ℕ → Outcome
unfolding queue
voice_play led mode bytes data_len =
    if ltb array_size (data_len + 26)
    then none
    else if ltb 512 data_len
    then none
    else queue led 1 (voice_packet mode bytes data_len) 150 true

unfoldable pub traffic_led : Led → ℕ → ℕ → Outcome
unfolding queue
traffic_led led line mode = queue led 2 (traffic_packet line mode) 150 true
