-- ===== src/Led/Queue.antt =====
-- What the operations of src/QYLED.cpp leave in the task list.
use imachine_hb_f.Checksum.{Bytes}
use imachine_hb_f.Klist.{show_add, node_change}
use imachine_hb_f.Klist.Mailbox.{pending, IsMailbox, pending-node_change, node_change-IsMailbox}
use imachine_hb_f.Led.{
  Led, Outcome, queue, display_switch, display_bright, display_specially, disply_show, voice_play,
  traffic_led,
}
use imachine_hb_f.Led.Layout.{
  IsPacket, switch_packet-IsPacket, bright_packet-IsPacket, traffic_packet-IsPacket,
}
use imachine_hb_f.Led.Texts.{
  specially_packet-IsPacket, voice_packet-IsPacket, length-specially_packet, length-voice_packet,
}
use imachine_hb_f.Led.Packets.{
  switch_packet, bright_packet, specially_packet, voice_packet, traffic_packet,
}
use imachine_hb_f.Prelude.{
  ℕ, ◌+◌, ◌≤◌, ◌≡◌, ◌≢◌, refl, Bool, true, false, some, length, take-length, arith, ◌==◌, ltb,
  if◌then◌else◌,
}

-- The operation returns `b`, and leaves a packet of the right layout waiting for the line, with its
-- timeout; the other lines wait for what they waited for.
pub record Queued (led : Led) (line time_out : ℕ) (packet : Bytes) (b : Bool) (o : Outcome)
    : Type 0 where
  pub after : Led
  pub returns : o ≡ some (after, b)
  pub layout : IsPacket packet
  pub waits :
      (k : ℕ)
      → pending after.led_list k ≡ (
          if line == k
          then some (record { time_out = time_out; qled_data = packet })
          else pending led.led_list k)
  pub mailbox : IsMailbox led.led_list → IsMailbox after.led_list
  pub mode : after.display_mode ≡ led.display_mode

queue_lem :
    (led : Led) (line : ℕ) (packet : Bytes) (timeout : ℕ) (b : Bool)
    → length packet ≤ 1024
    → queue led line packet timeout b
      ≡ some (
        record led {
          led_list =
              node_change line (record { time_out = timeout; qled_data = packet }) led.led_list;
        },
        b,
      )
unfolding queue show_add
queue_lem led line packet timeout b h =
    ground (arith, take-length (length packet) packet (omega arith))

pub queue-Queued :
    (led : Led) (line : ℕ) (packet : Bytes) (timeout : ℕ) (b : Bool)
    → length packet ≤ 1024
    → IsPacket packet
    → Queued led line timeout packet b (queue led line packet timeout b)
queue-Queued led line packet timeout b h w = record {
  after = record led {
    led_list = node_change line (record { time_out = timeout; qled_data = packet }) led.led_list;
  };
  returns = queue_lem led line packet timeout b h;
  layout = w;
  waits = pending-node_change line (record { time_out = timeout; qled_data = packet }) led.led_list;
  mailbox =
      node_change-IsMailbox line (record { time_out = timeout; qled_data = packet }) led.led_list;
  mode = refl;
}

display_specially-queue :
    (led : Led) (line font colour specially : ℕ) (bytes : Bytes) (data_len : ℕ)
    → data_len ≤ 940
    → display_specially led line font colour specially bytes data_len
      ≡ queue led line (specially_packet line font colour specially bytes data_len) 450 false
unfolding display_specially
display_specially-queue led line font colour specially bytes data_len h =
    let e : ltb 1024 (data_len + 84) ≡ false = ground arith in rw e refl

-- `DisplaySpecially` queues a text of up to 940 bytes.
pub display_specially-Queued :
    (led : Led) (line font colour specially : ℕ) (bytes : Bytes) (data_len : ℕ)
    → data_len ≤ length bytes
    → data_len ≤ 940
    → Queued led line 450
        (specially_packet line font colour specially bytes data_len)
        false
        (display_specially led line font colour specially bytes data_len)
display_specially-Queued led line font colour specially bytes data_len h l =
    rw (display_specially-queue led line font colour specially bytes data_len l) (
      queue-Queued led line (specially_packet line font colour specially bytes data_len) 450 false
        (omega (arith, length-specially_packet line font colour specially bytes data_len h))
        (specially_packet-IsPacket line font colour specially bytes data_len h (omega arith)))

-- The effect that `DisplyShow` asks for: a long text always moves.
abbrev pub effect : ℕ → ℕ → ℕ
effect specially data_len = if ltb 20 data_len then 1 else specially

disply_show-display_specially :
    (led : Led) (line font colour specially : ℕ) (bytes : Bytes) (data_len : ℕ)
    → data_len ≤ 128
    → led.display_mode ≢ 0
    → disply_show led line font colour specially bytes data_len
      ≡ display_specially led line font colour (effect specially data_len) bytes data_len
unfolding disply_show
disply_show-display_specially led line font colour specially bytes data_len h m =
    let e : ltb 128 data_len ≡ false = ground arith in
    let f : (led.display_mode == 0) ≡ false = ground arith in rw (e, f) refl

-- With the display in its normal mode, `DisplyShow` queues a text of at most 128 bytes as one well
-- laid out packet for its line, with timeout 450 and the effect 1 where the text is longer than 20
-- bytes; the other lines are left, and the method returns false.
pub disply_show-Queued :
    (led : Led) (line font colour specially : ℕ) (bytes : Bytes) (data_len : ℕ)
    → data_len ≤ length bytes
    → data_len ≤ 128
    → led.display_mode ≢ 0
    → Queued led line 450
        (specially_packet line font colour (effect specially data_len) bytes data_len)
        false
        (disply_show led line font colour specially bytes data_len)
disply_show-Queued led line font colour specially bytes data_len h l m =
    rw (disply_show-display_specially led line font colour specially bytes data_len l m) (
      display_specially-Queued led line font colour (effect specially data_len) bytes data_len h
        (omega arith))

voice_play-queue :
    (led : Led) (mode : ℕ) (bytes : Bytes) (data_len : ℕ)
    → data_len ≤ 512
    → voice_play led mode bytes data_len ≡ queue led 1 (voice_packet mode bytes data_len) 150 true
unfolding voice_play
voice_play-queue led mode bytes data_len h =
    let e : ltb 1024 (data_len + 26) ≡ false = ground arith in
    let f : ltb 512 data_len ≡ false = ground arith in rw (e, f) refl

-- `VoicePlay` queues a text of at most 512 bytes as one well laid out packet for line 1, that of
-- the first row of the display, with timeout 150; the other lines are left, and the method returns
-- true.
pub voice_play-Queued :
    (led : Led) (mode : ℕ) (bytes : Bytes) (data_len : ℕ)
    → data_len ≤ length bytes
    → data_len ≤ 512
    → Queued led 1 150 (voice_packet mode bytes data_len) true (voice_play led mode bytes data_len)
voice_play-Queued led mode bytes data_len h l = rw (voice_play-queue led mode bytes data_len l) (
    queue-Queued led 1 (voice_packet mode bytes data_len) 150 true
      (omega (arith, length-voice_packet mode bytes data_len h))
      (voice_packet-IsPacket mode bytes data_len h (omega arith)))

pub display_bright-Queued :
    (led : Led) (mode size : ℕ)
    → Queued led 10 150 (bright_packet mode size) false (display_bright led mode size)
display_bright-Queued led mode size =
    unfold display_bright in
    queue-Queued led 10 (bright_packet mode size) 150 false (unfold bright_packet in omega arith)
      (bright_packet-IsPacket mode size)

pub display_switch-Queued :
    (led : Led) (status : ℕ)
    → Queued led 9 150 (switch_packet status) true (display_switch led status)
display_switch-Queued led status =
    unfold display_switch in
    queue-Queued led 9 (switch_packet status) 150 true (unfold switch_packet in omega arith)
      (switch_packet-IsPacket status)

pub traffic_led-Queued :
    (led : Led) (line mode : ℕ)
    → Queued led 2 150 (traffic_packet line mode) true (traffic_led led line mode)
traffic_led-Queued led line mode =
    unfold traffic_led in
    queue-Queued led 2 (traffic_packet line mode) 150 true (unfold traffic_packet in omega arith)
      (traffic_packet-IsPacket line mode)
