-- ===== src/Machine/Screen.antt =====
-- What a text command leaves on the display: `DisplayControl` of src/IMachine.cpp, row by row.
use mathlib.Core.Path.{subst}
use imachine_hb_f.Checksum.{Bytes, byte}
use imachine_hb_f.Klist.Mailbox.{pending, IsMailbox}
use imachine_hb_f.Led.{Led, Outcome, disply_show, and_then}
use imachine_hb_f.Led.Packets.{specially_packet, bright_packet}
use imachine_hb_f.Led.Queue.{Queued, effect, disply_show-Queued, display_bright-Queued}
use imachine_hb_f.Machine.{Machine}
use imachine_hb_f.Prelude.Int.{pos}
use imachine_hb_f.Machine.Handlers.{
  Reply, with_screen, display_control, upper_d, lower_d, Geometry, geometry, show_lines,
  show_screen,
}
use imachine_hb_f.Klist.{Payload}
use imachine_hb_f.Prelude.{
  ℕ, zero, suc, ◌+◌, ◌-◌, ◌*◌, ◌≤◌, ◌<◌, ◌≡◌, ◌≢◌, refl, ap, ◌∙◌, ◌⊎◌, inl, inr, true, false, ◌&&◌,
  some, length, drop, length-drop, arith, ◌==◌, ltb, leb, if◌then◌else◌, lt→ltb,
}

-- Row `k` of the text, counted from 1: its bytes, in the colour that the command gives the row.
abbrev pub row : Geometry → Bytes → ℕ → Payload
row g cmd k = record {
  time_out = 450;
  qled_data =
      specially_packet k g.font (byte cmd (2 + k)) (effect 9 g.chars_per_line)
        (drop (g.start + (k - 1) * g.chars_per_line) cmd) g.chars_per_line;
}

-- The rows from `line` on, `n` of them, are queued, and nothing else is.
record Shown (g : Geometry) (cmd : Bytes) (n line : ℕ) (led : Led) (o : Outcome) : Type 0 where
  after : Led
  returns : o ≡ some (after, false)
  waits :
      (k : ℕ)
      → pending after.led_list k
        ≡ (if leb line k && ltb k (line + n) then some (row g cmd k) else pending led.led_list k)
  mailbox : IsMailbox led.led_list → IsMailbox after.led_list
  mode : after.display_mode ≡ led.display_mode

-- The text fills its rows exactly, and a row is no longer than the log's copy of it.
record Fits (g : Geometry) (cmd : Bytes) (cmd_len n line i : ℕ) : Type 0 where
  positive : 0 < line
  place : i ≡ g.start + (line - 1) * g.chars_per_line
  filled : i + n * g.chars_per_line ≡ cmd_len
  present : cmd_len ≤ length cmd
  narrow : g.chars_per_line ≤ 128
  margin : g.start < g.chars_per_line

show_row :
    (g : Geometry) (cmd : Bytes) (cmd_len n line i : ℕ) (led : Led)
    → Fits g cmd cmd_len (suc n) line i
    → led.display_mode ≢ 0
    → Queued led line 450
        (row g cmd line).qled_data
        false
        (disply_show led line g.font (byte cmd (2 + line)) 9 (drop i cmd) g.chars_per_line)
show_row g cmd cmd_len n line i led f m = rw f.place (
    disply_show-Queued led line g.font (byte cmd (2 + line)) 9
      (drop (g.start + (line - 1) * g.chars_per_line) cmd) g.chars_per_line
      (grind (
        arith,
        length-drop (g.start + (line - 1) * g.chars_per_line) cmd,
        f.place,
        f.filled,
        f.present,
      ))
      f.narrow m)

row_length : (chars left : ℕ) → chars ≤ left → (if ltb chars left then chars else left) ≡ chars
row_length chars left h = ground arith

show_lines-step :
    (g : Geometry) (cmd : Bytes) (cmd_len n line i : ℕ) (led : Led)
    → Fits g cmd cmd_len (suc n) line i
    → show_lines g cmd cmd_len (suc n) line i led
      ≡ and_then
          (disply_show led line g.font (byte cmd (2 + line)) 9 (drop i cmd) g.chars_per_line)
          (λ l. show_lines g cmd cmd_len n (line + 1) (i + g.chars_per_line) l)
unfolding show_lines
show_lines-step g cmd cmd_len n line i led f =
    let e : (if ltb g.chars_per_line (cmd_len - i) then g.chars_per_line else cmd_len - i)
        ≡ g.chars_per_line =
      row_length g.chars_per_line (cmd_len - i) (omega (arith, f.filled)) in
    let t : ltb i (cmd_len - g.start) ≡ true =
      lt→ltb i (cmd_len - g.start) (omega (arith, f.filled, f.margin)) in
    rw (e, t) refl

Fits-next :
    (g : Geometry) (cmd : Bytes) (cmd_len n line i : ℕ)
    → Fits g cmd cmd_len (suc n) line i
    → Fits g cmd cmd_len n (line + 1) (i + g.chars_per_line)
Fits-next g cmd cmd_len n line i f = record {
  positive = omega arith;
  place = omega (
    arith,
    f.place,
    ap (λ (t : ℕ). t * g.chars_per_line) (let e : line + 1 - 1 ≡ line - 1 + 1 = omega arith in e),
  );
  filled = omega (arith, f.filled);
  present = f.present;
  narrow = f.narrow;
  margin = f.margin;
}

show_lines-Shown :
    (g : Geometry) (cmd : Bytes) (cmd_len n line i : ℕ) (led : Led)
    → Fits g cmd cmd_len n line i
    → led.display_mode ≢ 0
    → Shown g cmd n line led (show_lines g cmd cmd_len n line i led)
show_lines-Shown g cmd cmd_len zero line i led f m = record {
  after = led;
  returns = unfold show_lines in refl;
  waits = λ k. ground arith;
  mailbox = λ h. h;
  mode = refl;
}
show_lines-Shown g cmd cmd_len (suc n) line i led f m =
    let q = show_row g cmd cmd_len n line i led f m in
    let rest =
      show_lines-Shown g cmd cmd_len n (line + 1) (i + g.chars_per_line) q.after
        (Fits-next g cmd cmd_len n line i f) (rw q.mode m) in
    record {
      after = rest.after;
      returns = rw (show_lines-step g cmd cmd_len n line i led f, q.returns) rest.returns;
      waits = λ k. ground (arith, rest.waits k, q.waits k);
      mailbox = λ h. rest.mailbox (q.mailbox h);
      mode = rest.mode ∙ q.mode;
    }

-- The bytes of a text command for a screen: 42 and 71, which `Analysis` passes.
abbrev pub text_length : Geometry → ℕ
text_length g = g.start + g.line_count * g.chars_per_line

abbrev pub brightness : Bytes → Payload
brightness cmd = record { time_out = 150; qled_data = bright_packet 2 (byte cmd 1) }

geometry-cases : (mode : ℕ) (g : Geometry) → geometry mode ≡ some g → (upper_d ≡ g) ⊎ (lower_d ≡ g)
unfolding geometry
geometry-cases mode g e = ground arith

upper_d-Fits : (cmd : Bytes) → 42 ≤ length cmd → Fits upper_d cmd 42 3 1 6
upper_d-Fits cmd h = omega arith

lower_d-Fits : (cmd : Bytes) → 71 ≤ length cmd → Fits lower_d cmd 71 4 1 7
lower_d-Fits cmd h = omega arith

geometry-Fits :
    (mode : ℕ) (g : Geometry) (cmd : Bytes)
    → geometry mode ≡ some g
    → text_length g ≤ length cmd
    → Fits g cmd (text_length g) g.line_count 1 g.start
geometry-Fits mode g cmd e h = elim (geometry-cases mode g e) [
  | inl q ↦
      subst (λ t. Fits t cmd (text_length t) t.line_count 1 t.start) q
        (upper_d-Fits cmd (rw (← q) at h))
  | inr q ↦
      subst (λ t. Fits t cmd (text_length t) t.line_count 1 t.start) q
        (lower_d-Fits cmd (rw (← q) at h))
]

-- What a text command leaves waiting in the task list: each row of its screen under the row's
-- number, the brightness under 10, and every other line as it was.
pub record Screened (g : Geometry) (cmd : Bytes) (led after : Led) : Type 0 where
  pub waits :
      (k : ℕ)
      → pending after.led_list k ≡ (
          if k == 10
          then some (brightness cmd)
          else if leb 1 k && ltb k (1 + g.line_count)
          then some (row g cmd k)
          else pending led.led_list k)
  pub mailbox : IsMailbox led.led_list → IsMailbox after.led_list
  pub mode : after.display_mode ≡ led.display_mode

show_screen-Screened :
    (g : Geometry) (cmd : Bytes) (led : Led)
    → Fits g cmd (text_length g) g.line_count 1 g.start
    → led.display_mode ≢ 0
    → (after : Led) × (show_screen g cmd (text_length g) led ≡ some (after, false))
      × Screened g cmd led after
show_screen-Screened g cmd led f m =
    let s = show_lines-Shown g cmd (text_length g) g.line_count 1 g.start led f m in
    let q = display_bright-Queued s.after 2 (byte cmd 1) in
    (
      q.after,
      unfold show_screen in rw s.returns q.returns,
      record {
        waits = λ k. ground (arith, q.waits k, s.waits k);
        mailbox = λ h. q.mailbox (s.mailbox h);
        mode = q.mode ∙ s.mode;
      },
    )

-- `DisplayControl` on a command of either screen, at the length that `Analysis` passes and with
-- the display in its normal mode: it always returns 4, with the reply bytes 0xD4 0x03; every row,
-- the brightness and the idle timer are set, every other line of the task list waits for what it
-- waited for, and nothing else of the machine changes.
pub display_control-Screened :
    (now : ℕ) (m : Machine) (cmd : Bytes) (oput : Reply) (g : Geometry)
    → geometry (byte cmd 0) ≡ some g
    → text_length g ≤ length cmd
    → m.led.display_mode ≢ 0
    → (after : Led) × Screened g cmd m.led after
      × (display_control now m cmd (text_length g) oput
          ≡ some (
            record m {
              displaying_default_content = false;
              reset_timer = true;
              last_play_time = now;
              led = after;
            },
            (0xD4, 0x03),
            pos 4,
          ))
unfolding display_control
display_control-Screened now m cmd oput g e h mode =
    let (after, r, s) =
      show_screen-Screened g cmd m.led (geometry-Fits (byte cmd 0) g cmd e h) mode in
    (after, s, rw (e, display_control) (rw (r, with_screen) refl))
