-- ===== src/Machine/Idle.antt =====
-- The default text after ten idle seconds: `TimerThread` of src/IMachine.cpp, one pass at a time. A
-- pass and a text command exclude each other by `displayMutex`. The clock counts nanoseconds.
use imachine_hb_f.Checksum.{Bytes}
use imachine_hb_f.Klist.{Payload}
use imachine_hb_f.Klist.Mailbox.{pending}
use imachine_hb_f.Led.{Led, Outcome, disply_show, and_then}
use imachine_hb_f.Led.Packets.{specially_packet}
use imachine_hb_f.Led.Queue.{disply_show-Queued}
use imachine_hb_f.Machine.{Machine}
use imachine_hb_f.Prelude.{
  Bool, ℕ, ◌+◌, ◌-◌, ◌/◌, ◌≤◌, ◌≡◌, ◌≢◌, refl, true, false, Option, none, some, [], ◌∷◌, length,
  leb, arith, ◌==◌, if◌then◌else◌,
}

abbrev pub default_content1 : Bytes
default_content1 = 0x20 ∷ 0x45 ∷ 0x54 ∷ 0x43 ∷ 0x2F ∷ 0xC8 ∷ 0xCB ∷ 0xB9 ∷ 0xA4 ∷ []

abbrev pub default_content2 : Bytes
default_content2 = 0x20 ∷ 0xBB ∷ 0xEC ∷ 0xBA ∷ 0xCF ∷ 0xB3 ∷ 0xB5 ∷ 0xB5 ∷ 0xC0 ∷ 0x20 ∷ []

abbrev pub default_content3 : Bytes
default_content3 = 0xD2 ∷ 0xBB ∷ 0xB3 ∷ 0xB5 ∷ 0xD2 ∷ 0xBB ∷ 0xC2 ∷ 0xE4 ∷ 0xB8 ∷ 0xCB ∷ []

abbrev pub default_content4 : Bytes
default_content4 = 0x20 ∷ 0x20 ∷ 0x20 ∷ 0x20 ∷ 0x20 ∷ 0x20 ∷ 0x20 ∷ 0x20 ∷ 0x20 ∷ 0x20 ∷ []

unfoldable pub show_default : Led → Outcome
unfolding disply_show
show_default led = and_then (disply_show led 1 0 0x01 0x09 default_content1 9) (λ l1.
    and_then (disply_show l1 2 0 0x01 0x09 default_content2 10) (λ l2.
      and_then (disply_show l2 3 0 0x01 0x09 default_content3 10)
        (λ l3. disply_show l3 4 0 0x01 0x09 default_content4 10)))

with_default : Machine → Outcome → Option Machine
with_default m none = none
with_default m (some (led, b)) = some (record m { led = led; displaying_default_content = true })

-- The test before `displayMutex` is locked.
unfoldable pub is_due : ℕ → Machine → Bool
is_due now m = leb 10 ((now - m.last_play_time) / 1000000000)

-- Under the lock, which is held through the pauses of 450 milliseconds behind the rows.
unfoldable pub locked_pass : Machine → Option Machine
unfolding show_default with_default
locked_pass m = if m.displaying_default_content then some m else with_default m (show_default m.led)

-- A pass in which no command of a client comes between the test and the lock.
unfoldable pub timer_pass : ℕ → Machine → Option Machine
unfolding is_due locked_pass
timer_pass now m = if is_due now m then locked_pass m else some m

-- A row of the default text, as it waits in the task list.
abbrev pub default_row : ℕ → Bytes → Payload
default_row k bytes = record {
  time_out = 450;
  qled_data = specially_packet k 0 0x01 0x09 bytes (length bytes);
}

-- The four rows wait under their numbers, and every other line waits for what it waited for.
abbrev pub Defaulted : Led → Led → Type 0
Defaulted led after =
    (k : ℕ)
    → pending after.led_list k ≡ (
        if k == 1
        then some (default_row 1 default_content1)
        else if k == 2
        then some (default_row 2 default_content2)
        else if k == 3
        then some (default_row 3 default_content3)
        else if k == 4
        then some (default_row 4 default_content4)
        else pending led.led_list k)

show_default-Defaulted :
    (led : Led)
    → led.display_mode ≢ 0
    → (after : Led) × (show_default led ≡ some (after, false)) × Defaulted led after
unfolding show_default
show_default-Defaulted led h =
    let q1 = disply_show-Queued led 1 0 1 9 default_content1 9 (omega arith) (omega arith) h in
    let h1 : q1.after.display_mode ≢ 0 = rw q1.mode h in
    let q2 =
      disply_show-Queued q1.after 2 0 1 9 default_content2 10 (omega arith) (omega arith) h1 in
    let h2 : q2.after.display_mode ≢ 0 = rw q2.mode h1 in
    let q3 =
      disply_show-Queued q2.after 3 0 1 9 default_content3 10 (omega arith) (omega arith) h2 in
    let h3 : q3.after.display_mode ≢ 0 = rw q3.mode h2 in
    let q4 =
      disply_show-Queued q3.after 4 0 1 9 default_content4 10 (omega arith) (omega arith) h3 in
    (
      q4.after,
      rw (q1.returns, q2.returns, q3.returns) q4.returns,
      λ k. ground (arith, q4.waits k, q3.waits k, q2.waits k, q1.waits k),
    )

-- Ten seconds after the last text command, with the display in its normal mode, a pass that no command comes into
-- puts the four
-- rows of the default text in the task list and changes nothing else of the machine but the mark that
-- it did; and then no later pass does anything, until the mark is taken away.
pub timer_pass-Defaulted :
    (now later : ℕ) (m : Machine)
    → m.led.display_mode ≢ 0
    → m.displaying_default_content ≡ false
    → m.last_play_time + 10000000000 ≤ now
    → (after : Led) × (let n : Machine = record m {
      led = after;
      displaying_default_content = true;
    } in
        (timer_pass now m ≡ some n) × (timer_pass later n ≡ some n))
      × Defaulted m.led after
unfolding timer_pass
timer_pass-Defaulted now later m h d t =
    let (after, r, w) = show_default-Defaulted m.led h in
    let e : leb 10 ((now - m.last_play_time) / 1000000000) ≡ true = ground arith in
    (after, (rw (e, d, r) refl, ground arith), w)
