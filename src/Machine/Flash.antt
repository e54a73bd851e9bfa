-- ===== src/Machine/Flash.antt =====
-- No frame ever makes `FlashLight` of src/IMachine.cpp switch its line on: `Analysis` hands the handler the
-- byte 0x07 that selected it, and the handler switches the light on for 0x01 only.
use imachine_hb_f.Checksum.{Bytes, byte, bcc_data_check}
use imachine_hb_f.Led.{Outcome}
use imachine_hb_f.Machine.{Machine, in_charge}
use imachine_hb_f.Machine.Dispatch.{
  Env, Analysed, analysis, after_handler, device, is_device, reply, reply_if, device_type,
  communication_analysis,
}
use imachine_hb_f.Machine.Handlers.{
  Reply, Handled, balus_trade, traffic_control, flash_light_control, display_voice, voice_data,
  display_control, geometry, show_screen, with_screen,
}
use imachine_hb_f.Machine.Send.{communication_send}
use imachine_hb_f.Prelude.{
  ℕ, ◌-◌, ◌≡◌, ◌≢◌, inl, inr, Bool, true, false, Bool-cases, Option-cases, Option, none, some, [],
  drop, ltb, get_or-drop, arith, ◌==◌, if◌then◌else◌,
}

-- What a step that may fault does to the light: it leaves a dark light dark.
abbrev IsDark : Machine → Type 0
IsDark m = m.flash_light.level ≡ false

abbrev HandledDark : Option Handled → Type 0
HandledDark none = Unit {0}
HandledDark (some (m, r, z)) = IsDark m

abbrev AnalysedDark : Option Analysed → Type 0
AnalysedDark none = Unit {0}
AnalysedDark (some (m, r)) = IsDark m

abbrev MachineDark : Option Machine → Type 0
MachineDark none = Unit {0}
MachineDark (some m) = IsDark m

barrier-IsDark :
    (m : Machine) (cmd : Bytes) (oput : Reply) → IsDark m → IsDark (balus_trade m cmd oput).0
unfolding balus_trade
barrier-IsDark m cmd oput d = ground arith

traffic-IsDark :
    (m : Machine) (cmd : Bytes) (oput : Reply) → IsDark m → IsDark (traffic_control m cmd oput).0
unfolding traffic_control
traffic-IsDark m cmd oput d = ground arith

light-IsDark :
    (m : Machine) (cmd : Bytes) → byte cmd 0 ≢ 1 → IsDark m → IsDark (flash_light_control m cmd).0
unfolding flash_light_control
light-IsDark m cmd h d = ground arith

voice-HandledDark :
    (throws : Bool) (m : Machine) (cmd : Bytes) (cmd_len : ℕ)
    → IsDark m
    → HandledDark (display_voice throws m cmd cmd_len)
unfolding display_voice
voice-HandledDark throws m cmd cmd_len d = elim (Option-cases (voice_data cmd 2 (cmd_len - 2) [])) [
  | inl e ↦ rw (e, display_voice) tt
  | inr (text, e) ↦ rw (e, display_voice) d
]

screen-HandledDark : (m : Machine) (o : Outcome) → IsDark m → HandledDark (with_screen m o)
unfolding with_screen
screen-HandledDark m none d = tt
screen-HandledDark m (some (led, b)) d = d

control-HandledDark :
    (now : ℕ) (m : Machine) (cmd : Bytes) (cmd_len : ℕ) (oput : Reply)
    → IsDark m
    → HandledDark (display_control now m cmd cmd_len oput)
unfolding display_control
control-HandledDark now m cmd cmd_len oput d = elim (Option-cases (geometry (byte cmd 0))) [
  | inl e ↦ rw (e, display_control) d
  | inr (g, e) ↦
      rw (e, display_control)
        (screen-HandledDark
          (record m {
            displaying_default_content = false;
            reset_timer = true;
            last_play_time = now;
          })
          (show_screen g cmd cmd_len m.led) d)
]

after-AnalysedDark : (o : Option Handled) → HandledDark o → AnalysedDark (after_handler o)
unfolding after_handler
after-AnalysedDark none d = tt
after-AnalysedDark (some (m, r, z)) d = d

device-AnalysedDark :
    (env : Env) (m : Machine) (cmd : Bytes) (cmd_len : ℕ) (oput : Reply) (checked : Bool)
    → IsDark m
    → AnalysedDark (device env m cmd cmd_len oput checked)
unfolding device
device-AnalysedDark env m cmd cmd_len oput false d = ground arith
device-AnalysedDark env m cmd cmd_len oput true d = elim (Bool-cases (byte cmd 4 == 0x07)) [
  | inl e ↦ rw e (light-IsDark m (drop 4 cmd) (λ q. ground (arith, get_or-drop 4 cmd 0 0)) d)
  | inr e ↦ elim (Bool-cases (byte cmd 4 == 0x53)) [
    | inl f ↦
        rw (e, f)
          (after-AnalysedDark _ (voice-HandledDark env.throws m (drop 4 cmd) (cmd_len - 7) d))
    | inr f ↦ elim (Bool-cases (byte cmd 4 == 0x44)) [
      | inl g ↦
          rw (e, f, g) (after-AnalysedDark _ (control-HandledDark env.now m (drop 4 cmd) 42 oput d))
      | inr g ↦ elim (Bool-cases (byte cmd 4 == 0x64)) [
        | inl h ↦
            rw (e, f, g, h)
              (after-AnalysedDark _ (control-HandledDark env.now m (drop 4 cmd) 71 oput d))
        | inr h ↦ rw (e, f, g, h) d
      ]
    ]
  ]
]

analysis-AnalysedDark :
    (env : Env) (m : Machine) (cmd : Bytes) (cmd_len : ℕ) (oput : Reply)
    → IsDark m
    → AnalysedDark (analysis env m cmd cmd_len oput)
unfolding analysis
analysis-AnalysedDark env m cmd cmd_len oput d = elim (Bool-cases (ltb cmd_len 1)) [
  | inl e ↦ rw e d
  | inr e ↦ elim (Bool-cases (is_device cmd)) [
    | inl f ↦
        rw (e, f)
          (device-AnalysedDark env m cmd cmd_len oput (bcc_data_check cmd 0 cmd_len 0 == 1) d)
    | inr f ↦ elim (Bool-cases (byte cmd 0 == 0xA3)) [
      | inl g ↦ rw (e, f, g) (barrier-IsDark m cmd oput d)
      | inr g ↦ elim (Bool-cases (byte cmd 0 == 0xAE)) [
        | inl h ↦ rw (e, f, g, h) (traffic-IsDark m cmd oput d)
        | inr h ↦ rw (e, f, g, h) d
      ]
    ]
  ]
]

reply-IsDark :
    (tx_seq type : ℕ) (ip : Bytes) (a : Analysed) → IsDark a.0 → IsDark (reply tx_seq type ip a)
unfolding reply communication_send
reply-IsDark tx_seq type ip (m, r) d = ground arith

reply_if-MachineDark :
    (tx_seq type : ℕ) (ip : Bytes) (o : Option Analysed)
    → AnalysedDark o
    → MachineDark (reply_if tx_seq type ip o)
unfolding reply_if
reply_if-MachineDark tx_seq type ip none d = tt
reply_if-MachineDark tx_seq type ip (some a) d = reply-IsDark tx_seq type ip a d

frame-MachineDark :
    (env : Env) (m : Machine) (cmd : Bytes) (cmd_len : ℕ) (ip : Bytes)
    → IsDark m
    → MachineDark (communication_analysis env m cmd cmd_len ip)
unfolding communication_analysis
frame-MachineDark env m cmd cmd_len ip d = elim (Bool-cases (byte cmd 8 == 0xA4)) [
  | inl a ↦ elim (Bool-cases (in_charge m ip)) [
    | inl h ↦ elim (Option-cases (device_type (byte cmd 13))) [
      | inl t ↦ rw (a, h, t, communication_analysis) d
      | inr (type, t) ↦
          rw (a, h, t, communication_analysis)
            (reply_if-MachineDark (byte cmd 3) type ip _
              (analysis-AnalysedDark env m (drop 9 cmd) (cmd_len - 10) (0, 0) d))
    ]
    | inr h ↦ rw (a, h) (reply-IsDark (byte cmd 3) env.unset_type ip (m, (0, 0)) d)
  ]
  | inr a ↦ elim (Bool-cases (byte cmd 8 == 0xA3)) [
    | inl b ↦ rw (a, b) (reply_if-MachineDark (byte cmd 3) 0xD3 ip _ guarded)
    | inr b ↦ elim (Bool-cases (byte cmd 8 == 0xAE)) [
      | inl c ↦ rw (a, b, c) (reply_if-MachineDark (byte cmd 3) 0xDE ip _ guarded)
      | inr c ↦ rw (a, b, c) d
    ]
  ]
]
  where
    guarded :
        AnalysedDark
          (if in_charge m ip then analysis env m (drop 8 cmd) cmd_len (0, 0) else some (m, (0, 0)))
    guarded = elim (Bool-cases (in_charge m ip)) [
      | inl h ↦ rw h (analysis-AnalysedDark env m (drop 8 cmd) cmd_len (0, 0) d)
      | inr h ↦ rw h d
    ]

-- Whatever frame comes from whatever client, the program never switches the warning light on through the object
-- `FlashLight`: if what was last written through it, to its line, was off, it is so afterwards. Where the
-- configuration gives `FlashLight` the output of another device, as the defaults do with that of the relay that
-- lowers the barrier, that device's own writes still reach the line.
pub communication_analysis-flash_light :
    (env : Env) (m n : Machine) (cmd : Bytes) (cmd_len : ℕ) (ip : Bytes)
    → m.flash_light.level ≡ false
    → communication_analysis env m cmd cmd_len ip ≡ some n
    → n.flash_light.level ≡ false
communication_analysis-flash_light env m n cmd cmd_len ip d e =
    rw e at (frame-MachineDark env m cmd cmd_len ip d)
