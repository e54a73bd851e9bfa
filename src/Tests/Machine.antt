-- ===== src/Tests/Machine.antt =====
-- The controller on a few frames: both clients connected, the switch at the robot's place.
use imachine_hb_f.Checksum.{Bytes, bcc_data_check}
use imachine_hb_f.Gpio.{set_on, Gpio, set_off}
use imachine_hb_f.Led.{new_led}
use imachine_hb_f.Machine.{Machine, in_charge, str_eq}
use imachine_hb_f.Machine.Commands.{driven, barrier_command}
use imachine_hb_f.Machine.Dispatch.{
  Env, reply, communication_analysis, device_type, analysis, device,
}
use imachine_hb_f.Machine.Flash.{communication_analysis-flash_light}
use imachine_hb_f.Machine.Frames.{reply_frame-bcc_data_check}
use imachine_hb_f.Machine.Handlers.{
  upper_d, geometry, display_control, display_voice, balus_trade, flash_light_control,
}
use imachine_hb_f.Machine.Interlock.{
  IsInterlocked, command, second_passes, AlwaysApart, run-AlwaysApart, handle,
}
use imachine_hb_f.Machine.Screen.{Screened, display_control-Screened}
use imachine_hb_f.Machine.Send.{reply_frame}
use imachine_hb_f.Machine.Voice.{display_voice-words}
use imachine_hb_f.Machine.Words.{voice_word, text_bytes}
use imachine_hb_f.Prelude.{◌≡◌, refl, true, false, some, [], ◌∷◌, ◌++◌, arith, replicate}
use imachine_hb_f.Prelude.Int.{pos}

abbrev line_off : Gpio
line_off = record { is_open = true; writable = true; level = false }

abbrev robot : Bytes
robot = 0x31 ∷ 0x30 ∷ []

abbrev operator : Bytes
operator = 0x31 ∷ 0x31 ∷ []

abbrev demo : Machine
demo = record {
  tcp1 = record { is_open = true; sent = [] };
  tcp2 = record { is_open = true; sent = [] };
  client1 = robot;
  client2 = operator;
  manual_switch_status = pos 0;
  balustrade_up = line_off;
  balustrade_down = line_off;
  traffic_led = line_off;
  flash_light = line_off;
  balustrade_running = false;
  displaying_default_content = true;
  reset_timer = false;
  last_play_time = 0;
  led = new_led;
  spoken = [];
}

abbrev demo_env : Env
demo_env = record { now = 100; throws = false; unset_type = 0 }

abbrev header : Bytes
header = 0xFF ∷ 0xFF ∷ 0x00 ∷ 0x10 ∷ 0x00 ∷ 0x00 ∷ 0x00 ∷ 0x02 ∷ []

abbrev raise : Bytes
raise = header ++ 0xA3 ∷ 0x01 ∷ []

demo-IsInterlocked : IsInterlocked demo
demo-IsInterlocked = record {
  apart = refl;
  up_works = λ e. (refl, refl);
  down_works = λ e. (refl, refl);
  released = λ e. (refl, refl);
}

-- Up, down before the second is over, then the expiry.
run-AlwaysApart_example :
    AlwaysApart (command (0xA3 ∷ 1 ∷ []) ∷ command (0xA3 ∷ 0 ∷ []) ∷ second_passes ∷ []) demo
run-AlwaysApart_example =
    run-AlwaysApart (command (0xA3 ∷ 1 ∷ []) ∷ command (0xA3 ∷ 0 ∷ []) ∷ second_passes ∷ []) demo
      demo-IsInterlocked

raised : (handle (command (0xA3 ∷ 1 ∷ [])) demo).balustrade_up.level ≡ true
unfolding handle balus_trade
raised = refl

operator_waits : in_charge demo operator ≡ false
unfolding in_charge str_eq
operator_waits = refl

robot_commands : in_charge demo robot ≡ true
unfolding in_charge str_eq
robot_commands = refl

-- Three rows of twelve letters in three colours.
abbrev screen : Bytes
screen = 0x44 ∷ 0x05 ∷ 0x01 ∷ 0x02 ∷ 0x03 ∷ 0x00 ∷ replicate 36 0x41

screen_geometry : geometry 0x44 ≡ some upper_d
unfolding geometry
screen_geometry = refl

display_control-Screened_example :
    (after : _) × Screened upper_d screen demo.led after
    × (display_control 100 demo screen 42 (0, 0)
        ≡ some (
          record demo {
            displaying_default_content = false;
            reset_timer = true;
            last_play_time = 100;
            led = after;
          },
          (0xD4, 0x03),
          pos 4,
        ))
unfolding new_led
display_control-Screened_example =
    display_control-Screened 100 demo screen (0, 0) upper_d screen_geometry (omega arith)
      (omega arith)

-- The barrier comes down while the next command arrives.
abbrev busy : Machine
busy = record demo { balustrade_down = (set_on line_off).0; balustrade_running = true }

robot_in_charge : in_charge busy robot ≡ true
unfolding in_charge str_eq
robot_in_charge = refl

barrier_command_example :
    communication_analysis demo_env busy raise 2 robot
    ≡ some (
        reply 0x10 0xD3 robot (
          record busy {
            balustrade_up = driven true (driven false busy.balustrade_up);
            balustrade_down = driven false (driven false busy.balustrade_down);
            balustrade_running = true;
            reset_timer = true;
          },
          (0xA3, 0x02),
        ))
barrier_command_example =
    barrier_command demo_env busy raise 2 robot robot_in_charge refl (omega arith)

-- The warning light's frame, with its inner checksum right.
abbrev light : Bytes
light = header ++ 0xA4 ∷ 0xA0 ∷ 0xB0 ∷ 0xC0 ∷ 0xD0 ∷ 0x07 ∷ 0x01 ∷ 0x06 ∷ []

abbrev after_light : Machine
after_light =
    reply 0x10 0xDF robot
      (record demo { flash_light = (set_off demo.flash_light).0; reset_timer = true }, (0xDF, 0x04))

light_handled : communication_analysis demo_env demo light 17 robot ≡ some after_light
unfolding communication_analysis in_charge str_eq device_type analysis device bcc_data_check
    flash_light_control set_off new_led
light_handled = refl

communication_analysis-flash_light_example : after_light.flash_light.level ≡ false
communication_analysis-flash_light_example =
    communication_analysis-flash_light demo_env demo after_light light 17 robot refl light_handled

-- The phrases "1" and "元".
display_voice-words_example :
    display_voice false demo (0x05 ∷ 0x00 ∷ 0x01 ∷ 0x0A ∷ []) 4
    ≡ some (record demo { spoken = (5, 0x31 ∷ 0xE5 ∷ 0x85 ∷ 0x83 ∷ []) ∷ [] }, (0xD4, 0x04), pos 4)
unfolding voice_word text_bytes
display_voice-words_example = display_voice-words false demo (0x05 ∷ 0x00 ∷ 0x01 ∷ 0x0A ∷ []) 4

reply_frame-bcc_data_check_example :
    bcc_data_check (reply_frame [] 0x10 0xD3 (0xA3 ∷ 0x02 ∷ []) 2) 2 9 0 ≡ 1
unfolding reply_frame
reply_frame-bcc_data_check_example =
    reply_frame-bcc_data_check [] 0x10 0xD3 (0xA3 ∷ 0x02 ∷ []) 2 (omega arith) tt (omega arith)
