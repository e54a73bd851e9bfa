-- ===== src/Tests/Log.antt =====
-- The log with one short line, and a file that is opened for it.
use imachine_hb_f.Checksum.{Bytes}
use imachine_hb_f.Log.{Log, passes_level, log_try_append}
use imachine_hb_f.Log.Blocks.{Reports, write_to_file-Reports}
use imachine_hb_f.Log.Clock.{
  LocalTime, TimeVal, WholeMinutes, utc_timer, get_all, get_all-utc_timer,
}
use imachine_hb_f.Log.File.{Stamp, Disk, Writer, write_to_file}
use imachine_hb_f.Log.Line.{log_try_append-none_iff}
use imachine_hb_f.Log.Spool.{LogEvent, line, wake, run_log, all_of, accepted, run_log-Spooled}
use imachine_hb_f.Prelude.{
  ℕ, ◌/◌, ◌%◌, ap, ◌+◌, ◌≤◌, ◌<◌, ◌≡◌, ◌↔◌, refl, true, false, none, List, [], ◌∷◌, length, arith,
}

abbrev quiet : Log
quiet = record { level = 1; buffer = [] }

abbrev hello : Bytes
hello = 0x68 ∷ 0x69 ∷ []

log_try_append-none_iff_example :
    (log_try_append 2 hello hello quiet ≡ none) ↔ (4099 ≤ length hello + length hello)
unfolding passes_level
log_try_append-none_iff_example = log_try_append-none_iff 2 hello hello quiet refl (omega arith)

abbrev turns : List LogEvent
turns = line hello ∷ wake ∷ line hello ∷ []

run_log-Spooled_example :
    (all_of (run_log turns [] quiet) ≡ accepted turns 0)
    × (length (run_log turns [] quiet).1.buffer < 10485760)
run_log-Spooled_example = run_log-Spooled turns quiet (omega arith, (omega arith, tt)) (omega arith)

-- Every file can be opened and is empty.
abbrev empty_disk : Disk
empty_disk = record { opens = λ name. true; size = λ name. 0; free_space = 100; fwrite = length }

abbrev first_day : Stamp
first_day = record { year = 2024; mon = 1; day = 2 }

abbrev fresh : Writer
fresh = record {
  log_fp = none;
  stamp = first_day;
  count = 0;
  is_new = false;
  log_write = true;
  log_head_line = hello;
  log_head_end = hello;
  effects = [];
}

write_to_file-Reports_example :
    Reports fresh first_day hello (write_to_file 1 empty_disk first_day hello fresh)
write_to_file-Reports_example =
    write_to_file-Reports 0 empty_disk first_day hello fresh (λ c h. omega arith)

-- A zone one hour ahead, with days of a month that never ends.
abbrev one_hour : ℕ → LocalTime
one_hour t = record {
  year = 2024;
  mon = 1;
  day = t / 60 / 1440;
  hour = (t / 60 / 60 + 1) % 24;
  min = t / 60 % 60;
  sec = t % 60;
}

one_hour-WholeMinutes : WholeMinutes one_hour
one_hour-WholeMinutes = record {
  seconds = λ t. refl;
  minutes = λ s t q.
      ap
        (λ (m : ℕ). record {
          year = 2024;
          mon = 1;
          day = m / 1440;
          hour = (m / 60 + 1) % 24;
          min = m % 60;
          sec = t % 60;
        })
        q;
}

abbrev at_second : ℕ → TimeVal
at_second s = record { tv_sec = s; tv_usec = 5000 }

get_all-utc_timer_example :
    get_all one_hour
      (at_second 61 ∷ at_second 59 ∷ at_second 3600 ∷ [])
      (utc_timer one_hour (at_second 5))
    ≡ utc_timer one_hour (at_second 3600)
get_all-utc_timer_example =
    get_all-utc_timer one_hour one_hour-WholeMinutes (at_second 61 ∷ at_second 59 ∷ [])
      (at_second 3600) (at_second 5)
