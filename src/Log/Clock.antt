-- ===== src/Log/Clock.antt =====
-- `utc_timer` of src/Log_Message.cpp, which asks for the local time once a minute. `localtime_r` is a
-- parameter.
use imachine_hb_f.Prelude.{
  ℕ, ◌/◌, ◌%◌, ◌≡◌, sym, ap, ◌∙◌, inl, inr, Bool-cases, List, [], ◌∷◌, ◌++◌, ◌==◌, if◌then◌else◌,
  arith,
}

-- `struct tm`, its year and month as the program counts them.
pub record LocalTime : Type 0 where
  pub year : ℕ
  pub mon : ℕ
  pub day : ℕ
  pub hour : ℕ
  pub min : ℕ
  pub sec : ℕ

-- The members of the class; the text is printed from them.
pub record UtcTimer : Type 0 where
  pub tm : LocalTime
  pub msec : ℕ
  pub sys_sec : ℕ
  pub sys_min : ℕ

-- `struct timeval`
pub record TimeVal : Type 0 where
  pub tv_sec : ℕ
  pub tv_usec : ℕ

unfoldable pub utc_timer : (ℕ → LocalTime) → TimeVal → UtcTimer
utc_timer localtime_r tv = record {
  tm = localtime_r tv.tv_sec;
  msec = tv.tv_usec / 1000;
  sys_sec = tv.tv_sec;
  sys_min = tv.tv_sec / 60;
}

-- A new minute.
unfoldable pub new_minute : (ℕ → LocalTime) → UtcTimer → UtcTimer
new_minute localtime_r t = if t.sys_sec / 60 == t.sys_min then t else record t {
  sys_min = t.sys_sec / 60;
  tm = record (localtime_r t.sys_sec) { sec = t.tm.sec };
}

unfoldable pub get_utc_timer : (ℕ → LocalTime) → TimeVal → UtcTimer → UtcTimer
unfolding new_minute
get_utc_timer localtime_r tv t =
    let now = record t { msec = tv.tv_usec / 1000 } in
    if tv.tv_sec == t.sys_sec
    then now
    else new_minute localtime_r
        (record now { tm = record t.tm { sec = tv.tv_sec % 60 }; sys_sec = tv.tv_sec })

unfoldable pub get_all : (ℕ → LocalTime) → List TimeVal → UtcTimer → UtcTimer
unfolding get_utc_timer
get_all localtime_r [] t = t
get_all localtime_r (tv ∷ tvs) t = get_all localtime_r tvs (get_utc_timer localtime_r tv t)

-- The zone is a whole number of minutes away from universal time, and no minute has a leap second: the
-- seconds are those of the system, and within a minute nothing else changes.
pub record WholeMinutes (localtime_r : ℕ → LocalTime) : Type 0 where
  pub seconds : (t : ℕ) → (localtime_r t).sec ≡ t % 60
  pub minutes :
      (s t : ℕ)
      → s / 60 ≡ t / 60
      → record (localtime_r s) { sec = t % 60 } ≡ record (localtime_r t) { sec = t % 60 }

abbrev showing : TimeVal → LocalTime → ℕ → ℕ → UtcTimer
showing tv tm sys_sec sys_min = record {
  tm = tm;
  msec = tv.tv_usec / 1000;
  sys_sec = sys_sec;
  sys_min = sys_min;
}

module _ (localtime_r : ℕ → LocalTime) (w : WholeMinutes localtime_r) where
  with_sec : (t : ℕ) → record (localtime_r t) { sec = t % 60 } ≡ localtime_r t
  with_sec t = ap (λ (s : ℕ). record (localtime_r t) { sec = s }) (sym (w.seconds t))

  get_utc_timer-utc_timer :
      (tv old : TimeVal)
      → get_utc_timer localtime_r tv (utc_timer localtime_r old) ≡ utc_timer localtime_r tv
  unfolding get_utc_timer new_minute utc_timer
  get_utc_timer-utc_timer tv old =
      let t : ℕ = tv.tv_sec in
      elim (Bool-cases (t == old.tv_sec)) [
        | inl e ↦
            let q : old.tv_sec ≡ t = ground (arith, e) in
            rw (e, get_utc_timer) (ap (λ (s : ℕ). showing tv (localtime_r s) s (s / 60)) q)
        | inr e ↦ elim (Bool-cases (t / 60 == old.tv_sec / 60)) [
          | inl m ↦
              let q : old.tv_sec / 60 ≡ t / 60 = ground (arith, m) in
              rw (e, get_utc_timer)
                (rw (m, new_minute)
                  (ap (λ (tm : LocalTime). showing tv tm t (old.tv_sec / 60))
                      (w.minutes old.tv_sec t q ∙ with_sec t)
                    ∙ ap (showing tv (localtime_r t) t) q))
          | inr m ↦
              rw (e, get_utc_timer)
                (rw (m, new_minute)
                  (ap (λ (tm : LocalTime). showing tv tm t (t / 60)) (with_sec t)))
        ]
      ]

  -- However often the time is asked for, and in whatever order it comes, the members are those of a timer
  -- that is made anew at the last time asked for, when the zone is a whole number of minutes away from
  -- universal time and no minute has a leap second.
  pub get_all-utc_timer :
      (tvs : List TimeVal) (tv old : TimeVal)
      → get_all localtime_r (tvs ++ tv ∷ []) (utc_timer localtime_r old) ≡ utc_timer localtime_r tv
  unfolding get_all
  get_all-utc_timer [] tv old = get_utc_timer-utc_timer tv old
  get_all-utc_timer (t ∷ tvs) tv old =
      ap (get_all localtime_r (tvs ++ tv ∷ [])) (get_utc_timer-utc_timer t old)
      ∙ get_all-utc_timer tvs tv t
