-- ===== src/Log/Rotation.antt =====
-- The loop of `write_to_file` in src/Log_Message.cpp that looks for a file which is not full.
use imachine_hb_f.Log.File.{
  Stamp, LogFile, closed, Disk, Writer, effect, open_log, next_file, small_file,
}
use imachine_hb_f.Prelude.{
  ℕ, zero, suc, ◌+◌, ◌<◌, ◌≡◌, refl, inl, inr, Bool-cases, Option-cases, true, Option, none, some,
  ltb, ltb→lt, lt→ltb, arith,
}

abbrev pub Below : Option LogFile → Type 0
Below none = Unit
Below (some f) = f.pos < 31457280

-- The loop comes to an end, in a state that has the property, and with an open file that is not full if
-- with any.
abbrev pub Ends : (Writer → Type 0) → Option Writer → Type 0
Ends P none = ⊥
Ends P (some v) = P v × Below v.log_fp

open_log-count : (d : Disk) (today : Stamp) (w : Writer) → (open_log d today w).count ≡ w.count
unfolding open_log
open_log-count d today w = elim (Bool-cases (d.opens (record { stamp = today; count = w.count }))) [
  | inl e ↦ rw (e, open_log) refl
  | inr e ↦ rw (e, open_log) refl
]

open_log-Below :
    (d : Disk) (today : Stamp) (w : Writer)
    → d.size (record { stamp = today; count = w.count }) < 31457280
    → Below (open_log d today w).log_fp
unfolding open_log
open_log-Below d today w h =
    elim (Bool-cases (d.opens (record { stamp = today; count = w.count }))) [
      | inl e ↦ rw (e, open_log) h
      | inr e ↦ rw (e, open_log) tt
    ]

under_limit :
    (w : Writer) (f : LogFile) → w.log_fp ≡ some f → Below w.log_fp → ltb f.pos 31457280 ≡ true
under_limit w f k b = lt→ltb f.pos 31457280 (rw k at b)

small_file-stays :
    (n : ℕ) (d : Disk) (today : Stamp) (w : Writer)
    → Below w.log_fp
    → small_file n d today w ≡ some w
unfolding small_file
small_file-stays zero d today w b = elim (Option-cases w.log_fp) [
  | inl k ↦ simp (k, small_file)
  | inr (f, k) ↦ simp (k, small_file, under_limit w f k b)
]
small_file-stays (suc n) d today w b = elim (Option-cases w.log_fp) [
  | inl k ↦ simp (k, small_file)
  | inr (f, k) ↦ simp (k, small_file, under_limit w f k b)
]

-- What every opening in the loop keeps.
module _ (P : Writer → Type 0) (d : Disk) (today : Stamp)
    (next : (f : LogFile) (w : Writer) → P w → P (next_file d today f w)) where
  small_here : (n : ℕ) (w : Writer) → P w → Below w.log_fp → Ends P (small_file n d today w)
  small_here n w h b = rw (small_file-stays n d today w b) (h, b)

  loop_step :
      (n : ℕ) (w : Writer)
      → P w
      → ((f : LogFile) → Ends P (small_file n d today (next_file d today f w)))
      → Ends P (small_file (suc n) d today w)
  unfolding small_file
  loop_step n w h later = elim (Option-cases w.log_fp) [
    | inl k ↦ rw (k, small_file) (h, rw k tt)
    | inr (f, k) ↦ elim (Bool-cases (ltb f.pos 31457280)) [
      | inl e ↦ rw (k, small_file) (rw (e, small_file) (h, rw k (ltb→lt f.pos 31457280 e)))
      | inr e ↦ rw (k, small_file) (rw (e, small_file) (later f))
    ]
  ]

  pub small_file-Ends :
      (n : ℕ) (w : Writer)
      → P w
      → d.size (record { stamp = today; count = w.count + suc n }) < 31457280
      → Ends P (small_file (suc n) d today w)
  small_file-Ends zero w h b = loop_step zero w h (λ f.
      small_here zero (next_file d today f w) (next f w h)
        (open_log-Below d today (effect (closed f.name) (record w { count = w.count + 1 })) b))
  small_file-Ends (suc n) w h b = loop_step (suc n) w h (λ f.
      let v : Writer = next_file d today f w in
      let c : v.count ≡ w.count + 1 =
        open_log-count d today (effect (closed f.name) (record w { count = w.count + 1 })) in
      let e : v.count + suc n ≡ w.count + suc (suc n) = omega (arith, c) in
      small_file-Ends n v (next f w h) (rw e b))
