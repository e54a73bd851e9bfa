-- ===== src/Log/Blocks.antt =====
-- The block of `write_to_file` in src/Log_Message.cpp: the file that it goes to.
use imachine_hb_f.Checksum.{Bytes}
use imachine_hb_f.Log.File.{
  Stamp, LogName, LogFile, FileEffect, closed, stored, swept, Disk, Writer, effect, open_log,
  date_sum, day_file, next_file, small_file, store, with_head, store_block, finish, write_to_file,
}
use imachine_hb_f.Log.Rotation.{Below, Ends, small_file-Ends}
use imachine_hb_f.Prelude.{
  ℕ, suc, ◌+◌, ◌<◌, ◌≡◌, ◌⊎◌, refl, sym, ap, ◌∙◌, inl, inr, Bool, Bool-cases, Option-cases, true,
  false, Option, none, some, List, [], ◌∷◌, ◌++◌, length, take, take-length, ltb, arith, ◌==◌,
}

-- The file of today, or the one that was open on a day with the same sum of year, month and day.
abbrev pub DatedName : Stamp → Stamp → LogName → Type 0
DatedName before today name = (name.stamp ≡ today) ⊎ (date_sum before ≡ date_sum today)

abbrev Dated : Stamp → Stamp → Option LogFile → Type 0
Dated before today none = Unit
Dated before today (some f) = DatedName before today f.name

-- What the choice of the file keeps of the writer before.
record Chosen (w : Writer) (today : Stamp) (v : Writer) : Type 0 where
  dated : Dated w.stamp today v.log_fp
  head : v.log_head_line ≡ w.log_head_line

open_log-Chosen :
    (d : Disk) (today : Stamp) (w v : Writer)
    → v.log_head_line ≡ w.log_head_line
    → Chosen w today (open_log d today v)
unfolding open_log
open_log-Chosen d today w v h =
    elim (Bool-cases (d.opens (record { stamp = today; count = v.count }))) [
      | inl e ↦ rw (e, open_log) (record { dated = inl refl; head = h })
      | inr e ↦ rw (e, open_log) (record { dated = tt; head = h })
    ]

day_file-Chosen : (d : Disk) (today : Stamp) (w : Writer) → Chosen w today (day_file d today w)
unfolding day_file
day_file-Chosen d today w = elim (Option-cases w.log_fp) [
  | inl k ↦
      let q : day_file d today w ≡ open_log d today (record w { count = 1 }) = simp (k, day_file) in
      rw q (open_log-Chosen d today w (record w { count = 1 }) refl)
  | inr (f, k) ↦ elim (Bool-cases (date_sum w.stamp == date_sum today)) [
    | inl e ↦
        let q : day_file d today w ≡ w = simp (k, e, day_file) in
        rw q (record { dated = rw k (inr (ground (arith, e))); head = refl })
    | inr e ↦
        let v : Writer =
          effect swept (effect (closed f.name) (record w { count = 1; is_new = true })) in
        let q : day_file d today w ≡ open_log d today v = simp (k, e, day_file) in
        rw q (open_log-Chosen d today w v refl)
  ]
]

-- A block that has been written: it stands whole at the end of the open file.
pub record IsStored (w : Writer) (today : Stamp) (block : Bytes) (v : Writer) : Type 0 where
  pub file : LogFile
  pub open_file : v.log_fp ≡ some file
  pub before : List FileEffect
  pub last : v.effects ≡ before ++ stored file.name block ∷ []
  pub dated : DatedName w.stamp today file.name
  pub size : file.pos < 31457280 + length w.log_head_line + length block

store_block-IsStored :
    (w : Writer) (today : Stamp) (d : Disk) (block : Bytes) (f : LogFile) (v : Writer)
    → DatedName w.stamp today f.name
    → f.pos < 31457280 + length w.log_head_line
    → (store_block d block f v).0 ≡ true
    → IsStored w today block (store_block d block f v).1
unfolding store_block
store_block-IsStored w today d block f v h k e = elim (Bool-cases (ltb d.free_space 30)) [
  | inl m ↦ let n = (rw (m, store_block) at e) in cc
  | inr m ↦
      let q : store_block d block f v
          ≡ (d.fwrite block == length block, store f (take (d.fwrite block) block) v) =
        simp (m, store_block) in
      let n : (d.fwrite block == length block) ≡ true =
        ap (λ (r : Bool × Writer). r.0) (sym q) ∙ e in
      let t : take (d.fwrite block) block ≡ block =
        take-length (d.fwrite block) block (ground (arith, n)) in
      rw (q, t)
        (record {
          file = record f { pos = f.pos + length block };
          open_file = refl;
          before = v.effects;
          last = refl;
          dated = h;
          size = omega (arith, k);
        })
]

finish-IsStored :
    (w : Writer) (today : Stamp) (d : Disk) (block : Bytes) (v : Writer)
    → Chosen w today v
    → Below v.log_fp
    → (finish d block v).0 ≡ true
    → IsStored w today block (finish d block v).1
unfolding finish with_head
finish-IsStored w today d block v h b e = elim (Option-cases v.log_fp) [
  | inl k ↦ let q : finish d block v ≡ (false, v) = simp (k, finish) in let n = (rw q at e) in cc
  | inr (f, k) ↦
      let dated : DatedName w.stamp today f.name = rw k at h.dated in
      let below : f.pos < 31457280 = rw k at b in
      elim (Bool-cases v.is_new) [
        | inl m ↦
            let g : LogFile = record f { pos = f.pos + length v.log_head_line } in
            let u : Writer = record (store f v.log_head_line v) { is_new = false } in
            let q : finish d block v ≡ store_block d block g u = simp (k, m, finish, with_head) in
            let n : length v.log_head_line ≡ length w.log_head_line = ap length h.head in
            rw q
              (store_block-IsStored w today d block g u dated (omega (arith, below, n)) (rw q at e))
        | inr m ↦
            let q : finish d block v ≡ store_block d block f v = simp (k, m, finish, with_head) in
            rw q (store_block-IsStored w today d block f v dated (omega (arith, below)) (rw q at e))
      ]
]

abbrev pub Reports : Writer → Stamp → Bytes → Option (Bool × Writer) → Type 0
Reports w today block none = ⊥
Reports w today block (some (true, v)) = IsStored w today block v
Reports w today block (some (false, v)) = Unit

report :
    (w : Writer) (today : Stamp) (block : Bytes) (r : Bool × Writer)
    → (r.0 ≡ true → IsStored w today block r.1)
    → Reports w today block (some r)
report w today block (true, v) h = h refl
report w today block (false, v) h = tt

-- When the files of today beyond some number are not full, `write_to_file` comes to an end with fuel for
-- that many files and one more; and if it returns true, the block stands whole at the end of the
-- journal, in the file that is open, which is one of today, or the one that was open on an earlier day
-- whose year, month and day have the same sum; and that file is less than 30 megabytes, one head line
-- and this block long.
pub write_to_file-Reports :
    (k : ℕ) (d : Disk) (today : Stamp) (block : Bytes) (w : Writer)
    → ((c : ℕ) → k < c → d.size (record { stamp = today; count = c }) < 31457280)
    → Reports w today block (write_to_file (suc k) d today block w)
unfolding write_to_file
write_to_file-Reports k d today block w h = ends (small_file (suc k) d today v) (
    small_file-Ends (Chosen w today) d today next k v (day_file-Chosen d today w)
      (h (v.count + suc k) (omega arith)))
  where
    v : Writer
    v = day_file d today w

    next : (f : LogFile) (u : Writer) → Chosen w today u → Chosen w today (next_file d today f u)
    next f u c =
        open_log-Chosen d today w (effect (closed f.name) (record u { count = u.count + 1 })) c.head

    ends :
        (o : Option Writer)
        → Ends (Chosen w today) o
        → Reports w today block (elim o [ none ↦ none | some u ↦ some (finish d block u) ])
    ends none c = c
    ends (some u) (c, b) =
        report w today block (finish d block u) (finish-IsStored w today d block u c b)
