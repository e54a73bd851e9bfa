-- ===== src/Config/Lines.antt =====
-- Lines, separators and white space: what the helpers of src/Get_Inifiles.cpp do with a text that is
-- put together from parts.
use imachine_hb_f.Checksum.{Bytes}
use imachine_hb_f.Config.Strip.{strip_start, strip_end, before, trim-strip}
use imachine_hb_f.Config.Text.{is_space, trim, find, split, newline, onto_first, lines}
use imachine_hb_f.Prelude.{
  ℕ, ◌+◌, ◌≡◌, ◌≢◌, refl, sym, ap, ◌∙◌, true, false, none, some, [], ◌∷◌, ◌++◌, append_assoc,
  length, length-append, drop, take-append, drop-append, arith, ◌==◌,
}

-- No byte of the text is `c`.
abbrev pub Free : ℕ → Bytes → Type 0
Free c [] = Unit
Free c (x ∷ xs) = (x ≢ c) × Free c xs

abbrev pub StartsClean : Bytes → Type 0
StartsClean [] = Unit
StartsClean (x ∷ xs) = is_space x ≡ false

-- No white space at either end.
pub record Trimmed (s : Bytes) : Type 0 where
  pub start : StartsClean s
  pub end : strip_end s ≡ s

pub Free-append : (c : ℕ) (s t : Bytes) → Free c s → Free c t → Free c (s ++ t)
Free-append c [] t h k = k
Free-append c (x ∷ xs) t h k = (h.0, Free-append c xs t h.1 k)

pub lines-append : (l rest : Bytes) → Free newline l → lines (l ++ newline ∷ rest) ≡ l ∷ lines rest
unfolding lines
lines-append [] rest h = refl
lines-append (c ∷ l) rest h =
    let e : (c == newline) ≡ false = ground (arith, h.0) in
    rw e (ap (onto_first c) (lines-append l rest h.1))

find_here : (c : ℕ) (s t : Bytes) → Free c s → find (s ++ c ∷ t) (c ∷ []) ≡ some (length s)
unfolding find
find_here c [] t h = ground arith
find_here c (x ∷ xs) t h =
    let e : (x == c) ≡ false = ground (arith, h.0) in rw (e, find) (rw (find_here c xs t h.1) refl)

find_nowhere : (c : ℕ) (s : Bytes) → Free c s → find s (c ∷ []) ≡ none
unfolding find
find_nowhere c [] h = refl
find_nowhere c (x ∷ xs) h =
    let e : (x == c) ≡ false = ground (arith, h.0) in rw (e, find) (rw (find_nowhere c xs h.1) refl)

pub drop_past : (s t : Bytes) (c : ℕ) → drop (length s + 1) (s ++ c ∷ t) ≡ t
drop_past s t c =
    ap (drop (length s + 1)) (sym (append_assoc s (c ∷ []) t))
    ∙ drop-append (length s + 1) (s ++ c ∷ []) t (omega (arith, length-append {0} s (c ∷ [])))

pub split_here :
    (c : ℕ) (s t : Bytes)
    → Free c s
    → split (s ++ c ∷ t) (c ∷ []) ≡ record { both = true; left = trim s; right = trim t }
unfolding split
split_here c s t h =
    rw (find_here c s t h, split) (rw (take-append (length s) s (c ∷ t) refl, drop_past s t c) refl)

pub split_nowhere :
    (c : ℕ) (s : Bytes)
    → Free c s
    → split s (c ∷ []) ≡ record { both = false; left = trim s; right = [] }
unfolding split
split_nowhere c s h = rw (find_nowhere c s h, split) refl

strip_start_clean : (s : Bytes) → StartsClean s → strip_start s ≡ s
unfolding strip_start
strip_start_clean [] h = refl
strip_start_clean (x ∷ xs) h = rw h refl

before_nonempty : (x c : ℕ) (s t : Bytes) → before x (s ++ c ∷ t) ≡ x ∷ (s ++ c ∷ t)
before_nonempty x c [] t = refl
before_nonempty x c (y ∷ ys) t = refl

before_clean : (c : ℕ) (t : Bytes) → is_space c ≡ false → before c t ≡ c ∷ t
before_clean c [] h = rw h refl
before_clean c (y ∷ ys) h = refl

strip_end-append :
    (s t : Bytes) (c : ℕ) → is_space c ≡ false → strip_end (s ++ c ∷ t) ≡ s ++ c ∷ strip_end t
unfolding strip_end
strip_end-append [] t c h = before_clean c (strip_end t) h
strip_end-append (x ∷ xs) t c h =
    ap (before x) (strip_end-append xs t c h) ∙ before_nonempty x c xs (strip_end t)

pub StartsClean-append :
    (s t : Bytes) (c : ℕ) → is_space c ≡ false → StartsClean s → StartsClean (s ++ c ∷ t)
StartsClean-append [] t c h k = h
StartsClean-append (x ∷ xs) t c h k = k

pub Trimmed-append :
    (s t : Bytes) (c : ℕ)
    → is_space c ≡ false
    → StartsClean s
    → strip_end t ≡ t
    → Trimmed (s ++ c ∷ t)
Trimmed-append s t c h k e = record {
  start = StartsClean-append s t c h k;
  end = strip_end-append s t c h ∙ ap (λ (r : Bytes). s ++ c ∷ r) e;
}

pub trim-Trimmed : (s : Bytes) → Trimmed s → trim s ≡ s
trim-Trimmed s h = trim-strip s ∙ ap strip_end (strip_start_clean s h.start) ∙ h.end

strip_end_space : (s : Bytes) → strip_end (s ++ 0x20 ∷ []) ≡ strip_end s
unfolding strip_end is_space
strip_end_space [] = refl
strip_end_space (x ∷ xs) = ap (before x) (strip_end_space xs)

pub trim_space : (s : Bytes) → Trimmed s → trim (s ++ 0x20 ∷ []) ≡ s
unfolding strip_start is_space
trim_space [] h = trim-strip (0x20 ∷ []) ∙ h.end
trim_space (x ∷ xs) h =
    trim-strip (x ∷ xs ++ 0x20 ∷ [])
    ∙ ap strip_end (strip_start_clean (x ∷ xs ++ 0x20 ∷ []) h.start)
    ∙ strip_end_space (x ∷ xs)
    ∙ h.end
