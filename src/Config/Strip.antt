-- ===== src/Config/Strip.antt =====
-- `trim` of src/Get_Inifiles.cpp against a description of it by recursion.
use imachine_hb_f.Checksum.{Bytes, byte}
use imachine_hb_f.Config.Text.{is_space, leading, kept, trim}
use imachine_hb_f.Prelude.{
  ℕ, zero, suc, ◌≤◌, ◌≡◌, refl, ap, ◌∙◌, inl, inr, Bool-cases, [], ◌∷◌, length, take, drop, arith,
  if◌then◌else◌,
}

unfoldable pub strip_start : Bytes → Bytes
strip_start [] = []
strip_start (c ∷ cs) = if is_space c then strip_start cs else c ∷ cs

abbrev pub before : ℕ → Bytes → Bytes
before c [] = if is_space c then [] else c ∷ []
before c (d ∷ ds) = c ∷ d ∷ ds

unfoldable pub strip_end : Bytes → Bytes
strip_end [] = []
strip_end (c ∷ cs) = before c (strip_end cs)

strip_start-drop : (s : Bytes) → drop (leading s) s ≡ strip_start s
unfolding leading strip_start
strip_start-drop [] = refl
strip_start-drop (c ∷ cs) = elim (Bool-cases (is_space c)) [
  | inl e ↦ rw e (strip_start-drop cs)
  | inr e ↦ rw e refl
]

abbrev more : ℕ → ℕ → ℕ
more c zero = if is_space c then 0 else 1
more c (suc k) = suc (suc k)

kept-cons : (c : ℕ) (cs : Bytes) (n : ℕ) → kept (c ∷ cs) (suc n) ≡ more c (kept cs n)
unfolding kept
kept-cons c cs zero = refl
kept-cons c cs (suc n) = elim (Bool-cases (is_space (byte cs n))) [
  | inl e ↦ rw e (kept-cons c cs n)
  | inr e ↦ rw e refl
]

kept-le : (s : Bytes) (n : ℕ) → kept s n ≤ n
unfolding kept
kept-le s zero = omega arith
kept-le s (suc n) = ground (arith, kept-le s n)

take-more :
    (c : ℕ) (cs : Bytes) (k : ℕ) → k ≤ length cs → take (more c k) (c ∷ cs) ≡ before c (take k cs)
take-more c cs zero h = elim (Bool-cases (is_space c)) [ inl e ↦ rw e refl | inr e ↦ rw e refl ]
take-more c [] (suc k) h = absurd (omega arith)
take-more c (d ∷ ds) (suc k) h = refl

strip_end-take : (s : Bytes) → take (kept s (length s)) s ≡ strip_end s
unfolding strip_end kept
strip_end-take [] = refl
strip_end-take (c ∷ cs) =
    ap (λ (t : ℕ). take t (c ∷ cs)) (kept-cons c cs (length cs))
    ∙ take-more c cs (kept cs (length cs)) (kept-le cs (length cs))
    ∙ ap (before c) (strip_end-take cs)

-- The index arithmetic of `trim` agrees with a definition by recursion: the white space at the start is
-- dropped, then that at the end.
pub trim-strip : (s : Bytes) → trim s ≡ strip_end (strip_start s)
unfolding trim
trim-strip s = strip_end-take (drop (leading s) s) ∙ ap strip_end (strip_start-drop s)
