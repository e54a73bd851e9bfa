-- ===== src/Checksum/Detection.antt =====
-- What the checksum promises: a sealed frame is accepted, and a damaged byte is noticed.
use native.Mathlib.Nat.{mod-eq_of_lt}
use mathlib.Core.Path.{subst}
use imachine_hb_f.Checksum.{Bytes, byte, xor_range, bcc_data_check}
use imachine_hb_f.Checksum.Fold.{
  fold_xor, AreBytes, byte-append_right, xor_range-fold_xor, fold_xor-lt, fold_xor_change,
}
use imachine_hb_f.Prelude.{
  ℕ, ◌+◌, ◌-◌, ◌%◌, ◌≡◌, ◌≢◌, ◌⊎◌, inl, inr, refl, sym, ap, ◌∙◌, [], ◌∷◌, ◌++◌, length,
  length-append, append_assoc, append-nil, arith, ◌==◌, if◌then◌else◌,
}

-- The checksum of a stretch is its fold.
pub bcc_data_check-compute :
    (pre body rest : Bytes)
    → AreBytes body
    → bcc_data_check (pre ++ (body ++ rest)) (length pre) (length body) 2 ≡ fold_xor 0 body
unfolding bcc_data_check
bcc_data_check-compute pre body rest h =
    ap (λ (t : ℕ). t % 256) (xor_range-fold_xor pre body rest 0)
    ∙ mod-eq_of_lt (fold_xor-lt 0 body (omega arith) h)

module _ (pre body : Bytes) (c : ℕ) (rest : Bytes) where
  byte_last : byte (pre ++ (body ++ c ∷ rest)) (length pre + (length body + 1) - 1) ≡ c
  byte_last =
      ap (λ (i : ℕ). byte (pre ++ (body ++ c ∷ rest)) i) (omega (arith, length-append pre body))
      ∙ ap (λ (bytes : Bytes). byte bytes (length (pre ++ body)))
          (sym (append_assoc pre body (c ∷ rest)))
      ∙ byte-append_right (pre ++ body) c rest

  xor_range_body :
      AreBytes body
      → xor_range (pre ++ (body ++ c ∷ rest)) (length pre) (length body + 1 - 1) 0 % 256
        ≡ fold_xor 0 body
  xor_range_body h =
      ap (λ (n : ℕ). xor_range (pre ++ (body ++ c ∷ rest)) (length pre) n 0 % 256) (omega arith)
      ∙ ap (λ (t : ℕ). t % 256) (xor_range-fold_xor pre body (c ∷ rest) 0)
      ∙ mod-eq_of_lt (fold_xor-lt 0 body (omega arith) h)

  -- The check of a stretch that ends in `c` says whether `c` is the fold of what stands before it.
  pub bcc_data_check-fold_xor :
      AreBytes body
      → bcc_data_check (pre ++ (body ++ c ∷ rest)) (length pre) (length body + 1) 0
        ≡ (if fold_xor 0 body == c then 1 else 0)
  unfolding bcc_data_check
  bcc_data_check-fold_xor h = rw (xor_range_body h, byte_last)

-- A stretch of bytes (numbers below 256) followed by the checksum computed for it, anywhere in an
-- array, passes the check.
pub bcc_data_check_seal :
    (pre body rest : Bytes)
    → AreBytes body
    → let c = bcc_data_check (pre ++ body) (length pre) (length body) 2 in
      bcc_data_check (pre ++ (body ++ c ∷ rest)) (length pre) (length body + 1) 0 ≡ 1
bcc_data_check_seal pre body rest h = ground (
  arith,
  bcc_data_check-fold_xor pre body (bcc_data_check (pre ++ body) (length pre) (length body) 2) rest
      h,
  bcc_data_check-compute pre body [] h,
  ap (λ (bytes : Bytes). bcc_data_check (pre ++ bytes) (length pre) (length body) 2)
      (append-nil body),
)

-- A stretch with a changed byte in front of its last.
damage_inside :
    (pre xs : Bytes) (x y : ℕ) (ys : Bytes) (c : ℕ) (rest : Bytes)
    → AreBytes (xs ++ x ∷ ys)
    → AreBytes (xs ++ y ∷ ys)
    → x ≢ y
    → bcc_data_check
        (pre ++ ((xs ++ x ∷ ys) ++ c ∷ rest))
        (length pre)
        (length (xs ++ x ∷ ys) + 1)
        0
      ≡ 1
    → bcc_data_check
        (pre ++ ((xs ++ y ∷ ys) ++ c ∷ rest))
        (length pre)
        (length (xs ++ y ∷ ys) + 1)
        0
      ≡ 0
damage_inside pre xs x y ys c rest h k ne passed = ground (
  arith,
  bcc_data_check-fold_xor pre (xs ++ x ∷ ys) c rest h,
  bcc_data_check-fold_xor pre (xs ++ y ∷ ys) c rest k,
  fold_xor_change xs x y ys 0,
)

-- A stretch with its last byte, the checksum, changed.
damage_last :
    (pre xs : Bytes) (x y : ℕ) (rest : Bytes)
    → AreBytes xs
    → x ≢ y
    → bcc_data_check (pre ++ (xs ++ x ∷ rest)) (length pre) (length xs + 1) 0 ≡ 1
    → bcc_data_check (pre ++ (xs ++ y ∷ rest)) (length pre) (length xs + 1) 0 ≡ 0
damage_last pre xs x y rest h ne passed =
    ground (arith, bcc_data_check-fold_xor pre xs x rest h, bcc_data_check-fold_xor pre xs y rest h)

-- A list is empty or has a last element.
last_split : (ys : Bytes) → (ys ≡ []) ⊎ ((front : Bytes) × (c : ℕ) × (ys ≡ front ++ c ∷ []))
last_split [] = inl refl
last_split (y ∷ ys) = elim (last_split ys) [
  | inl e ↦ inr ([], y, ap (λ (t : Bytes). y ∷ t) e)
  | inr (front, c, e) ↦ inr (y ∷ front, c, ap (λ (t : Bytes). y ∷ t) e)
]

AreBytes-front : (xs ys : Bytes) → AreBytes (xs ++ ys) → AreBytes xs
AreBytes-front [] ys h = tt
AreBytes-front (x ∷ xs) ys h = (h.0, AreBytes-front xs ys h.1)

regroup :
    (xs : Bytes) (x : ℕ) (front : Bytes) (c : ℕ) (rest : Bytes)
    → (xs ++ x ∷ (front ++ c ∷ [])) ++ rest ≡ (xs ++ x ∷ front) ++ c ∷ rest
regroup xs x front c rest =
    ap (λ (t : Bytes). t ++ rest) (sym (append_assoc xs (x ∷ front) (c ∷ [])))
    ∙ append_assoc (xs ++ x ∷ front) (c ∷ []) rest

length-regroup :
    (xs : Bytes) (x : ℕ) (front : Bytes) (c : ℕ)
    → length (xs ++ x ∷ (front ++ c ∷ [])) ≡ length (xs ++ x ∷ front) + 1
length-regroup xs x front c = omega (
  arith,
  length-append xs (x ∷ (front ++ c ∷ [])),
  length-append xs (x ∷ front),
  length-append front (c ∷ []),
)

-- A changed byte that is the last.
damage_at_end :
    (pre xs : Bytes) (x y : ℕ) (rest : Bytes)
    → AreBytes (xs ++ x ∷ [])
    → x ≢ y
    → bcc_data_check (pre ++ ((xs ++ x ∷ []) ++ rest)) (length pre) (length (xs ++ x ∷ [])) 0 ≡ 1
    → bcc_data_check (pre ++ ((xs ++ y ∷ []) ++ rest)) (length pre) (length (xs ++ y ∷ [])) 0 ≡ 0
damage_at_end pre xs x y rest h ne passed =
    let l : length (xs ++ x ∷ []) ≡ length xs + 1 = omega (arith, length-append xs (x ∷ [])) in
    let m : length (xs ++ y ∷ []) ≡ length xs + 1 = omega (arith, length-append xs (y ∷ [])) in
    rw (append_assoc xs (y ∷ []) rest, m)
      (damage_last pre xs x y rest (AreBytes-front xs (x ∷ []) h) ne
        (rw (append_assoc xs (x ∷ []) rest, l) at passed))

-- A changed byte with a last one behind it.
damage_before_end :
    (pre xs : Bytes) (x y : ℕ) (front : Bytes) (c : ℕ) (rest : Bytes)
    → AreBytes (xs ++ x ∷ (front ++ c ∷ []))
    → AreBytes (xs ++ y ∷ (front ++ c ∷ []))
    → x ≢ y
    → bcc_data_check
        (pre ++ ((xs ++ x ∷ (front ++ c ∷ [])) ++ rest))
        (length pre)
        (length (xs ++ x ∷ (front ++ c ∷ [])))
        0
      ≡ 1
    → bcc_data_check
        (pre ++ ((xs ++ y ∷ (front ++ c ∷ [])) ++ rest))
        (length pre)
        (length (xs ++ y ∷ (front ++ c ∷ [])))
        0
      ≡ 0
damage_before_end pre xs x y front c rest h k ne passed =
    rw (regroup xs y front c rest, length-regroup xs y front c)
      (damage_inside pre xs x y front c rest (bytes x h) (bytes y k) ne
        (rw (regroup xs x front c rest, length-regroup xs x front c) at passed))
  where
    bytes : (z : ℕ) → AreBytes (xs ++ z ∷ (front ++ c ∷ [])) → AreBytes (xs ++ z ∷ front)
    bytes z b =
        AreBytes-front (xs ++ z ∷ front) (c ∷ [])
          (subst AreBytes (sym (append_assoc xs (z ∷ front) (c ∷ []))) b)

-- If a stretch of bytes passes the check, whose last byte is the checksum, it fails once any one of its bytes,
-- the last included, is another byte.
pub bcc_data_check_damage :
    (pre xs : Bytes) (x y : ℕ) (ys rest : Bytes)
    → AreBytes (xs ++ x ∷ ys)
    → AreBytes (xs ++ y ∷ ys)
    → x ≢ y
    → bcc_data_check (pre ++ ((xs ++ x ∷ ys) ++ rest)) (length pre) (length (xs ++ x ∷ ys)) 0 ≡ 1
    → bcc_data_check (pre ++ ((xs ++ y ∷ ys) ++ rest)) (length pre) (length (xs ++ y ∷ ys)) 0 ≡ 0
bcc_data_check_damage pre xs x y ys rest h k ne passed = elim (last_split ys) [
  | inl e ↦ rw e (damage_at_end pre xs x y rest (rw e at h) ne (rw e at passed))
  | inr (front, c, e) ↦
      rw e (damage_before_end pre xs x y front c rest (rw e at h) (rw e at k) ne (rw e at passed))
]
