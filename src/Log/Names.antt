-- ===== src/Log/Names.antt =====
-- How `GetModuleFileName` of src/Log_Message.cpp splits a path.
use mathlib.Core.Path.{subst}
use imachine_hb_f.Checksum.{Bytes, byte}
use imachine_hb_f.Log.Paths.{
  slash, log_cfg_name, last_slash, ModuleName, split_name, get_module_file_name,
}
use imachine_hb_f.Prelude.{
  ℕ, zero, suc, ◌+◌, ◌<◌, ◌≡◌, ◌≢◌, refl, sym, ap, ◌∙◌, ◌⊎◌, inl, inr, Bool-cases, false, not, ◌&&◌,
  Option, none, some, [], ◌∷◌, ◌++◌, append-nil, length, take, drop, leb, ◌==◌, if◌then◌else◌,
  arith,
}

-- No slash is in it.
abbrev pub HasNoSlash : Bytes → Type 0
HasNoSlash [] = Unit
HasNoSlash (c ∷ cs) = (c ≢ slash) × HasNoSlash cs

-- What the loop finds: nothing, or the last slash, at the place `k`.
Finds : Bytes → ℕ → ℕ → Type 0
Finds text i pos =
    (HasNoSlash text × (last_slash text i pos ≡ pos))
    ⊎ ((k : ℕ) × (last_slash text i pos ≡ i + k)
        × (k < length text)
        × HasNoSlash (drop (suc k) text)
        × (byte text k ≡ slash))

last_slash-Finds : (text : Bytes) (i pos : ℕ) → Finds text i pos
unfolding Finds last_slash
last_slash-Finds [] i pos = inl (tt, refl)
last_slash-Finds (c ∷ cs) i pos =
    elim (last_slash-Finds cs (i + 1) (if c == slash then i else pos)) [
      | inr (k, e, l, h, b) ↦ inr (suc k, omega (arith, e), omega (arith, l), h, b)
      | inl (h, e) ↦ elim (Bool-cases (c == slash)) [
        | inl q ↦
            let f : (if c == slash then i else pos) ≡ i + 0 = rw q (omega arith) in
            inr (0, e ∙ f, omega arith, h, ground (arith, q))
        | inr q ↦ inl ((λ z. ground (arith, q, z), h), e ∙ (rw q refl))
      ]
    ]

take-drop : (n : ℕ) (xs : Bytes) → take n xs ++ drop n xs ≡ xs
take-drop zero xs = refl
take-drop (suc n) [] = refl
take-drop (suc n) (x ∷ xs) = ap (λ (t : Bytes). x ∷ t) (take-drop n xs)

take-suc : (k : ℕ) (xs : Bytes) → k < length xs → take (suc k) xs ≡ take k xs ++ (byte xs k ∷ [])
take-suc k [] h = absurd (omega arith)
take-suc zero (x ∷ xs) h = refl
take-suc (suc k) (x ∷ xs) h = ap (λ (t : Bytes). x ∷ t) (take-suc k xs (omega arith))

-- An empty path, or one that ends in a slash.
abbrev pub IsFolder : Bytes → Type 0
IsFolder path = (path ≡ []) ⊎ ((p : Bytes) × (path ≡ p ++ (slash ∷ [])))

-- The two parts of a path, and the path of the configuration.
pub record Parts (fname : Bytes) (m : ModuleName) : Type 0 where
  pub whole : m.path ++ m.name ≡ fname
  pub plain : HasNoSlash m.name
  pub dir : IsFolder m.path
  pub config : m.cfgpath ≡ m.path ++ log_cfg_name

split_at :
    (fname : Bytes) (k : ℕ)
    → k < length fname
    → byte fname k ≡ slash
    → HasNoSlash (drop (suc k) fname)
    → Parts fname (record {
      cfgpath = take (suc k) fname ++ log_cfg_name;
      path = take (suc k) fname;
      name = drop (suc k) fname;
    })
split_at fname k l b h = record {
  whole = take-drop (suc k) fname;
  plain = h;
  dir = inr (take k fname, take-suc k fname l ∙ ap (λ (c : ℕ). take k fname ++ (c ∷ [])) b);
  config = refl;
}

HasNoSlash-first : (text : Bytes) → HasNoSlash text → (byte text 0 == slash) ≡ false
HasNoSlash-first [] h = refl
HasNoSlash-first (c ∷ cs) h = ground (arith, h.0)

slash_somewhere :
    (text : Bytes) (k : ℕ) → byte text k ≡ slash → ((k == 0) && not (byte text 0 == slash)) ≡ false
slash_somewhere text zero b = rw b refl
slash_somewhere text (suc k) b = ground arith

-- What `GetModuleFileName` is to give.
abbrev pub Splits : Bytes → Option ModuleName → Type 0
Splits fname none = IsFolder fname
Splits fname (some m) = Parts fname m × (0 < length m.name)

split_name-Parts : (fname : Bytes) → Parts fname (split_name fname)
unfolding split_name Finds
split_name-Parts fname = elim (last_slash-Finds fname 0 0) [
  | inl (h, e) ↦
      rw (e, HasNoSlash-first fname h)
        (record { whole = refl; plain = h; dir = inl refl; config = refl })
  | inr (k, e, l, h, b) ↦
      let z : last_slash fname 0 0 ≡ k = omega (arith, e) in
      let n : k + 1 ≡ suc k = omega arith in
      rw (z, slash_somewhere fname k b, n) (split_at fname k l b h)
]

length-nil : (xs : Bytes) → length xs ≡ 0 → xs ≡ []
length-nil [] e = refl
length-nil (x ∷ xs) e = absurd (omega arith)

-- When the path that dladdr gives is shorter than 256 bytes: path and name are the parts in front of and
-- behind its last slash, the path of the configuration is Config.ini in the folder of the program, and
-- GetModuleFileName returns false exactly when there is nothing behind the last slash.
pub get_module_file_name-Parts :
    (fname : Bytes) → length fname < 256 → Splits fname (get_module_file_name (some fname))
unfolding get_module_file_name
get_module_file_name-Parts fname h =
    let m = split_name fname in
    let p = split_name-Parts fname in
    let e : leb 256 (length fname) ≡ false = ground arith in
    rw e (elim (Bool-cases (length m.name == 0)) [
      | inl q ↦
          let z : m.name ≡ [] = length-nil m.name (ground (arith, q)) in
          let w = sym (append-nil m.path) ∙ ap (λ (t : Bytes). m.path ++ t) (sym z) ∙ p.whole in
          rw q (subst IsFolder w p.dir)
      | inr q ↦ rw q (p, ground (arith, q))
    ])
