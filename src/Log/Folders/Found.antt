-- ===== src/Log/Folders/Found.antt =====
-- `strstr` in src/Log_Message.cpp: what the test finds is what the text contains.
use imachine_hb_f.Checksum.{Bytes}
use imachine_hb_f.Log.Folders.{starts_with, contains}
use imachine_hb_f.Prelude.{
  ◌≡◌, refl, ap, inl, inr, Bool-cases, true, false, [], ◌∷◌, ◌++◌, ◌==◌, ==_refl, arith,
}

-- What is in the text behind some place.
abbrev pub Contains : Bytes → Bytes → Type 0
Contains text word = (pre : Bytes) × (post : Bytes) × (text ≡ pre ++ (word ++ post))

starts_with-rest :
    (text word : Bytes) → starts_with text word ≡ true → (post : Bytes) × (text ≡ word ++ post)
unfolding starts_with
starts_with-rest text [] h = (text, refl)
starts_with-rest [] (c ∷ cs) h = absurd cc
starts_with-rest (b ∷ bs) (c ∷ cs) h = elim (Bool-cases (b == c)) [
  | inr e ↦ absurd (let r : false ≡ true = (rw e at h) in cc)
  | inl e ↦
      let (post, q) = starts_with-rest bs cs (rw e at h) in
      let k : b ≡ c = ground (arith, e) in (post, λ i. k i ∷ q i)
]

starts_with-append : (word post : Bytes) → starts_with (word ++ post) word ≡ true
unfolding starts_with
starts_with-append [] [] = refl
starts_with-append [] (c ∷ post) = refl
starts_with-append (c ∷ word) post = rw (==_refl c) (starts_with-append word post)

pub contains-Contains : (text word : Bytes) → contains text word ≡ true → Contains text word
unfolding contains
contains-Contains [] word h = let (post, q) = starts_with-rest [] word h in ([], post, q)
contains-Contains (b ∷ bs) word h = elim (Bool-cases (starts_with (b ∷ bs) word)) [
  | inl e ↦ (let (post, q) = starts_with-rest (b ∷ bs) word e in ([], post, q))
  | inr e ↦
      let (pre, post, q) = contains-Contains bs word (rw e at h) in
      (b ∷ pre, post, ap (λ (t : Bytes). b ∷ t) q)
]

pub contains-append : (pre word post : Bytes) → contains (pre ++ (word ++ post)) word ≡ true
unfolding contains
contains-append [] [] [] = refl
contains-append [] [] (c ∷ post) = refl
contains-append [] (c ∷ word) post = rw (starts_with-append (c ∷ word) post) refl
contains-append (b ∷ pre) word post =
    elim (Bool-cases (starts_with (b ∷ (pre ++ (word ++ post))) word)) [
      | inl e ↦ rw e refl
      | inr e ↦ rw e (contains-append pre word post)
    ]
