-- ===== src/Log/Made.antt =====
-- The folders that `createdirectory` of src/Log_Message.cpp makes.
use imachine_hb_f.Checksum.{Bytes}
use imachine_hb_f.Strings.{str_eq_refl}
use imachine_hb_f.Log.Paths.{Tree, is_separator, is_made, create_loop, createdirectory}
use imachine_hb_f.Prelude.{
  ℕ, ◌+◌, ◌≤◌, ◌≡◌, refl, inl, inr, Bool, Bool-cases, true, false, ◌||◌, some, List, [], ◌∷◌, ◌++◌,
  length, length-append, ltb, leb, arith,
}

-- Where a beginning of the path ends in a separator, it existed or is among those made.
abbrev pub IsThere : Bool → Bool → Type 0
IsThere true there = there ≡ true
IsThere false there = Unit

-- Every beginning, `tmp_path` being the part in front of the rest.
abbrev pub AreThere : Tree → List Bytes → Bytes → Bytes → Type 0
AreThere t made tmp_path [] = Unit
AreThere t made tmp_path (c ∷ cs) =
    IsThere (is_separator c)
      (t.exists (tmp_path ++ (c ∷ [])) || is_made (tmp_path ++ (c ∷ [])) made)
    × AreThere t made (tmp_path ++ (c ∷ [])) cs

-- What `createdirectory` is to give: all of them when it returns true.
abbrev pub Makes : Tree → Bytes → Bool × List Bytes → Type 0
Makes t dir_path (true, made) = AreThere t made [] dir_path
Makes t dir_path (false, made) = Unit

-- A list that has what another has.
record Extends (more made : List Bytes) : Type 0 where
  has : (p : Bytes) → is_made p made ≡ true → is_made p more ≡ true

Extends-cons : (p : Bytes) (more made : List Bytes) → Extends more (p ∷ made) → Extends more made
unfolding is_made
Extends-cons p more made h = record { has = λ q e. h.has q (ground (arith, e)) }

made_here : (p : Bytes) (more made : List Bytes) → Extends more (p ∷ made) → is_made p more ≡ true
unfolding is_made
made_here p more made h = h.has p (rw (str_eq_refl p) refl)

-- What the loop leaves, when it starts with these made.
LoopMakes : Tree → Bytes → Bytes → List Bytes → Bool × List Bytes → Type 0
LoopMakes t tmp_path rest made (true, more) = AreThere t more tmp_path rest × Extends more made
LoopMakes t tmp_path rest made (false, more) = Unit

later :
    (t : Tree) (tmp_path : Bytes) (c : ℕ) (cs : Bytes) (made start : List Bytes)
    (r : Bool × List Bytes)
    → LoopMakes t (tmp_path ++ (c ∷ [])) cs start r
    → ((more : List Bytes)
        → Extends more start
        → Extends more made
          × IsThere
              (is_separator c)
              (t.exists (tmp_path ++ (c ∷ [])) || is_made (tmp_path ++ (c ∷ [])) more))
    → LoopMakes t tmp_path (c ∷ cs) made r
unfolding LoopMakes
later t tmp_path c cs made start (false, more) h k = tt
later t tmp_path c cs made start (true, more) (a, x) k = let (y, z) = k more x in ((z, a), y)

still : (a b c : Bool) → (b ≡ true → c ≡ true) → (a || b) ≡ true → (a || c) ≡ true
still true b c f e = refl
still false b c f e = f e

either_way : (a b : Bool) → b ≡ true → (a || b) ≡ true
either_way true b e = refl
either_way false b e = e

create_loop-LoopMakes :
    (t : Tree) (tmp_path rest : Bytes) (made : List Bytes)
    → length tmp_path + length rest ≤ 255
    → (r : Bool × List Bytes) × (create_loop t tmp_path rest made ≡ some r)
      × LoopMakes t tmp_path rest made r
unfolding create_loop LoopMakes
create_loop-LoopMakes t tmp_path [] made h = ((true, made), refl, (tt, record { has = λ p e. e }))
create_loop-LoopMakes t tmp_path (c ∷ cs) made h =
    let now = tmp_path ++ (c ∷ []) in
    let size : length now + length cs ≤ 255 = omega (arith, length-append tmp_path (c ∷ [])) in
    let inside : leb 256 (length now) ≡ false = ground (arith, size) in
    elim (Bool-cases (is_separator c)) [
      | inr e ↦
          let (r, p, m) = create_loop-LoopMakes t now cs made size in
          (r, rw e p, later t tmp_path c cs made made r m (λ more x. (x, rw e tt)))
      | inl e ↦ elim (Bool-cases (t.exists now || is_made now made)) [
        | inl k ↦
            let (r, p, m) = create_loop-LoopMakes t now cs made size in
            (
              r,
              rw (e, inside, k) p,
              later t tmp_path c cs made made r m
                  (λ more x. (x, rw e (still (t.exists now) _ _ (x.has now) k))),
            )
        | inr k ↦ elim (Bool-cases (t.mkdir now)) [
          | inr n ↦ ((false, made), rw (e, inside, k, n) refl, tt)
          | inl n ↦
              let (r, p, m) = create_loop-LoopMakes t now cs (now ∷ made) size in
              (
                r,
                rw (e, inside, k, n) p,
                later t tmp_path c cs made (now ∷ made) r m (λ more x. (
                  Extends-cons now more made x,
                  rw e (either_way (t.exists now) _ (made_here now more made x)),
                )),
              )
        ]
      ]
    ]

LoopMakes-Makes :
    (t : Tree) (dir_path : Bytes) (r : Bool × List Bytes)
    → LoopMakes t [] dir_path [] r
    → Makes t dir_path r
unfolding LoopMakes
LoopMakes-Makes t dir_path (true, made) h = h.0
LoopMakes-Makes t dir_path (false, made) h = tt

-- For a path of at most 255 bytes, createdirectory stays inside of its array, and if it returns true,
-- every beginning of the path that ends in a separator existed before or has been made.
pub createdirectory-Makes :
    (t : Tree) (dir_path : Bytes)
    → length dir_path ≤ 255
    → (r : Bool × List Bytes) × (createdirectory t dir_path ≡ some r) × Makes t dir_path r
unfolding createdirectory
createdirectory-Makes t dir_path h =
    let e : ltb 256 (length dir_path) ≡ false = ground arith in
    let (r, p, m) = create_loop-LoopMakes t [] dir_path [] (omega arith) in
    (r, rw e p, LoopMakes-Makes t dir_path r m)
