-- ===== src/Framer/Termination.antt =====
-- The passes of one turn end: each of them looks at fewer bytes than the one before.
use imachine_hb_f.Checksum.{Bytes, byte, bcc_data_check}
use imachine_hb_f.Framer.{
  Framer, Command, Pass, unset, continues, goes_on, find_header, frame_len, buffer_size, shifted,
  too_short, accepted, rejected, checked, sized, located, pass, Received, closed, fault, received,
  after_commands, after_pass, passes, appended, receive,
}
use imachine_hb_f.Prelude.{
  ℕ, zero, suc, ◌+◌, ◌-◌, max, ◌&&◌, ◌≤◌, ◌<◌, ◌≡◌, refl, sym, ◌⊎◌, inl, inr, Bool-cases,
  Option-cases, Option, none, some, List, [], ◌∷◌, ◌++◌, length, ltb, arith, ◌==◌, if◌then◌else◌,
}

-- A header found earlier is not before the place where the next search begins, and a length is not 0.
pub record IsFramer (f : Framer) : Type 0 where
  pub ahead : (start : ℕ) → f.index1 ≡ some start → f.index2 ≤ start
  pub positive : (len : ℕ) → f.command_len ≡ some len → 0 < len

-- The bytes that a pass may still search.
abbrev pub left : Framer → ℕ
left f = f.pos - f.index2

abbrev PassEnds : ℕ → Pass → Type 0
PassEnds n unset = Unit
PassEnds n (continues cs g) = IsFramer g
PassEnds n (goes_on cs g) = IsFramer g × (left g < n)

find_header-bounds :
    (bytes : Bytes) (i n j : ℕ) → find_header bytes i n ≡ some j → (i ≤ j) × (j < i + n)
unfolding find_header
find_header-bounds bytes i zero j e = cc
find_header-bounds bytes i (suc n) j e =
    elim (Bool-cases (byte bytes i == 0xFF && byte bytes (i + 1) == 0xFF)) [
      | inl h ↦ let e' = rw h at e in ground arith
      | inr h ↦ let (a, b) = find_header-bounds bytes (i + 1) n j (rw h at e) in omega arith
    ]

frame_len-positive :
    (bytes : Bytes) (i : ℕ) (old : Option ℕ)
    → ((len : ℕ) → old ≡ some len → 0 < len)
    → (len : ℕ) → frame_len bytes i old ≡ some len
    → 0 < len
unfolding frame_len
frame_len-positive bytes i old h len e = ground (arith, h len)

-- A length that is set is not 0.
abbrev AreNonzero : Framer → Type 0
AreNonzero f = (len : ℕ) → f.command_len ≡ some len → 0 < len

-- Every case of a pass keeps the invariant, and a pass that goes on has less to search.
shifted-IsFramer : (f : Framer) → AreNonzero f → IsFramer (shifted f)
shifted-IsFramer f v = record { ahead = λ start e. cc; positive = v }

accepted-PassEnds :
    (f : Framer) (start len n : ℕ)
    → AreNonzero f
    → f.index2 ≡ 0 ⊎ (f.pos - f.index2 < n)
    → PassEnds n (accepted f start len)
unfolding accepted
accepted-PassEnds f start len n v h = elim (Bool-cases (f.index2 == 0)) [
  | inl e ↦ rw e (record { ahead = λ s q. cc; positive = v })
  | inr e ↦ elim (Bool-cases (too_short (shifted f).recv_data (shifted f).pos)) [
    | inl t ↦ rw (e, t) (shifted-IsFramer f v)
    | inr t ↦ rw (e, t) (shifted-IsFramer f v, ground arith)
  ]
]

rejected-PassEnds :
    (f : Framer) (start n : ℕ)
    → AreNonzero f
    → f.pos - start ≤ n
    → start < f.pos
    → PassEnds n (rejected f start)
unfolding rejected
rejected-PassEnds f start n v h l =
    elim (Option-cases (find_header f.recv_data (start + 1) (f.pos - 1 - (start + 1)))) [
      | inl e ↦ rw (e, rejected) (record { ahead = λ s q. omega arith; positive = v })
      | inr (i, e) ↦
          let (a, b) = find_header-bounds f.recv_data (start + 1) (f.pos - 1 - (start + 1)) i e in
          rw (e, rejected) (record { ahead = λ s q. cc; positive = v }, omega arith)
    ]

checked-PassEnds :
    (f : Framer) (start len n : ℕ)
    → AreNonzero f
    → f.index2 ≡ 0 ⊎ (f.pos - f.index2 < n)
    → f.pos - start ≤ n
    → start < f.pos
    → PassEnds n (checked f start len)
unfolding checked
checked-PassEnds f start len n v h a b =
    elim (Bool-cases (bcc_data_check f.recv_data (start + 2) (len - 2) 0 == 1)) [
      | inl e ↦ rw e (accepted-PassEnds f start len n v h)
      | inr e ↦ rw e (rejected-PassEnds f start n v a b)
    ]

sized-PassEnds :
    (f : Framer) (start n : ℕ) (l : Option ℕ)
    → IsFramer f
    → l ≡ f.command_len
    → f.index1 ≡ some start
    → f.index2 ≤ start
    → f.pos - f.index2 ≤ n
    → start + 7 ≤ f.pos
    → PassEnds n (sized f start l)
unfolding sized checked
sized-PassEnds f start n none v q s a b h = tt
sized-PassEnds f start n (some len) v q s a b h = elim (Bool-cases (ltb f.pos (start + len))) [
  | inl e ↦ rw e v
  | inr e ↦
      let g : Framer = record f { index2 = if ltb (start + len) f.pos then start + len else 0 } in
      let positive = v.positive len (sym q) in
      rw e (checked-PassEnds g start len n v.positive (ground arith) (omega arith) (omega arith))
]

located-PassEnds :
    (f : Framer) (i n : ℕ) (s : Option ℕ)
    → IsFramer f
    → ((start : ℕ) → s ≡ some start → f.index2 ≤ start)
    → f.pos - f.index2 ≤ n
    → PassEnds n (located f i s)
unfolding located
located-PassEnds f i n none v h l = record { ahead = λ s q. cc; positive = v.positive }
located-PassEnds f i n (some start) v h l = elim (Bool-cases (ltb f.pos (start + 7))) [
  | inl e ↦ rw e (record { ahead = λ s q. ground (arith, h start refl); positive = v.positive })
  | inr e ↦ rw e (
      sized-PassEnds
        (record f { index1 = some start; command_len = frame_len f.recv_data i f.command_len })
        start n _
        (record {
          ahead = λ s q. ground (arith, h start refl);
          positive = frame_len-positive f.recv_data i f.command_len v.positive;
        })
        refl refl (h start refl) l (ground arith))
]

pass-PassEnds : (f : Framer) (n : ℕ) → IsFramer f → left f ≤ n → PassEnds n (pass f)
unfolding pass
pass-PassEnds f n v h =
    elim (Option-cases (find_header f.recv_data f.index2 (f.pos - 1 - f.index2))) [
      | inl e ↦ rw (e, pass) (located-PassEnds f (max f.index2 (f.pos - 1)) n f.index1 v v.ahead h)
      | inr (i, e) ↦
          let (a, b) = find_header-bounds f.recv_data f.index2 (f.pos - 1 - f.index2) i e in
          rw (e, pass) (located-PassEnds f i n (some i) v (λ s q. ground arith) h)
    ]

-- How a turn may end: not for want of fuel, and in a state from which the next turn can start.
pub data Ends : Received → Type 0 where
  is_closed : Ends closed
  is_fault : Ends fault
  is_received : (cs : List Command) (g : Framer) → IsFramer g → Ends (received cs g)

after_commands-Ends : (cs : List Command) (r : Received) → Ends r → Ends (after_commands cs r)
after_commands-Ends cs _ is_closed = is_closed
after_commands-Ends cs _ is_fault = is_fault
after_commands-Ends cs _ (is_received ds g v) = is_received (cs ++ ds) g v

after_pass-Ends :
    (n : ℕ) (p : Pass) (next : Framer → Received)
    → PassEnds n p
    → ((g : Framer) → IsFramer g → left g < n → Ends (next g))
    → Ends (after_pass p next)
after_pass-Ends n unset next w k = is_fault
after_pass-Ends n (continues cs g) next w k = is_received cs g w
after_pass-Ends n (goes_on cs g) next w k = after_commands-Ends cs (next g) (k g w.0 w.1)

passes-Ends : (n : ℕ) (f : Framer) → IsFramer f → left f < n → Ends (passes n f)
unfolding passes
passes-Ends zero f v h = ground arith
passes-Ends (suc n) f v h =
    after_pass-Ends n (pass f) (passes n) (pass-PassEnds f n v (omega arith)) (passes-Ends n)

-- Whatever bytes come in, the turn ends: the passes are never more than the bytes held, and the next
-- turn starts from a state with the same invariant.
pub receive-Ends : (f : Framer) (chunk : Bytes) → IsFramer f → Ends (receive f chunk)
unfolding receive
receive-Ends f [] v = is_closed
receive-Ends f (b ∷ bs) v = elim (Bool-cases (ltb buffer_size (f.pos + length (b ∷ bs)))) [
  | inl e ↦ rw e is_fault
  | inr e ↦ elim (Bool-cases (ltb (f.pos + length (b ∷ bs)) 4)) [
    | inl h ↦
        rw (e, h)
          (is_received [] (appended f (b ∷ bs)) (record { ahead = v.ahead; positive = v.positive }))
    | inr h ↦
        rw (e, h)
          (passes-Ends (f.pos + length (b ∷ bs) + 1) (appended f (b ∷ bs))
            (record { ahead = v.ahead; positive = v.positive }) (omega arith))
  ]
]
