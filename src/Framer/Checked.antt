-- ===== src/Framer/Checked.antt =====
-- Every command that leaves the framer has passed the check, whatever came in.
use imachine_hb_f.Checksum.{Bytes, byte, bcc_data_check, xor_range}
use imachine_hb_f.Framer.{
  Framer, Command, Pass, unset, continues, goes_on, find_header, buffer_size, shifted, too_short,
  accepted, rejected, checked, sized, located, pass, Received, closed, fault, out_of_fuel, received,
  after_commands, after_pass, passes, appended, receive,
}
use imachine_hb_f.Prelude.{
  ℕ, zero, suc, ◌+◌, ◌-◌, ◌≡◌, refl, ◌∙◌, inl, inr, Bool-cases, Option-cases, Option, none, some,
  List, [], ◌∷◌, ◌++◌, length, drop, get_or-drop, ltb, arith, ◌==◌, bit_xor,
}

abbrev pub AreChecked : List Command → Type 0
AreChecked [] = Unit
AreChecked (c ∷ cs) = (bcc_data_check c.frame 2 (c.len - 2) 0 ≡ 1) × AreChecked cs

xor_range-drop :
    (s : ℕ) (bytes : Bytes) (i n acc : ℕ)
    → xor_range (drop s bytes) i n acc ≡ xor_range bytes (s + i) n acc
unfolding xor_range
xor_range-drop s bytes i zero acc = refl
xor_range-drop s bytes i (suc n) acc =
    let e : s + suc i ≡ suc (s + i) = omega arith in
    xor_range-drop s bytes (suc i) n (bit_xor acc (byte (drop s bytes) i))
    ∙ rw (e, get_or-drop s bytes i 0) refl

bcc_data_check-drop :
    (s : ℕ) (bytes : Bytes) (n : ℕ)
    → bcc_data_check (drop s bytes) 2 n 0 ≡ bcc_data_check bytes (s + 2) n 0
unfolding bcc_data_check
bcc_data_check-drop s bytes n =
    let e : s + (2 + n - 1) ≡ s + 2 + n - 1 = omega arith in
    rw (xor_range-drop s bytes 2 (n - 1) 0, get_or-drop s bytes (2 + n - 1) 0, e) refl

abbrev PassChecked : Pass → Type 0
PassChecked unset = Unit
PassChecked (continues cs g) = AreChecked cs
PassChecked (goes_on cs g) = AreChecked cs

accepted-PassChecked :
    (f : Framer) (start len : ℕ)
    → bcc_data_check (drop start f.recv_data) 2 (len - 2) 0 ≡ 1
    → PassChecked (accepted f start len)
unfolding accepted
accepted-PassChecked f start len h = elim (Bool-cases (f.index2 == 0)) [
  | inl e ↦ rw e (h, tt)
  | inr e ↦ elim (Bool-cases (too_short (shifted f).recv_data (shifted f).pos)) [
    | inl t ↦ rw (e, t) (h, tt)
    | inr t ↦ rw (e, t) (h, tt)
  ]
]

rejected-PassChecked : (f : Framer) (start : ℕ) → PassChecked (rejected f start)
unfolding rejected
rejected-PassChecked f start =
    elim (Option-cases (find_header f.recv_data (start + 1) (f.pos - 1 - (start + 1)))) [
      | inl e ↦ rw (e, rejected) tt
      | inr (i, e) ↦ rw (e, rejected) tt
    ]

checked-PassChecked : (f : Framer) (start len : ℕ) → PassChecked (checked f start len)
unfolding checked
checked-PassChecked f start len =
    elim (Bool-cases (bcc_data_check f.recv_data (start + 2) (len - 2) 0 == 1)) [
      | inl e ↦
          let ok : bcc_data_check (drop start f.recv_data) 2 (len - 2) 0 ≡ 1 =
            bcc_data_check-drop start f.recv_data (len - 2) ∙ ground arith in
          rw e (accepted-PassChecked f start len ok)
      | inr e ↦ rw e (rejected-PassChecked f start)
    ]

sized-PassChecked : (f : Framer) (start : ℕ) (l : Option ℕ) → PassChecked (sized f start l)
unfolding sized
sized-PassChecked f start none = tt
sized-PassChecked f start (some len) = elim (Bool-cases (ltb f.pos (start + len))) [
  | inl e ↦ rw e tt
  | inr e ↦ rw e (checked-PassChecked _ start len)
]

located-PassChecked : (f : Framer) (i : ℕ) (s : Option ℕ) → PassChecked (located f i s)
unfolding located
located-PassChecked f i none = tt
located-PassChecked f i (some start) = elim (Bool-cases (ltb f.pos (start + 7))) [
  | inl e ↦ rw e tt
  | inr e ↦ rw e (sized-PassChecked _ start _)
]

pass-PassChecked : (f : Framer) → PassChecked (pass f)
unfolding pass
pass-PassChecked f = elim (Option-cases (find_header f.recv_data f.index2 (f.pos - 1 - f.index2))) [
  | inl e ↦ rw (e, pass) (located-PassChecked f _ f.index1)
  | inr (i, e) ↦ rw (e, pass) (located-PassChecked f i (some i))
]

abbrev pub Sound : Received → Type 0
Sound closed = Unit
Sound fault = Unit
Sound out_of_fuel = Unit
Sound (received cs g) = AreChecked cs

AreChecked-append : (cs ds : List Command) → AreChecked cs → AreChecked ds → AreChecked (cs ++ ds)
AreChecked-append [] ds h k = k
AreChecked-append (c ∷ cs) ds h k = (h.0, AreChecked-append cs ds h.1 k)

after_commands-Sound :
    (cs : List Command) (r : Received) → AreChecked cs → Sound r → Sound (after_commands cs r)
after_commands-Sound cs closed h k = tt
after_commands-Sound cs fault h k = tt
after_commands-Sound cs out_of_fuel h k = tt
after_commands-Sound cs (received ds g) h k = AreChecked-append cs ds h k

after_pass-Sound :
    (p : Pass) (next : Framer → Received)
    → PassChecked p
    → ((g : Framer) → Sound (next g))
    → Sound (after_pass p next)
after_pass-Sound unset next h k = tt
after_pass-Sound (continues cs g) next h k = h
after_pass-Sound (goes_on cs g) next h k = after_commands-Sound cs (next g) h (k g)

passes-Sound : (n : ℕ) (f : Framer) → Sound (passes n f)
unfolding passes
passes-Sound zero f = tt
passes-Sound (suc n) f = after_pass-Sound (pass f) (passes n) (pass-PassChecked f) (passes-Sound n)

receive-Sound : (f : Framer) (chunk : Bytes) → Sound (receive f chunk)
unfolding receive
receive-Sound f [] = tt
receive-Sound f (b ∷ bs) = elim (Bool-cases (ltb buffer_size (f.pos + length (b ∷ bs)))) [
  | inl e ↦ rw e tt
  | inr e ↦ elim (Bool-cases (ltb (f.pos + length (b ∷ bs)) 4)) [
    | inl h ↦ rw (e, h) tt
    | inr h ↦ rw (e, h) (passes-Sound _ (appended f (b ∷ bs)))
  ]
]

-- Whatever bytes come in, in whatever state, every command of the turn passes the check of its frame.
pub receive-AreChecked :
    (f g : Framer) (chunk : Bytes) (cs : List Command)
    → receive f chunk ≡ received cs g
    → AreChecked cs
receive-AreChecked f g chunk cs e = rw e at (receive-Sound f chunk)
