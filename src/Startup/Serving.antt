-- ===== src/Startup/Serving.antt =====
-- When the program of src/main.cpp comes to serve its clients.
use imachine_hb_f.Checksum.{Bytes}
use imachine_hb_f.Config.{IniSection, get_string_value}
use imachine_hb_f.Config.Lines.{Free, drop_past}
use imachine_hb_f.Startup.{
  Settings, settings, read_cfg, before_comma, FbOpen, returned, thrown, Channels, open_port,
  fb_open, StartUp, gives_up, uncaught, unset_pointer, loops, Listens, get_int_value, after_open,
  start_up,
}
use imachine_hb_f.Prelude.{
  ℕ, ◌+◌, ◌≡◌, ◌≢◌, ◌⊎◌, ◌↔◌, refl, ap, ◌∙◌, inl, inr, Bool, Bool-cases, true, false, ◌||◌, List,
  [], ◌∷◌, ◌++◌, length, length-append, drop, ltb, ◌==◌, arith,
}
use imachine_hb_f.Strings.{ascii}
use imachine_hb_f.Prelude.Int.{ℤ, pos, negsuc, int_eq}

-- A device, a comma and a port, which the channel to the display accepts; what follows a second comma does
-- not matter.
pub record CanOpen (atoi : Bytes → ℤ) (opens : Channels) (n_type : ℤ) (paras : Bytes) : Type 0 where
  pub mode : (n_type ≡ pos 2) ⊎ (n_type ≡ pos 0)
  pub device : Bytes
  pub rest : Bytes
  pub parts : paras ≡ device ++ 0x2C ∷ rest
  pub device_free : Free 0x2C device
  pub device_named : device ≢ []
  pub port_named : before_comma rest ≢ []
  pub accepted : opens n_type device (atoi (before_comma rest)) ≡ true

before_comma-append :
    (device rest : Bytes) → Free 0x2C device → before_comma (device ++ 0x2C ∷ rest) ≡ device
unfolding before_comma
before_comma-append [] rest h = refl
before_comma-append (c ∷ device) rest h =
    let e : (c == 0x2C) ≡ false = ground (arith, h.0) in
    rw (e, before_comma) (ap (λ (t : Bytes). c ∷ t) (before_comma-append device rest h.1))

nonempty_test : (s : Bytes) → s ≢ [] → (length s == 0) ≡ false
nonempty_test [] h = absurd (h refl)
nonempty_test (c ∷ s) h = ground arith

mode_test : (n : ℤ) → (n ≡ pos 2) ⊎ (n ≡ pos 0) → (int_eq n (pos 2) || int_eq n (pos 0)) ≡ true
mode_test n (inl e) = rw e refl
mode_test n (inr e) = rw e refl

open_port-CanOpen :
    (atoi : Bytes → ℤ) (opens : Channels) (n : ℤ) (device rest : Bytes)
    → before_comma rest ≢ []
    → opens n device (atoi (before_comma rest)) ≡ true
    → open_port atoi opens n device rest ≡ returned true
unfolding open_port
open_port-CanOpen atoi opens n device rest h k =
    rw (nonempty_test (before_comma rest) h, open_port) (rw k refl)

fb_open-returned :
    (atoi : Bytes → ℤ) (opens : Channels) (n : ℤ) (paras : Bytes)
    → CanOpen atoi opens n paras
    → fb_open atoi opens n paras ≡ returned true
unfolding fb_open
fb_open-returned atoi opens n paras h =
    let whole : Bytes = h.device ++ 0x2C ∷ h.rest in
    let b : before_comma whole ≡ h.device = before_comma-append h.device h.rest h.device_free in
    let l : length whole ≡ length h.device + (length h.rest + 1) =
      omega (arith, length-append h.device (0x2C ∷ h.rest)) in
    let e : ltb (length whole) (length h.device + 1) ≡ false = ground (arith, l) in
    let d : drop (length h.device + 1) whole ≡ h.rest = drop_past h.device h.rest 0x2C in
    rw h.parts (
      rw (mode_test n h.mode, b, fb_open)
        (rw (nonempty_test h.device h.device_named, e, d, fb_open)
          (open_port-CanOpen atoi opens n h.device h.rest h.port_named h.accepted)))

before_comma-Free : (s : Bytes) → Free 0x2C (before_comma s)
unfolding before_comma
before_comma-Free [] = tt
before_comma-Free (c ∷ s) = elim (Bool-cases (c == 0x2C)) [
  | inl e ↦ rw e tt
  | inr e ↦ rw e (ground (arith, e), before_comma-Free s)
]

-- A text without a comma, or the part behind the first one.
comma_parts :
    (s : Bytes) → (before_comma s ≡ s) ⊎ ((rest : Bytes) × (s ≡ before_comma s ++ 0x2C ∷ rest))
unfolding before_comma
comma_parts [] = inl refl
comma_parts (c ∷ s) = elim (Bool-cases (c == 0x2C)) [
  | inl e ↦ let q : c ≡ 0x2C = ground (arith, e) in rw e (inr (s, ap (λ (x : ℕ). x ∷ s) q))
  | inr e ↦ rw e (elim (comma_parts s) [
    | inl q ↦ inl (ap (λ (t : Bytes). c ∷ t) q)
    | inr (rest, q) ↦ inr (rest, ap (λ (t : Bytes). c ∷ t) q)
  ])
]

mode_of : (n : ℤ) → (int_eq n (pos 2) || int_eq n (pos 0)) ≡ true → (n ≡ pos 2) ⊎ (n ≡ pos 0)
mode_of (pos a) h = elim (Bool-cases (a == 2)) [
  | inl e ↦ inl (ap pos (ground (arith, e)))
  | inr e ↦ inr (ap pos (ground (arith, h, e)))
]
mode_of (negsuc a) h = cc

not_named : (s : Bytes) → (length s == 0) ≡ false → s ≢ []
not_named s h q = let e : (length s == 0) ≡ true = rw q refl in cc

abbrev answer : FbOpen → Bool
answer (returned b) = b
answer thrown = false

open_port-accepted :
    (atoi : Bytes → ℤ) (opens : Channels) (n : ℤ) (device rest : Bytes)
    → open_port atoi opens n device rest ≡ returned true
    → (before_comma rest ≢ []) × (opens n device (atoi (before_comma rest)) ≡ true)
unfolding open_port
open_port-accepted atoi opens n device rest h =
    elim (Bool-cases (length (before_comma rest) == 0)) [
      | inl e ↦
          absurd (let q = (rw (e, open_port) at h) in let r : false ≡ true = ap answer q in cc)
      | inr e ↦ (not_named (before_comma rest) e, ap answer (rw (e, open_port) at h))
    ]

with_parts :
    (atoi : Bytes → ℤ) (opens : Channels) (n : ℤ) (paras : Bytes)
    → (n ≡ pos 2) ⊎ (n ≡ pos 0)
    → (length (before_comma paras) == 0) ≡ false
    → ltb (length paras) (length (before_comma paras) + 1) ≡ false
    → open_port atoi opens n (before_comma paras) (drop (length (before_comma paras) + 1) paras)
      ≡ returned true
    → CanOpen atoi opens n paras
with_parts atoi opens n paras m k j h = elim (comma_parts paras) [
  | inl q ↦ absurd (
      let l : length (before_comma paras) ≡ length paras = ap length q in
      let t : ltb (length paras) (length (before_comma paras) + 1) ≡ true = ground (arith, l) in cc)
  | inr (rest, q) ↦
      let d : drop (length (before_comma paras) + 1) paras ≡ rest =
        ap (drop (length (before_comma paras) + 1)) q ∙ drop_past (before_comma paras) rest 0x2C in
      let a = open_port-accepted atoi opens n (before_comma paras) rest (rw d at h) in
      record {
        mode = m;
        device = before_comma paras;
        rest = rest;
        parts = q;
        device_free = before_comma-Free paras;
        device_named = not_named (before_comma paras) k;
        port_named = a.0;
        accepted = a.1;
      }
]

fb_open-CanOpen :
    (atoi : Bytes → ℤ) (opens : Channels) (n : ℤ) (paras : Bytes)
    → fb_open atoi opens n paras ≡ returned true
    → CanOpen atoi opens n paras
unfolding fb_open
fb_open-CanOpen atoi opens n paras h = elim (Bool-cases (int_eq n (pos 2) || int_eq n (pos 0))) [
  | inr m ↦ absurd (let r : false ≡ true = ap answer (rw (m, fb_open) at h) in cc)
  | inl m ↦ elim (Bool-cases (length (before_comma paras) == 0)) [
    | inl k ↦ absurd (let r : false ≡ true = ap answer (rw (m, k, fb_open) at h) in cc)
    | inr k ↦ elim (Bool-cases (ltb (length paras) (length (before_comma paras) + 1))) [
      | inl j ↦ absurd (let r : false ≡ true = ap answer (rw (m, k, j, fb_open) at h) in cc)
      | inr j ↦ with_parts atoi opens n paras (mode_of n m) k j (rw (m, k, j, fb_open) at h)
    ]
  ]
]

-- What the file has to say, and what the system has to grant.
pub record CanServe (atoi : Bytes → ℤ) (opens : Channels) (listens : Listens)
    (file : List IniSection) : Type 0 where
  pub sockets : get_int_value atoi (ascii "Serial") (ascii "communication") (pos 0) file ≡ pos 2
  pub display :
      CanOpen atoi opens
        (get_int_value atoi (ascii "Serial") (ascii "LedMode") (pos 0) file)
        (get_string_value (ascii "Serial") (ascii "Led") (ascii "/dev/ttyS5") file)
  pub robot :
      listens (get_int_value atoi (ascii "socket") (ascii "RobortPort") (pos 5000) file) ≡ true
  pub manual :
      listens (get_int_value atoi (ascii "socket") (ascii "ManualPort") (pos 5001) file) ≡ true

is_two : (n : ℤ) → int_eq n (pos 2) ≡ true → n ≡ pos 2
is_two (pos a) h = ap pos (ground (arith, h))
is_two (negsuc a) h = cc

-- The loops run, and both servers listen.
abbrev pub Serves : StartUp → Type 0
Serves gives_up = ⊥
Serves uncaught = ⊥
Serves unset_pointer = ⊥
Serves (loops s first second) = (first ≡ true) × (second ≡ true)

after_open-Serves :
    (listens : Listens) (s : Settings) (o : FbOpen)
    → Serves (after_open listens s o)
    → (o ≡ returned true)
      × (s.communication ≡ pos 2)
      × (listens s.tcp_port1 ≡ true)
      × (listens s.tcp_port2 ≡ true)
after_open-Serves listens s thrown h = absurd h
after_open-Serves listens s (returned false) h = absurd h
after_open-Serves listens s (returned true) h = elim (Bool-cases (int_eq s.communication (pos 2))) [
  | inl k ↦ (let (a, b) = (rw k at h) in (refl, is_two s.communication k, a, b))
  | inr k ↦ absurd (rw k at h)
]

-- The loops come to run with both servers listening exactly when the file gives the key communication of
-- [Serial] as 2, for a missing key 0; the display can be opened: LedMode of [Serial], for a missing key 0, is 0 or
-- 2, and Led of [Serial], for a missing key "/dev/ttyS5", is a device, a comma and a port, neither of them empty,
-- that the channel accepts; and Open succeeds for RobortPort and for ManualPort of [socket], for missing keys
-- 5000 and 5001.
pub start_up-CanServe_iff :
    (atoi : Bytes → ℤ) (opens : Channels) (listens : Listens) (file : List IniSection)
    → Serves (start_up atoi opens listens file) ↔ CanServe atoi opens listens file
unfolding start_up read_cfg settings
start_up-CanServe_iff atoi opens listens file = (there, back)
  where
    s : Settings
    s = settings atoi file

    there : Serves (start_up atoi opens listens file) → CanServe atoi opens listens file
    there h = elim (Bool-cases (read_cfg s)) [
      | inl k ↦
          (let (o, c, a, b) =
              after_open-Serves listens s (fb_open atoi opens s.led_mode s.uart1)
                (rw (k, start_up) at h) in
            record {
              sockets = c;
              display = fb_open-CanOpen atoi opens s.led_mode s.uart1 o;
              robot = a;
              manual = b;
            })
      | inr k ↦ absurd (rw (k, start_up) at h)
    ]

    back : CanServe atoi opens listens file → Serves (start_up atoi opens listens file)
    back h =
        let c : s.communication ≡ pos 2 = h.sockets in
        let e : fb_open atoi opens s.led_mode s.uart1 ≡ returned true =
          fb_open-returned atoi opens s.led_mode s.uart1 h.display in
        rw (c, e, start_up) (h.robot, h.manual)
