-- ===== src/Channels/Uart.antt =====
-- The serial port of src/Uart.cpp. What the system calls return is part of the operations.
use imachine_hb_f.Channels.Tcp.{close_fd}
use imachine_hb_f.Prelude.{
  ℕ, zero, suc, Bool, true, false, Option, none, some, List, [], ◌∷◌, ◌==◌, if◌then◌else◌, ◌≡◌,
  refl, ==_refl,
}
use imachine_hb_f.Prelude.Int.{ℤ, pos, negsuc}

pub data Speed : Type 0 where
  b9600 b19200 b38400 b57600 b115200 : Speed

-- `SetBaud`
unfoldable pub set_baud : ℕ → Speed
set_baud rate =
    if rate == 9600
    then b9600
    else (if rate == 19200
        then b19200
        else (if rate == 38400 then b38400 else (if rate == 57600 then b57600 else b115200)))

-- The members, with `none` for an `fd` of -1, and the descriptors that the port has opened and not
-- closed.
pub record SerialPort : Type 0 where
  pub fd : Option ℕ
  pub is_open : Bool
  pub baud_rate : Speed
  pub descriptors : List ℕ

-- The constructor, whatever `fd` holds.
unfoldable pub new_port : Option ℕ → ℕ → SerialPort
unfolding set_baud
new_port fd rate = record { fd = fd; is_open = false; baud_rate = set_baud rate; descriptors = [] }

-- `Close`, which the destructor calls too.
unfoldable pub serial_close : SerialPort → SerialPort
serial_close p = record p { descriptors = close_fd p.fd p.descriptors; is_open = false }

unfoldable pub configure : Option ℕ → Bool → SerialPort → SerialPort × Bool
configure none accepted p = (record p { fd = none }, false)
configure (some fd) accepted p =
    let made : SerialPort = record p { fd = some fd; descriptors = fd ∷ p.descriptors } in
    if accepted then (record made { is_open = true }, true) else (made, false)

-- `Open`, by the result of `open` and whether `tcsetattr` succeeds.
unfoldable pub serial_open : Option ℕ → Bool → SerialPort → SerialPort × Bool
unfolding serial_close configure
serial_open fd accepted p = configure fd accepted (if p.is_open then serial_close p else p)

-- `Send`, by whether `write` succeeds.
unfoldable pub serial_send : Bool → SerialPort → ℤ
serial_send written p = if p.is_open then (if written then pos 1 else pos 0) else pos 0

-- `Recv`, by the result of `read`.
unfoldable pub serial_recv : ℤ → SerialPort → ℤ
serial_recv got p = got

-- `Recv` with a time, by the results of `select` and of `read`.
unfoldable pub serial_recv_within : ℤ → ℤ → SerialPort → ℤ
serial_recv_within (negsuc n) got p = if p.is_open then negsuc 0 else pos 0
serial_recv_within (pos zero) got p = pos 0
serial_recv_within (pos (suc n)) got p = if p.is_open then got else pos 0

-- `opens fd`: `Open`, where `tcsetattr` succeeds.
pub data SerialEvent : Type 0 where
  opens : Option ℕ → SerialEvent
  closes : SerialEvent

unfoldable pub serial_step : SerialEvent → SerialPort → SerialPort
unfolding serial_open serial_close
serial_step (opens fd) p = (serial_open fd true p).0
serial_step closes p = serial_close p

unfoldable pub serial_run : List SerialEvent → SerialPort → SerialPort
unfolding serial_step
serial_run [] p = p
serial_run (e ∷ es) p = serial_run es (serial_step e p)

data IsTidy : SerialPort → Type 0 where
  shut :
      (fd : Option ℕ) (s : Speed)
      → IsTidy (record { fd = fd; is_open = false; baud_rate = s; descriptors = [] })
  opened :
      (fd : ℕ) (s : Speed)
      → IsTidy (record { fd = some fd; is_open = true; baud_rate = s; descriptors = fd ∷ [] })

serial_step-IsTidy : (e : SerialEvent) (p : SerialPort) → IsTidy p → IsTidy (serial_step e p)
unfolding serial_step serial_open serial_close configure
serial_step-IsTidy (opens none) _ (shut fd s) = shut none s
serial_step-IsTidy (opens (some f)) _ (shut fd s) = opened f s
serial_step-IsTidy closes _ (shut none s) = shut none s
serial_step-IsTidy closes _ (shut (some fd) s) = shut (some fd) s
serial_step-IsTidy (opens none) _ (opened fd s) = rw (==_refl fd) (shut none s)
serial_step-IsTidy (opens (some f)) _ (opened fd s) = rw (==_refl fd) (opened f s)
serial_step-IsTidy closes _ (opened fd s) = rw (==_refl fd) (shut (some fd) s)

serial_run-IsTidy : (es : List SerialEvent) (p : SerialPort) → IsTidy p → IsTidy (serial_run es p)
unfolding serial_run
serial_run-IsTidy [] p h = h
serial_run-IsTidy (e ∷ es) p h = serial_run-IsTidy es (serial_step e p) (serial_step-IsTidy e p h)

-- The descriptor of an open port.
abbrev pub held : SerialPort → List ℕ
held p = if p.is_open then elim p.fd [ none ↦ [] | some fd ↦ fd ∷ [] ] else []

IsTidy-held : (p : SerialPort) → IsTidy p → p.descriptors ≡ held p
IsTidy-held _ (shut fd s) = refl
IsTidy-held _ (opened fd s) = refl

-- After any sequence of calls of Open and Close, as long as no attributes are refused, the port holds the
-- descriptor of its fd if isOpen is true, and none otherwise.
pub serial_run-held :
    (fd : Option ℕ) (rate : ℕ) (es : List SerialEvent)
    → (serial_run es (new_port fd rate)).descriptors ≡ held (serial_run es (new_port fd rate))
unfolding new_port
serial_run-held fd rate es = IsTidy-held _ (serial_run-IsTidy es _ (shut fd (set_baud rate)))
