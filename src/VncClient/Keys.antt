-- ===== src/VncClient/Keys.antt =====
-- src/evdev-to-qnum.c: the key numbers of the kernel and those of QEMU's extended key events; and
-- src/vnc.c, vnc_client_send_keyboard_event.
pub mod Table
use wlvncc.Base.{
  ℕ, ◌≤◌, ◌<◌, ◌≡◌, refl, Bool, true, false, ◌&&◌, List, [], ◌∷◌, ◌++◌, ◌==◌, leb, if◌then◌else◌,
  arith, both_true,
}
use wlvncc.VncClient.Keys.Table.{Row, first_rows, other_rows}

abbrev pub code_map_linux_to_qnum_len : ℕ
code_map_linux_to_qnum_len = 525

-- An entry that is not designated is 0.
unfoldable pub look_up : List Row → ℕ → ℕ
look_up [] code = 0
look_up (r ∷ rs) code = if r.code == code then r.qnum else look_up rs code

-- For a code below the length.
unfoldable pub code_map_linux_to_qnum : ℕ → ℕ
code_map_linux_to_qnum code = look_up (first_rows ++ other_rows) code

-- What is sent: QEMU's extended event, or where the server has none the plain one.
pub data KeyMessage : Type 0 where
  extended_key : ℕ → ℕ → Bool → KeyMessage
  key : ℕ → Bool → KeyMessage

unfoldable pub choose_qnum : ℕ → ℕ → ℕ
choose_qnum entry code = if entry == 0 then code else entry

-- SendKeyEvent is silent, and says that all is well, where the server does not take key events.
unfoldable pub put_key_event : Bool → ℕ → Bool → List KeyMessage
put_key_event supported symbol is_pressed = if supported then key symbol is_pressed ∷ [] else []

-- The messages that are given to WriteToRFBServer. `extended` and `plain` say which events the
-- server takes, `written` whether the extended one is written: if it is not, SendExtendedKeyEvent
-- fails and the plain event is tried as well.
unfoldable pub send_keyboard_event : Bool → Bool → Bool → ℕ → ℕ → Bool → List KeyMessage
unfolding put_key_event
send_keyboard_event extended written plain symbol code is_pressed =
    if leb code_map_linux_to_qnum_len code
    then []
    else if extended
    then extended_key symbol (choose_qnum (code_map_linux_to_qnum code) code) is_pressed
      ∷ (if written then [] else put_key_event plain symbol is_pressed)
    else put_key_event plain symbol is_pressed

all_small : List Row → Bool
all_small [] = true
all_small (r ∷ rs) = leb r.qnum 253 && all_small rs

look_up-small : (rs : List Row) (code : ℕ) → all_small rs ≡ true → look_up rs code ≤ 253
unfolding look_up all_small
look_up-small [] code h = omega arith
look_up-small (r ∷ rs) code h =
    let both = both_true {a = leb r.qnum 253} {b = all_small rs} h in
    let rest = look_up-small rs code both.1 in ground (arith, both.0, rest)

code_map-small : (code : ℕ) → code_map_linux_to_qnum code ≤ 253
unfolding code_map_linux_to_qnum all_small
code_map-small code = look_up-small (first_rows ++ other_rows) code refl

choose_qnum_lem :
    (entry code : ℕ)
    → entry ≤ 253
    → code < code_map_linux_to_qnum_len
    → (choose_qnum entry code < code_map_linux_to_qnum_len)
      × (choose_qnum entry code ≡ 0 → code ≡ 0)
unfolding choose_qnum
choose_qnum_lem entry code h k = ground arith

-- The events that a key comes to, by what the server takes and whether the write goes through.
unfoldable pub key_messages : Bool → Bool → Bool → ℕ → ℕ → Bool → List KeyMessage
key_messages true true plain symbol qnum is_pressed = extended_key symbol qnum is_pressed ∷ []
key_messages true false true symbol qnum is_pressed =
    extended_key symbol qnum is_pressed ∷ key symbol is_pressed ∷ []
key_messages true false false symbol qnum is_pressed = extended_key symbol qnum is_pressed ∷ []
key_messages false written true symbol qnum is_pressed = key symbol is_pressed ∷ []
key_messages false written false symbol qnum is_pressed = []

key_messages_lem :
    (extended written plain : Bool) (symbol qnum : ℕ) (is_pressed : Bool)
    → (if extended
        then extended_key symbol qnum is_pressed
          ∷ (if written then [] else put_key_event plain symbol is_pressed)
        else put_key_event plain symbol is_pressed)
      ≡ key_messages extended written plain symbol qnum is_pressed
unfolding key_messages put_key_event
key_messages_lem true true plain symbol qnum is_pressed = refl
key_messages_lem true false true symbol qnum is_pressed = refl
key_messages_lem true false false symbol qnum is_pressed = refl
key_messages_lem false written true symbol qnum is_pressed = refl
key_messages_lem false written false symbol qnum is_pressed = refl

-- A key below the table's length is sent as one extended event where the server takes those and it
-- is written, and where it is not the plain event is tried after it; where the server does not take
-- extended events the key is sent as one plain event, and where it takes neither, not at all. The
-- event says pressed or released as it was; an extended one carries a number below the table's
-- length, which is 0 for the key 0 alone. A key from that length on is not sent.
pub send_keyboard_event_lem :
    (extended written plain : Bool) (symbol code : ℕ) (is_pressed : Bool)
    → let ms = send_keyboard_event extended written plain symbol code is_pressed in
      (code_map_linux_to_qnum_len ≤ code → ms ≡ [])
      × (code < code_map_linux_to_qnum_len
          → (qnum : ℕ) × (qnum < code_map_linux_to_qnum_len)
            × (qnum ≡ 0 → code ≡ 0)
            × (ms ≡ key_messages extended written plain symbol qnum is_pressed))
unfolding send_keyboard_event key_messages
send_keyboard_event_lem extended written plain symbol code is_pressed = (
  λ h. rw (past h) refl,
  λ h.
      let (below, zero) =
        choose_qnum_lem (code_map_linux_to_qnum code) code (code_map-small code) h in
      (
        choose_qnum (code_map_linux_to_qnum code) code,
        below,
        zero,
        rw (within h) (key_messages_lem extended written plain symbol _ is_pressed),
      ),
)
  where
    past : code_map_linux_to_qnum_len ≤ code → leb code_map_linux_to_qnum_len code ≡ true
    past h = ground arith

    within : code < code_map_linux_to_qnum_len → leb code_map_linux_to_qnum_len code ≡ false
    within h = ground arith
