-- ===== src/VncClient/Runs.antt =====
-- Key events by the kernel's numbers.
use wlvncc.Base.{ℕ, ◌<◌, ◌≤◌, ◌≡◌, refl, true, false, [], ◌∷◌}
use wlvncc.VncClient.Keys.{
  extended_key, key, code_map_linux_to_qnum_len, send_keyboard_event, send_keyboard_event_lem,
  code_map_linux_to_qnum, look_up, choose_qnum, put_key_event, key_messages,
}

-- The key 99 (KEY_SYSRQ) is sent as 84. Where the write fails the plain event is tried after it, and
-- a server that takes neither gets nothing.
send_keyboard_event-sysrq :
    (send_keyboard_event true true true 5 99 true ≡ (extended_key 5 84 true ∷ []))
    × (send_keyboard_event true false true 5 99 true ≡ (extended_key 5 84 true ∷ key 5 true ∷ []))
    × (send_keyboard_event false true false 5 99 true ≡ [])
unfolding send_keyboard_event code_map_linux_to_qnum look_up choose_qnum put_key_event
send_keyboard_event-sysrq = (refl, refl, refl)

-- The key 400 has no entry and is sent as itself.
send_keyboard_event_lem_example :
    (code_map_linux_to_qnum_len ≤ 400 → send_keyboard_event true true true 5 400 true ≡ [])
    × (400 < code_map_linux_to_qnum_len
        → (qnum : ℕ) × (qnum < code_map_linux_to_qnum_len)
          × (qnum ≡ 0 → ◌≡◌ {A = ℕ} 400 0)
          × (send_keyboard_event true true true 5 400 true
              ≡ key_messages true true true 5 qnum true))
send_keyboard_event_lem_example = send_keyboard_event_lem true true true 5 400 true
