-- ===== src/Rfb/Delivery.antt =====
-- From the functions of src/rfbproto.c that send to what the server reads.
use mathlib.Core.List.{append-nil, append_assoc}
use wlvncc.Base.{
  ℕ, ◌≡◌, refl, subst, sym, ap, ◌∙◌, Bool, true, false, not, ◌&&◌, List, [], ◌∷◌, ◌++◌, Option,
  some, length, drop, drop-append_length, select, All, if◌then◌else◌, Bool-cases, Option-cases, inl,
  inr, arith,
}
use wlvncc.Base.Int.{pos}
use wlvncc.Sockets.{write_to_rfb_server}
use wlvncc.Sockets.Sending.{write_to_rfb_server_exact}
use wlvncc.Rfb.{SupportedMessages, Rfb, write, ◌and_then◌, is_supported, if_supported}
use wlvncc.Rfb.Messages.{
  send_framebuffer_update_request, send_pointer_event, send_key_event, send_extended_key_event,
  send_client_cut_text, text_header,
}
use wlvncc.Rfb.Parsing.{
  ClientMessage, update_requested, key, extended_key, pointer, cut_text, Fits, bytes_of,
  bytes_of_all, parse_messages, parse_messages-bytes_of_all,
}

-- The function that sends a message.
unfoldable pub send : ClientMessage → Rfb → Option (Rfb × Bool)
send (update_requested b x y w h) = send_framebuffer_update_request x y w h b
send (key b k) = send_key_event k b
send (extended_key b k c) = send_extended_key_event k c b
send (pointer m x y) = send_pointer_event (pos x) (pos y) m
send (cut_text text) = send_client_cut_text text

-- Whether the message leaves the client: the server takes it, and a request for an update is not
-- held back by a change of size.
unfoldable pub goes_out : SupportedMessages → Bool → ClientMessage → Bool
goes_out s resizing (update_requested b x y w h) = is_supported s.client2server 3 && not resizing
goes_out s resizing (key b k) = is_supported s.client2server 4
goes_out s resizing (extended_key b k c) = is_supported s.client2server 255
goes_out s resizing (pointer m x y) = is_supported s.client2server 5
goes_out s resizing (cut_text text) = is_supported s.client2server 6

-- Messages one after the other, as long as the calls return TRUE.
unfoldable pub send_messages : List ClientMessage → Rfb → Option (Rfb × Bool)
unfolding send ◌and_then◌
send_messages [] r = some (r, true)
send_messages (m ∷ ms) r = (send m and_then send_messages ms) r

-- These bytes have been sent and nothing else has changed but the socket.
record Sent (r : Rfb) (bytes : List ℕ) (r' : Rfb) : Type 0 where
  sent : r'.sent ≡ r.sent ++ bytes
  supported : r'.supported ≡ r.supported
  resizing : r'.requested_resize ≡ r.requested_resize

nil_of-length : (xs : List ℕ) → length xs ≡ 0 → xs ≡ []
nil_of-length [] e = refl
nil_of-length (x ∷ xs) e = absurd (omega (arith, e))

write-Sent :
    (bytes : List ℕ) (r : Rfb) {r' : Rfb} → write bytes r ≡ some (r', true) → Sent r bytes r'
unfolding write
write-Sent bytes r {r'} e = elim (Option-cases (write_to_rfb_server r.attempts bytes r.sent)) [
  | inl waits ↦ absurd (ground (arith, e, waits))
  | inr (p, put) ↦
      let e' : record r { sent = p.sent; attempts = p.left } ≡ r' = ground (arith, e, put) in
      let ok : p.ok ≡ true = ground (arith, e, put) in
      let (front, back, whole, sent, all) = write_to_rfb_server_exact r.attempts bytes r.sent put in
      let nothing_left : length back ≡ 0 = ground (arith, all, ok) in
      let complete : front ≡ bytes =
        sym (append-nil front)
        ∙ ap (λ b. front ++ b) (sym (nil_of-length back nothing_left))
        ∙ whole in
      record {
        sent = ap (λ (s : Rfb). s.sent) (sym e') ∙ sent ∙ ap (λ f. r.sent ++ f) complete;
        supported = ap (λ (s : Rfb). s.supported) (sym e');
        resizing = ap (λ (s : Rfb). s.requested_resize) (sym e');
      }
]

Sent-none : (r : Rfb) {r' : Rfb} → r ≡ r' → Sent r [] r'
Sent-none r {r'} e = record {
  sent = ap (λ (s : Rfb). s.sent) (sym e) ∙ sym (append-nil r.sent);
  supported = ap (λ (s : Rfb). s.supported) (sym e);
  resizing = ap (λ (s : Rfb). s.requested_resize) (sym e);
}

Sent-append : (a b : List ℕ) (r s t : Rfb) → Sent r a s → Sent s b t → Sent r (a ++ b) t
Sent-append a b r s t p q = record {
  sent = q.sent ∙ ap (λ u. u ++ b) p.sent ∙ append_assoc r.sent a b;
  supported = q.supported ∙ p.supported;
  resizing = q.resizing ∙ p.resizing;
}

and_then-eq-true :
    (f g : Rfb → Option (Rfb × Bool)) (r t : Rfb)
    → (f and_then g) r ≡ some (t, true)
    → (s : Rfb) × (f r ≡ some (s, true)) × (g s ≡ some (t, true))
unfolding ◌and_then◌
and_then-eq-true f g r t e = elim (Option-cases (f r)) [
  | inl waits ↦ absurd (ground (arith, e, waits))
  | inr (s, there) ↦ elim (Bool-cases (s.1)) [
    | inl ok ↦ (s.0, ground (arith, there, ok), ground (arith, e, there, ok))
    | inr bad ↦ absurd (ground (arith, e, there, bad))
  ]
]

-- A message that is sent if the server takes it.
if_supported-Sent :
    (type : ℕ) (b : Bool) (f : Rfb → Option (Rfb × Bool)) (bytes : List ℕ) (r r' : Rfb)
    → ((s : Rfb) → f r ≡ some (s, true) → Sent r bytes s)
    → if_supported type b f r ≡ some (r', true)
    → Sent r (if is_supported r.supported.client2server type then bytes else []) r'
unfolding if_supported
if_supported-Sent type b f bytes r r' h e =
    elim (Bool-cases (is_supported r.supported.client2server type)) [
      | inl there ↦ rw there (h r' (ground (arith, e, there)))
      | inr absent ↦ rw absent (Sent-none r (ground (arith, e, absent)))
    ]

two_writes-Sent :
    (a b : List ℕ) (r r' : Rfb)
    → (write a and_then write b) r ≡ some (r', true)
    → Sent r (a ++ b) r'
two_writes-Sent a b r r' e =
    let (s, first, second) = and_then-eq-true (write a) (write b) r r' e in
    Sent-append a b r s r' (write-Sent a r first) (write-Sent b s second)

-- The bytes that a message adds.
wire : SupportedMessages → Bool → ClientMessage → List ℕ
wire s resizing m = if goes_out s resizing m then bytes_of m else []

unless_resizing : List ℕ → Rfb → Option (Rfb × Bool)
unless_resizing bytes r = if r.requested_resize then some (r, true) else write bytes r

unless_resizing-Sent :
    (bytes : List ℕ) (r r' : Rfb)
    → unless_resizing bytes r ≡ some (r', true)
    → Sent r (if r.requested_resize then [] else bytes) r'
unfolding unless_resizing
unless_resizing-Sent bytes r r' e = elim (Bool-cases r.requested_resize) [
  | inl resizing ↦
      subst (λ b. Sent r (if b then [] else bytes) r') (sym resizing)
        (Sent-none r (ground (arith, e, resizing)))
  | inr steady ↦
      subst (λ b. Sent r (if b then [] else bytes) r') (sym steady)
        (write-Sent bytes r (ground (arith, e, steady)))
]

both_tests :
    (a b : Bool) (bytes : List ℕ)
    → (if a && not b then bytes else []) ≡ (if a then (if b then [] else bytes) else [])
both_tests true true bytes = refl
both_tests true false bytes = refl
both_tests false b bytes = refl

send-Sent :
    (m : ClientMessage) (r r' : Rfb)
    → send m r ≡ some (r', true)
    → Sent r (wire r.supported r.requested_resize m) r'
unfolding send wire goes_out bytes_of unless_resizing
send-Sent (update_requested b x y w h) r r' e =
    let bytes = bytes_of (update_requested b x y w h) in
    rw (both_tests (is_supported r.supported.client2server 3) r.requested_resize bytes) (
      unfold send_framebuffer_update_request in
      if_supported-Sent 3 true (unless_resizing bytes) (if r.requested_resize then [] else bytes) r
        r' (λ s. unless_resizing-Sent bytes r s) e)
send-Sent (key b k) r r' e =
    let bytes = bytes_of (key b k) in
    unfold send_key_event in
    if_supported-Sent 4 true (write bytes) bytes r r' (λ s. write-Sent bytes r) e
send-Sent (extended_key b k c) r r' e =
    let bytes = bytes_of (extended_key b k c) in
    unfold send_extended_key_event in
    if_supported-Sent 255 false (write bytes) bytes r r' (λ s. write-Sent bytes r) e
send-Sent (pointer m x y) r r' e =
    let bytes = bytes_of (pointer m x y) in
    unfold send_pointer_event in
    if_supported-Sent 5 true (write bytes) bytes r r' (λ s. write-Sent bytes r) e
send-Sent (cut_text text) r r' e =
    let head = text_header 6 (length text) in
    unfold send_client_cut_text in
    if_supported-Sent 6 true (write head and_then write text) (head ++ text) r r'
      (λ s. two_writes-Sent head text r s) e

-- The messages that leave the client.
pub outgoing : SupportedMessages → Bool → List ClientMessage → List ClientMessage
outgoing s resizing ms = select (goes_out s resizing) ms

wire-outgoing :
    (s : SupportedMessages) (resizing : Bool) (m : ClientMessage) (ms : List ClientMessage)
    → wire s resizing m ++ bytes_of_all (outgoing s resizing ms)
      ≡ bytes_of_all (outgoing s resizing (m ∷ ms))
unfolding wire outgoing bytes_of_all
wire-outgoing s resizing m ms = elim (Bool-cases (goes_out s resizing m)) [
  | inl there ↦ rw (there, select) refl
  | inr held ↦ rw (held, select) refl
]

send_messages-Sent :
    (ms : List ClientMessage) (r r' : Rfb)
    → send_messages ms r ≡ some (r', true)
    → Sent r (bytes_of_all (outgoing r.supported r.requested_resize ms)) r'
unfolding send_messages
send_messages-Sent [] r r' e = unfold outgoing bytes_of_all in Sent-none r (ground (arith, e))
send_messages-Sent (m ∷ ms) r t e =
    let (s, first, others) = and_then-eq-true (send m) (send_messages ms) r t e in
    let one = send-Sent m r s first in
    let more = send_messages-Sent ms s t others in
    let more' : Sent s (bytes_of_all (outgoing r.supported r.requested_resize ms)) t =
      rw (← one.supported, ← one.resizing) more in
    subst (λ b. Sent r b t) (wire-outgoing r.supported r.requested_resize m ms)
      (Sent-append _ _ r s t one more')

All-select :
    (p : ClientMessage → Bool) (ms : List ClientMessage) → All Fits ms → All Fits (select p ms)
All-select p [] f = tt
All-select p (m ∷ ms) f =
    elim (p m) as (λ b. All Fits (elim b [ true ↦ m ∷ select p ms | false ↦ select p ms ])) [
      | true ↦ (f.0, All-select p ms f.1)
      | false ↦ All-select p ms f.1
    ]

-- When a run of messages has been sent, each call having returned TRUE, a server that reads what
-- has been written reads exactly those messages that it is known to take, in their order, less the
-- requests for updates while a change of size is awaited.
pub send_messages_delivered :
    (ms : List ClientMessage) (r r' : Rfb)
    → All Fits ms
    → send_messages ms r ≡ some (r', true)
    → parse_messages
        (length (outgoing r.supported r.requested_resize ms))
        (drop (length r.sent) r'.sent)
      ≡ some (outgoing r.supported r.requested_resize ms)
send_messages_delivered ms r r' f e =
    let out = outgoing r.supported r.requested_resize ms in
    let fits : All Fits out =
      unfold outgoing in All-select (goes_out r.supported r.requested_resize) ms f in
    let s = send_messages-Sent ms r r' e in
    rw (s.sent, drop-append_length r.sent (bytes_of_all out)) (parse_messages-bytes_of_all out fits)
