-- ===== src/Handshake/Choosing.antt =====
-- Which of the server's security types ReadSupportedSecurityType of src/rfbproto.c takes.
use wlvncc.Base.{
  ℕ, ◌<◌, ◌≡◌, refl, ap, ◌∙◌, Bool, true, false, ◌&&◌, List, [], ◌∷◌, ◌++◌, Option, none, some, All,
  length, leb, ◌==◌, if◌then◌else◌, Bool-cases, inl, inr, both_true, ==_iff, arith,
}
use wlvncc.Rfb.{SupportedMessages}
use wlvncc.Decoding.{field, network, network_from}
use wlvncc.Handshake.{
  Session, Act, ◌and_then◌, receive, Surroundings, transmit, can_handle, selectable, announce,
  read_types, read_supported_security_type,
}

-- A session with these bytes to come.
abbrev pub hears : List ℕ → Session → Session
hears bytes s = record s { input = bytes }

receive-one :
    (t : ℕ) (xs : List ℕ) (k : List ℕ → Act) (s : Session)
    → receive 1 k (hears (t ∷ xs) s) ≡ k (t ∷ []) (hears xs s)
unfolding receive
receive-one t xs k s = let e : leb 1 (length (t ∷ xs)) ≡ true = ground arith in rw e refl

field-byte : (t : ℕ) → t < 256 → field 0 1 (t ∷ []) ≡ t
unfolding field network network_from
field-byte t h = omega (arith, h)

module _ (C : Surroundings) (sub_auth : Bool) where
  -- The first of the server's types that the client can go on with and may.
  abbrev pub first : List ℕ → Option ℕ
  first [] = none
  first (t ∷ ts) = if can_handle C sub_auth t && selectable C sub_auth t then some t else first ts

  abbrev pub announced : List ℕ → SupportedMessages → SupportedMessages
  announced [] m = m
  announced (t ∷ ts) m = announced ts (announce C t m)

  -- After the types: TRUE is given with the one that is taken, which has been sent.
  abbrev pub chosen : Option ℕ → (ℕ → Act) → Act
  chosen none k s = (s, false)
  chosen (some t) k s = k t (record s { sent = s.sent ++ t ∷ [] })

  passed_over :
      (ts rest : List ℕ) (scheme : ℕ) (k : ℕ → Act) (s : Session)
      → All (λ t. t < 256) ts
      → (scheme == 0) ≡ false
      → read_types C sub_auth (length ts) true scheme k (hears (ts ++ rest) s)
        ≡ k scheme (record s { input = rest; supported = announced ts s.supported })
  unfolding read_types
  passed_over [] rest scheme k s small e = rw e refl
  passed_over (t ∷ ts) rest scheme k s (h, small) e =
      receive-one t (ts ++ rest) _ s
      ∙ rw (field-byte t h)
          (passed_over ts rest scheme k (record s { supported = announce C t s.supported }) small e)

  -- 0 is no type that the client can handle.
  handled-ne_zero :
      (t : ℕ) → C.extension 0 ≡ false → can_handle C sub_auth t ≡ true → (t == 0) ≡ false
  unfolding can_handle
  handled-ne_zero t none_zero h = elim (Bool-cases (t == 0)) [
    | inr e ↦ e
    | inl e ↦
        let z : t ≡ 0 = (==_iff t 0).0 e in
        absurd (cc (can_handle-zero, ap (can_handle C sub_auth) z, h))
  ]
    where
      can_handle-zero : can_handle C sub_auth 0 ≡ false
      can_handle-zero = rw none_zero (ground arith)

  taken_first :
      (ts rest : List ℕ) (k : ℕ → Act) (s : Session)
      → ((sent : List ℕ) → C.writes sent ≡ true)
      → C.extension 0 ≡ false
      → All (λ t. t < 256) ts
      → read_types C sub_auth (length ts) false 0 k (hears (ts ++ rest) s)
        ≡ chosen (first ts) k (record s { input = rest; supported = announced ts s.supported })
  unfolding read_types transmit ◌and_then◌
  taken_first [] rest k s writes none_zero small = refl
  taken_first (t ∷ ts) rest k s writes none_zero (h, small) =
      receive-one t (ts ++ rest) _ s
      ∙ rw (field-byte t h)
          (elim (Bool-cases (can_handle C sub_auth t && selectable C sub_auth t)) [
            | inr cannot ↦ rw cannot (
                taken_first ts rest k (record s { supported = announce C t s.supported }) writes
                  none_zero small)
            | inl can ↦
                let able = (both_true {a = can_handle C sub_auth t} can).0 in
                rw (can, writes s.sent)
                  (passed_over ts rest t k
                    (record s { supported = announce C t s.supported; sent = s.sent ++ t ∷ [] })
                    small (handled-ne_zero t none_zero able))
          ])

  -- If every write succeeds, the server sends from 1 to 255 types, each a byte, and no extension
  -- handles the type 0: the client goes on with the first of them that it can handle and that its own
  -- list, if it asks it, names; that type and no other is sent back, the types are all read, and the
  -- messages that the types announce are supported. Where there is none, nothing is sent and FALSE is
  -- returned.
  pub read_supported_security_type-first :
      (ts rest : List ℕ) (k : ℕ → Act) (s : Session)
      → ((sent : List ℕ) → C.writes sent ≡ true)
      → C.extension 0 ≡ false
      → All (λ t. t < 256) ts
      → 0 < length ts
      → length ts < 256
      → read_supported_security_type C sub_auth k (hears (length ts ∷ ts ++ rest) s)
        ≡ chosen (first ts) k (record s { input = rest; supported = announced ts s.supported })
  unfolding read_supported_security_type
  read_supported_security_type-first ts rest k s writes none_zero small some_types few =
      let nonzero : (length ts == 0) ≡ false = ground (arith, some_types) in
      receive-one (length ts) (ts ++ rest) _ s
      ∙ rw (field-byte (length ts) few, nonzero) (taken_first ts rest k s writes none_zero small)
