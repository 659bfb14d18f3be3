-- ===== src/Handshake.antt =====
-- src/rfbproto.c, the beginning of a connection: the choice of a security type, the password, the
-- result of an authentication and its reason. A read takes the next bytes of what the server sends.
pub mod Initialise
pub mod Choosing
pub mod Runs
use wlvncc.Base.{
  ℕ, zero, suc, ◌+◌, ◌-◌, Bool, true, false, not, ◌&&◌, ◌||◌, List, [], ◌∷◌, ◌++◌, Option, none,
  some, length, take, drop, ltb, leb, ◌==◌, if◌then◌else◌,
}
use wlvncc.Rfb.{
  Size, Format, SupportedMessages, default_supported_messages_ultra_vnc,
  default_supported_messages_tight_vnc,
}
use wlvncc.Decoding.{field}

-- The client while it connects; `si` is what the server says of its screen.
pub record Session : Type 0 where
  pub input : List ℕ
  pub sent : List ℕ
  pub supported : SupportedMessages
  pub major : ℕ
  pub minor : ℕ
  pub auth_scheme : ℕ
  pub sub_auth_scheme : ℕ
  pub si_size : Size
  pub si_format : Format
  pub desktop_name : Option (List ℕ)

-- A part of the handshake: the session after it and whether it returns TRUE.
abbrev pub Act : Type 0
Act = Session → Session × Bool

abbrev pub accept : Act
accept s = (s, true)

abbrev pub refuse : Act
refuse s = (s, false)

infixl 5 ◌and_then◌
unfoldable pub ◌and_then◌ : Act → Act → Act
◌and_then◌ f g s = let r = f s in if r.1 then g r.0 else (r.0, false)

-- if (!ReadFromRFBServer(client, p, n)) return FALSE; what follows gets the bytes.
unfoldable pub receive : ℕ → (List ℕ → Act) → Act
receive n k s =
    if leb n (length s.input)
    then k (take n s.input) (record s { input = drop n s.input })
    else (s, false)

-- What the handshake asks of the rest: whether a write succeeds after what has been sent and whether
-- so many bytes can be allocated; which libraries the program is built with, and the types that an
-- extension handles, 0 not being one of them; the client's own list of types, up to the 0 at its end;
-- the password and the encryption of a challenge with it; the other authentications.
pub record Surroundings : Type 0 where
  pub writes : List ℕ → Bool
  pub memory : ℕ → Bool
  pub have_tls : Bool
  pub have_sasl : Bool
  pub extension : ℕ → Bool
  pub client_auth_schemes : Option (List ℕ)
  pub get_password : Option (List ℕ)
  pub encrypt : List ℕ → List ℕ → List ℕ
  pub sasl_auth : Act
  pub ultra_ms_logon_ii_auth : Act
  pub ms_logon_auth : Act
  pub ard_auth : Act
  pub anon_tls_auth : Act
  pub ve_n_crypt_auth : Act
  pub plain_auth : Act
  pub extension_auth : ℕ → Act
  pub scan_version : List ℕ → Option (ℕ × ℕ)
  pub share_desktop : Bool

module _ (C : Surroundings) where
  -- if (!WriteToRFBServer(client, bytes)) return FALSE
  unfoldable pub transmit : List ℕ → Act
  transmit bytes s =
      if C.writes s.sent then (record s { sent = s.sent ++ bytes }, true) else (s, false)

  -- The reason that the server gives, which is no more than logged.
  unfoldable pub read_reason : Act
  read_reason = receive 4 (λ bytes.
      let n = field 0 4 bytes in
      if ltb 1048576 n || not (C.memory (n + 1)) then refuse else receive n (λ reason. refuse))

  unfoldable pub handle_auth_result : Act
  handle_auth_result = receive 4 (λ bytes.
      let result = field 0 4 bytes in
      if result == 0
      then accept
      else if result == 1
      then (λ s. if s.major == 3 && ltb 7 s.minor then read_reason s else refuse s)
      else refuse)

  unfoldable pub handle_vnc_auth : Act
  handle_vnc_auth = receive 16 (λ challenge. elim C.get_password [
    | none ↦ refuse
    | some password ↦
        if length password == 0
        then refuse
        else (transmit (C.encrypt challenge (take 8 password)) and_then handle_auth_result)
  ])

  -- The types that the client knows how to go on with.
  unfoldable pub can_handle : Bool → ℕ → Bool
  can_handle sub_auth type =
      type == 2
      || type == 1
      || C.extension type
      || (C.have_tls && not sub_auth && (type == 18 || type == 19))
      || (C.have_sasl && type == 20)
      || type == 30
      || type == 113

  unfoldable pub listed : ℕ → List ℕ → Bool
  listed type [] = false
  listed type (t ∷ ts) = t == type || listed type ts

  -- The client's own list is not asked about the types within a session that is encrypted already.
  unfoldable pub selectable : Bool → ℕ → Bool
  unfolding listed
  selectable sub_auth type =
      if sub_auth
      then true
      else elim C.client_auth_schemes [ none ↦ true | some schemes ↦ listed type schemes ]

  unfoldable pub announce : ℕ → SupportedMessages → SupportedMessages
  announce type supported =
      if type == 17
      then default_supported_messages_ultra_vnc
      else if type == 16
      then default_supported_messages_tight_vnc
      else supported

  -- The loop over the types, with `flag` and authScheme. After the first that can be taken the others
  -- are read and passed over.
  unfoldable pub read_types : Bool → ℕ → Bool → ℕ → (ℕ → Act) → Act
  read_types sub_auth zero flag scheme k = if scheme == 0 then refuse else k scheme
  read_types sub_auth (suc n) flag scheme k = receive 1 (λ bytes s.
      let type = field 0 1 bytes in
      let passed = read_types sub_auth n flag scheme k in
      let taken = read_types sub_auth n true type k in
      (if not flag && (can_handle sub_auth type && selectable sub_auth type)
          then (transmit bytes and_then taken)
          else passed)
        (record s { supported = announce type s.supported }))

  unfoldable pub read_supported_security_type : Bool → (ℕ → Act) → Act
  read_supported_security_type sub_auth k = receive 1 (λ bytes.
      let count = field 0 1 bytes in
      if count == 0 then read_reason else read_types sub_auth count false 0 k)
