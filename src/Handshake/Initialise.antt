-- ===== src/Handshake/Initialise.antt =====
-- InitialiseRFBConnection of src/rfbproto.c: the version, the security type and its authentication,
-- and what the server says of its screen.
use wlvncc.Base.{
  ℕ, ◌+◌, ◌-◌, ◌/◌, ◌%◌, true, false, not, ◌&&◌, ◌||◌, List, [], ◌∷◌, ◌++◌, none, some, ltb, take,
  drop, ◌==◌, if◌then◌else◌,
}
use wlvncc.Rfb.{
  default_supported_messages, default_supported_messages_ultra_vnc,
  default_supported_messages_tight_vnc,
}
use wlvncc.Decoding.{field}
use wlvncc.Handshake.{
  Session, Act, accept, refuse, ◌and_then◌, receive, Surroundings, transmit, read_reason,
  handle_auth_result, handle_vnc_auth, read_supported_security_type,
}

-- Three digits of a number below 1000, and "RFB %03d.%03d\n".
unfoldable pub digits3 : ℕ → List ℕ
digits3 n = (n / 100 + 48) ∷ (n / 10 % 10 + 48) ∷ (n % 10 + 48) ∷ []

unfoldable pub version_message : ℕ → ℕ → List ℕ
version_message major minor =
    82 ∷ 70 ∷ 66 ∷ 32 ∷ (digits3 major ++ (46 ∷ (digits3 minor ++ (10 ∷ []))))

-- What the server's version stands for: the client speaks 3.8 at most, and some old minor numbers
-- are those of servers with messages of their own.
unfoldable pub settle_version : ℕ → ℕ → Session → Session
settle_version major minor s =
    let single_click = major == 3 && (minor == 14 || minor == 16) in
    let ultra = single_click || (major == 3 && (minor == 4 || minor == 6)) in
    let minor' = if single_click then minor - 10 else minor in
    let too_new = (major == 3 && ltb 8 minor') || ltb 3 major in
    record s {
      supported =
          if major == 3 && minor' == 5
          then default_supported_messages_tight_vnc
          else if ultra
          then default_supported_messages_ultra_vnc
          else default_supported_messages;
      major = if too_new then 3 else major;
      minor = if too_new then 8 else minor';
    }

module _ (C : Surroundings) where
  unfoldable pub no_auth : Act
  no_auth s =
      if (s.major == 3 && ltb 7 s.minor) || ltb 3 s.major then handle_auth_result C s else accept s

  -- The authentication inside an encrypted session, and that of VeNCrypt.
  unfoldable pub sub_authenticate : ℕ → Act
  sub_authenticate scheme s =
      (if scheme == 0
          then read_reason C
          else if scheme == 1
          then no_auth
          else if scheme == 2
          then handle_vnc_auth C
          else if C.have_sasl && scheme == 20
          then C.sasl_auth
          else refuse)
        (record s { sub_auth_scheme = scheme })

  unfoldable pub ve_n_crypt_scheme : Act
  ve_n_crypt_scheme s =
      let scheme = s.sub_auth_scheme in
      (if scheme == 257 || scheme == 260
          then handle_auth_result C
          else if scheme == 258 || scheme == 261
          then handle_vnc_auth C
          else if scheme == 259 || scheme == 262
          then C.plain_auth
          else if C.have_sasl && (scheme == 263 || scheme == 264)
          then C.sasl_auth
          else refuse)
        s

  unfoldable pub authenticate : ℕ → Act
  authenticate scheme s =
      (if scheme == 0
          then read_reason C
          else if scheme == 1
          then no_auth
          else if scheme == 2
          then handle_vnc_auth C
          else if C.have_sasl && scheme == 20
          then C.sasl_auth
          else if scheme == 113
          then C.ultra_ms_logon_ii_auth
          else if scheme == 4294967290
          then C.ms_logon_auth
          else if scheme == 30
          then C.ard_auth
          else if scheme == 18
          then (C.anon_tls_auth and_then read_supported_security_type C true sub_authenticate)
          else if scheme == 19
          then (C.ve_n_crypt_auth and_then ve_n_crypt_scheme)
          else C.extension_auth scheme)
        (record s { auth_scheme = scheme })

  -- From 3.7 on the server sends its types, before it decides itself.
  unfoldable pub security : Act
  security s =
      (if s.major == 3 && ltb 6 s.minor
          then read_supported_security_type C false authenticate
          else receive 4 (λ bytes. authenticate (field 0 4 bytes)))
        s

  -- client->si, and the desktop's name.
  unfoldable pub see_server : List ℕ → Act
  see_server bytes s = (
    record s {
      si_size = record { width = field 0 2 bytes; height = field 2 2 bytes };
      si_format = record {
        bits_per_pixel = field 4 1 bytes;
        depth = field 5 1 bytes;
        big_endian = field 6 1 bytes;
        true_colour = field 7 1 bytes;
        red_max = field 8 2 bytes;
        green_max = field 10 2 bytes;
        blue_max = field 12 2 bytes;
        red_shift = field 14 1 bytes;
        green_shift = field 15 1 bytes;
        blue_shift = field 16 1 bytes;
        padding = take 3 (drop 17 bytes);
      };
    },
    true,
  )

  unfoldable pub read_name : ℕ → Act
  read_name n =
      if ltb 1048576 n || not (C.memory (n + 1))
      then refuse
      else receive n (λ name s. (record s { desktop_name = some name }, true))

  unfoldable pub server_init : Act
  server_init = receive 24 (λ bytes. see_server bytes and_then read_name (field 20 4 bytes))

  unfoldable pub initialise_rfb_connection : Act
  initialise_rfb_connection = receive 12 (λ pv. elim (C.scan_version pv) [
    | none ↦ refuse
    | some version ↦ λ s.
        let s' = settle_version version.0 version.1 s in
        (transmit C (version_message s'.major s'.minor)
            and_then security
            and_then transmit C ((if C.share_desktop then 1 else 0) ∷ [])
            and_then server_init)
          s'
  ])
