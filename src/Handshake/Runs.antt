-- ===== src/Handshake/Runs.antt =====
-- Connections as bytes (InitialiseRFBConnection of src/rfbproto.c): the password is "a", and a
-- challenge is encrypted by taking its first two bytes.
use wlvncc.Base.{
  ℕ, ◌≡◌, refl, Bool, true, false, List, [], ◌∷◌, ◌++◌, ◌-◌, ◌+◌, Option, none, some, take, arith,
}
use wlvncc.Rfb.{Size}
use wlvncc.Decoding.{field, network, network_from}
use wlvncc.Handshake.{
  Session, accept, refuse, ◌and_then◌, receive, Surroundings, transmit, read_reason,
  handle_auth_result, handle_vnc_auth, can_handle, listed, selectable, announce, read_types,
  read_supported_security_type,
}
use wlvncc.Handshake.Initialise.{
  digits3, version_message, settle_version, no_auth, sub_authenticate, ve_n_crypt_scheme,
  authenticate, security, see_server, read_name, server_init, initialise_rfb_connection,
}
use wlvncc.Handshake.Choosing.{hears, chosen, announced, read_supported_security_type-first}

abbrev around : Surroundings
unfolding field network network_from
around = record {
  writes = λ sent. true;
  memory = λ room. true;
  have_tls = true;
  have_sasl = false;
  extension = λ type. false;
  client_auth_schemes = none;
  get_password = some (97 ∷ []);
  encrypt = λ challenge password. take 2 challenge ++ password;
  sasl_auth = refuse;
  ultra_ms_logon_ii_auth = refuse;
  ms_logon_auth = refuse;
  ard_auth = refuse;
  anon_tls_auth = accept;
  ve_n_crypt_auth = refuse;
  plain_auth = refuse;
  extension_auth = λ scheme. refuse;
  scan_version = λ bytes. some (3, field 10 1 bytes - 48);
  share_desktop = true;
}

abbrev fresh : Session
fresh = record {
  input = [];
  sent = [];
  supported = record { client2server = []; server2client = [] };
  major = 0;
  minor = 0;
  auth_scheme = 0;
  sub_auth_scheme = 0;
  si_size = record { width = 0; height = 0 };
  si_format = record {
    bits_per_pixel = 0;
    depth = 0;
    big_endian = 0;
    true_colour = 0;
    red_max = 0;
    green_max = 0;
    blue_max = 0;
    red_shift = 0;
    green_shift = 0;
    blue_shift = 0;
    padding = [];
  };
  desktop_name = none;
}

-- What is looked at: what is sent, the version, the scheme, the size, the name, the bytes that are
-- left and the result.
abbrev Seen : Type 0
Seen = List ℕ × (ℕ × ℕ) × ℕ × Size × Option (List ℕ) × List ℕ × Bool

run_connection : List ℕ → Seen
unfolding initialise_rfb_connection server_init read_name see_server security authenticate
    ve_n_crypt_scheme sub_authenticate no_auth settle_version version_message digits3
    read_supported_security_type read_types announce selectable listed can_handle handle_vnc_auth
    handle_auth_result read_reason transmit receive ◌and_then◌ field network network_from around
run_connection bytes =
    let r = initialise_rfb_connection around (hears bytes fresh) in
    let s = r.0 in
    (s.sent, (s.major, s.minor), s.auth_scheme, s.si_size, s.desktop_name, s.input, r.1)

-- "RFB 003.008\n" and the like.
abbrev version : ℕ → List ℕ
version minor = 82 ∷ 70 ∷ 66 ∷ 32 ∷ 48 ∷ 48 ∷ 51 ∷ 46 ∷ 48 ∷ 48 ∷ (minor + 48) ∷ 10 ∷ []

abbrev screen : List ℕ
screen =
    1 ∷ 0 ∷ 0 ∷ 200 ∷ 32 ∷ 24 ∷ 0 ∷ 1 ∷ 0 ∷ 255 ∷ 0 ∷ 255 ∷ 0 ∷ 255 ∷ 16 ∷ 8 ∷ 0 ∷ 0 ∷ 0 ∷ 0 ∷ 0 ∷ 0
    ∷ 0 ∷ 2 ∷ 104 ∷ 105 ∷ []

abbrev challenge : List ℕ
challenge = 1 ∷ 2 ∷ 3 ∷ 4 ∷ 5 ∷ 6 ∷ 7 ∷ 8 ∷ 9 ∷ 10 ∷ 11 ∷ 12 ∷ 13 ∷ 14 ∷ 15 ∷ 16 ∷ []

abbrev no_more : List ℕ
no_more = 0 ∷ 0 ∷ 0 ∷ 0 ∷ []

-- Three types, of which the second is taken: a password, and then the desktop.
password_runs :
    run_connection (version 8 ++ (3 ∷ 16 ∷ 2 ∷ 1 ∷ challenge ++ (no_more ++ screen))) ≡ (
      version 8 ++ (2 ∷ 1 ∷ 2 ∷ 97 ∷ 1 ∷ []),
      (3, 8),
      2,
      record { width = 256; height = 200 },
      some (104 ∷ 105 ∷ []),
      [],
      true,
    )
unfolding run_connection
password_runs = refl

-- Version 3.3: the server decides, and sends no result where there is no authentication.
server_decides_runs : run_connection (version 3 ++ (0 ∷ 0 ∷ 0 ∷ 1 ∷ screen)) ≡ (
  version 3 ++ (1 ∷ []),
  (3, 3),
  1,
  record { width = 256; height = 200 },
  some (104 ∷ 105 ∷ []),
  [],
  true,
)
unfolding run_connection
server_decides_runs = refl

-- A newer version is answered with 3.8; the result says that the password is wrong, and why.
refused_runs :
    run_connection
      (version 9 ++ (1 ∷ 2 ∷ challenge ++ (0 ∷ 0 ∷ 0 ∷ 1 ∷ 0 ∷ 0 ∷ 0 ∷ 2 ∷ 110 ∷ 111 ∷ 7 ∷ [])))
    ≡ (
      version 8 ++ (2 ∷ 1 ∷ 2 ∷ 97 ∷ []),
      (3, 8),
      2,
      record { width = 0; height = 0 },
      none,
      7 ∷ [],
      false,
    )
unfolding run_connection
refused_runs = refl

read_supported_security_type-first_example :
    read_supported_security_type around false
      (λ type. accept)
      (hears (3 ∷ (16 ∷ 2 ∷ 1 ∷ []) ++ 7 ∷ []) fresh)
    ≡ chosen around false
        (some 2)
        (λ type. accept)
        (record fresh {
          input = 7 ∷ [];
          supported = announced around false (16 ∷ 2 ∷ 1 ∷ []) fresh.supported;
        })
unfolding can_handle selectable around
read_supported_security_type-first_example =
    read_supported_security_type-first around false (16 ∷ 2 ∷ 1 ∷ []) (7 ∷ []) (λ type. accept)
      fresh (λ sent. refl) refl (omega arith, (omega arith, (omega arith, tt))) (omega arith)
      (omega arith)
