-- ===== src/Sockets/Runs.antt =====
-- Reads and writes on concrete connections.
use wlvncc.Base.{
  ℕ, ◌<◌, ◌≡◌, refl, true, false, List, [], ◌∷◌, ◌++◌, none, some, length, take, drop, ◌⊎◌, arith,
}
use wlvncc.Sockets.{
  Connection, Got, read_from_rfb_server, wrote, would_block, broken, Put, write_to_rfb_server,
}
use wlvncc.Sockets.Stream.{contents, read_from_rfb_server_in_order}
use wlvncc.Sockets.Arrival.{arrivals, bytes_found, StaysOpen, Ready, read_from_rfb_server_returns}
use wlvncc.Sockets.Sending.{write_to_rfb_server_exact}

-- Six bytes on their way: nothing at first, then two, then what is left.
abbrev slow : Connection
slow = record {
  buf = [];
  stream = 10 ∷ 11 ∷ 12 ∷ 13 ∷ 14 ∷ 15 ∷ [];
  tries = none ∷ some 2 ∷ none ∷ some 4 ∷ [];
  turns = [];
}

-- The first four are read, and two are left in the buffer.
abbrev four : Got
four = record {
  out = 10 ∷ 11 ∷ 12 ∷ 13 ∷ [];
  connection = record { buf = 14 ∷ 15 ∷ []; stream = []; tries = []; turns = [] };
  ok = true;
}

read_four : read_from_rfb_server 10 true 4 slow ≡ some four
unfolding read_from_rfb_server
read_four = refl

-- The connection is closed after two bytes.
read_closed :
    read_from_rfb_server 10 true 4 (record slow { tries = some 2 ∷ some 0 ∷ [] })
    ≡ some (record {
      out = 10 ∷ 11 ∷ [];
      connection = record { buf = []; stream = 12 ∷ 13 ∷ 14 ∷ 15 ∷ []; tries = []; turns = [] };
      ok = false;
    })
unfolding read_from_rfb_server
read_closed = refl

read_from_rfb_server_in_order_example :
    (four.out ≡ take (length four.out) (contents slow))
    × (contents four.connection ≡ drop (length four.out) (contents slow))
    × (((four.ok ≡ true) × (length four.out ≡ 4)) ⊎ ((four.ok ≡ false) × (length four.out < 4)))
read_from_rfb_server_in_order_example = read_from_rfb_server_in_order 10 4 slow read_four

-- The main loop reads twice in between: it finds nothing, and then the first two bytes.
abbrev served : Connection
served = record slow { turns = true ∷ false ∷ true ∷ [] }

read_served :
    read_from_rfb_server 10 true 4 served
    ≡ some (record {
      out = 10 ∷ 11 ∷ 12 ∷ 13 ∷ [];
      connection = record { buf = 14 ∷ 15 ∷ []; stream = []; tries = []; turns = [] };
      ok = true;
    })
unfolding read_from_rfb_server
read_served = refl

served-Ready : Ready 2 served
unfolding StaysOpen bytes_found arrivals
served-Ready = record {
  opened = (omega arith, omega arith, (omega arith, omega arith, tt));
  sent = omega arith;
  found = omega arith;
}

read_from_rfb_server_returns_example :
    (g : Got) × (read_from_rfb_server 7 true 2 served ≡ some g) × (g.ok ≡ true)
read_from_rfb_server_returns_example =
    read_from_rfb_server_returns 7 2 served (omega arith) served-Ready

abbrev part : Put
part = record { sent = 1 ∷ 2 ∷ 3 ∷ 4 ∷ []; left = []; ok = false }

write_part :
    write_to_rfb_server
      (wrote 2 ∷ would_block true ∷ wrote 1 ∷ broken ∷ [])
      (2 ∷ 3 ∷ 4 ∷ 5 ∷ [])
      (1 ∷ [])
    ≡ some part
unfolding write_to_rfb_server
write_part = refl

write_all :
    write_to_rfb_server (wrote 2 ∷ would_block true ∷ wrote 9 ∷ []) (2 ∷ 3 ∷ 4 ∷ 5 ∷ []) []
    ≡ some (record { sent = 2 ∷ 3 ∷ 4 ∷ 5 ∷ []; left = []; ok = true })
unfolding write_to_rfb_server
write_all = refl

write_to_rfb_server_exact_example :
    (front : List ℕ) × (back : List ℕ) × (front ++ back ≡ 2 ∷ 3 ∷ 4 ∷ 5 ∷ [])
    × (part.sent ≡ 1 ∷ [] ++ front)
    × (((part.ok ≡ true) × (length back ≡ 0)) ⊎ ((part.ok ≡ false) × (0 < length back)))
write_to_rfb_server_exact_example =
    write_to_rfb_server_exact (wrote 2 ∷ would_block true ∷ wrote 1 ∷ broken ∷ [])
      (2 ∷ 3 ∷ 4 ∷ 5 ∷ []) (1 ∷ []) write_part
