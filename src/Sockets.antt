-- ===== src/Sockets.antt =====
-- src/sockets.c: bytes from the server through the client's buffer, and bytes to the server, on a
-- connection with neither TLS nor SASL. What recv, write and poll find is part of the state.
pub mod Stream
pub mod Arrival
pub mod Sending
pub mod Runs
use wlvncc.Base.{
  ℕ, zero, suc, ◌+◌, ◌-◌, Bool, true, false, List, [], ◌∷◌, ◌++◌, Option, none, some, min, length,
  take, drop, ◌==◌, ltb, if◌then◌else◌,
}

abbrev pub buf_size : ℕ
buf_size = 8192

-- The buffered bytes, client->buf up to client->buffered; the bytes that the server has sent and
-- recv has not returned; and what each recv will find: that many bytes at most, or an error, which
-- may be that nothing is there yet; and for each turn of the main loop whether it finds something to
-- read.
pub record Connection : Type 0 where
  pub buf : List ℕ
  pub stream : List ℕ
  pub tries : List (Option ℕ)
  pub turns : List Bool

-- The system call: no more than `space` bytes, in order; `none` where it returns -1.
unfoldable pub recv : ℕ → List (Option ℕ) → List ℕ → Option (List ℕ)
recv space [] stream = none
recv space (none ∷ ts) stream = none
recv space (some k ∷ ts) stream = some (take (min k space) stream)

unfoldable pub left_over : ℕ → List (Option ℕ) → List ℕ → List ℕ
left_over space [] stream = stream
left_over space (none ∷ ts) stream = stream
left_over space (some k ∷ ts) stream = drop (min k space) stream

-- One more call has been made.
unfoldable pub called : ℕ → Connection → Connection
unfolding left_over
called space c = record c { stream = left_over space c.tries c.stream; tries = drop 1 c.tries }

-- What is done with the result of recv.
unfoldable pub received : Option (List ℕ) → Connection → Connection × Bool
received none c = (c, true)
received (some []) c = (c, false)
received (some (b ∷ bs)) c = (record c { buf = c.buf ++ b ∷ bs }, true)

unfoldable pub read_to_buffer : Connection → Connection × Bool
unfolding called received recv
read_to_buffer c =
    if length c.buf == buf_size
    then (c, false)
    else (let space = buf_size - length c.buf in
        received (recv space c.tries c.stream) (called space c))

abbrev pub next_turn : Connection → List Bool → Connection
next_turn c ts = record c { turns = ts }

-- run_main_loop_once (src/main.c), as far as the connection goes. Where the socket can be read the
-- handler of its events runs within the read: vnc_client_process (src/vnc.c) reads into the buffer,
-- and handles no message, since the one that is being read holds the lock. If it cannot read it stops
-- the main loop, which ends after the message.
unfoldable pub run_main_loop_once : Connection → Connection
unfolding read_to_buffer
run_main_loop_once c = elim c.turns [
  | [] ↦ c
  | t ∷ ts ↦ elim t [ true ↦ (read_to_buffer (next_turn c ts)).0 | false ↦ next_turn c ts ]
]

-- The inner loop of ReadFromRFBServer: until something is buffered. `none`: it still waits when the
-- fuel is out.
unfoldable pub fill : ℕ → Connection → Option (Connection × Bool)
unfolding read_to_buffer run_main_loop_once
fill zero c = none
fill (suc f) c =
    let read = read_to_buffer (run_main_loop_once c) in
    elim (length c.buf == 0) [
      | false ↦ some (c, true)
      | true ↦ elim (read.1) [ true ↦ fill f read.0 | false ↦ some (read.0, false) ]
    ]

-- What the caller has got, and whether all of it.
pub record Got : Type 0 where
  pub out : List ℕ
  pub connection : Connection
  pub ok : Bool

-- `size` bytes move from the buffer to the caller.
unfoldable pub hand_out : ℕ → Connection → Connection
hand_out size c = record c { buf = drop size c.buf }

unfoldable pub read_loop : ℕ → ℕ → List ℕ → Connection → Option Got
unfolding fill hand_out
read_loop zero n out c = none
read_loop (suc f) n out c = elim (n == 0) [
  | true ↦ some (record { out = out; connection = c; ok = true })
  | false ↦ elim (fill f c) [
    | none ↦ none
    | some r ↦ elim (r.1) [
      | false ↦ some (record { out = out; connection = r.0; ok = false })
      | true ↦
          let size = min (length r.0.buf) n in
          read_loop f (n - size) (out ++ take size r.0.buf) (hand_out size r.0)
    ]
  ]
]

-- `has_out`: the caller gave a buffer, not a null pointer.
unfoldable pub read_from_rfb_server : ℕ → Bool → ℕ → Connection → Option Got
unfolding read_loop
read_from_rfb_server f has_out n c =
    if has_out then read_loop f n [] c else some (record { out = []; connection = c; ok = false })

-- What a call of write finds: that many bytes of those that it is given are taken; the socket is
-- full, and whether poll then reports it as writable; another error.
pub data Attempt : Type 0 where
  wrote : ℕ → Attempt
  would_block : Bool → Attempt
  broken : Attempt

-- The bytes that the socket has taken, what later calls will find, and whether all were taken.
pub record Put : Type 0 where
  pub sent : List ℕ
  pub left : List Attempt
  pub ok : Bool

-- The loop of WriteToRFBServer over the bytes from `i` on. `none`: the loop goes on.
unfoldable pub write_loop : List Attempt → List ℕ → List ℕ → Option Put
write_loop [] rest sent =
    if length rest == 0 then some (record { sent = sent; left = []; ok = true }) else none
write_loop (wrote k ∷ ws) rest sent =
    let size = min k (length rest) in
    let more = write_loop ws (drop size rest) (sent ++ take size rest) in
    if length rest == 0
    then some (record { sent = sent; left = wrote k ∷ ws; ok = true })
    else (if size == 0 then some (record { sent = sent; left = ws; ok = false }) else more)
write_loop (would_block ready ∷ ws) rest sent =
    let more = write_loop ws rest sent in
    if length rest == 0
    then some (record { sent = sent; left = would_block ready ∷ ws; ok = true })
    else (if ready then more else some (record { sent = sent; left = ws; ok = false }))
write_loop (broken ∷ ws) rest sent =
    if length rest == 0
    then some (record { sent = sent; left = broken ∷ ws; ok = true })
    else some (record { sent = sent; left = ws; ok = false })

unfoldable pub write_to_rfb_server : List Attempt → List ℕ → List ℕ → Option Put
unfolding write_loop
write_to_rfb_server ws bytes sent = write_loop ws bytes sent
