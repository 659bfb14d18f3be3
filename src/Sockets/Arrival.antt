-- ===== src/Sockets/Arrival.antt =====
-- A read of src/sockets.c ends once its bytes have arrived.
use wlvncc.Base.{
  ℕ, zero, suc, ◌+◌, ◌-◌, ◌≤◌, ◌<◌, ◌≡◌, refl, sym, ◌∙◌, ap, subst, Bool, true, false, List, [],
  ◌∷◌, ◌++◌, Option, none, some, min, length, length-append, length-drop, length-take-le, take,
  drop, ◌==◌, Bool-cases, inl, inr, arith,
}
use wlvncc.Sockets.{
  buf_size, Connection, recv, left_over, called, received, read_to_buffer, run_main_loop_once, fill,
  Got, hand_out, read_loop, read_from_rfb_server,
}
use wlvncc.Sockets.Stream.{contents}

-- How many of the calls of recv find bytes.
unfoldable pub arrivals : List (Option ℕ) → ℕ
arrivals [] = 0
arrivals (none ∷ ts) = arrivals ts
arrivals (some k ∷ ts) = suc (arrivals ts)

-- How many bytes they find.
unfoldable pub bytes_found : List (Option ℕ) → ℕ
bytes_found [] = 0
bytes_found (none ∷ ts) = bytes_found ts
bytes_found (some k ∷ ts) = k + bytes_found ts

-- The server does not close the connection: no call returns 0. And none finds as much as the whole
-- buffer holds: the read that follows on one that the main loop made would find the buffer full.
unfoldable pub StaysOpen : List (Option ℕ) → Type 0
StaysOpen [] = Unit {0}
StaysOpen (none ∷ ts) = StaysOpen ts
StaysOpen (some k ∷ ts) = (0 < k) × (k < buf_size) × StaysOpen ts

-- The connection stays open, what calls find has been sent, and `n` bytes are buffered or found.
pub record Ready (n : ℕ) (c : Connection) : Type 0 where
  pub opened : StaysOpen c.tries
  pub sent : bytes_found c.tries ≤ length c.stream
  pub found : n ≤ length c.buf + arrivals c.tries

-- What one read does to a connection whose buffer is not full.
record Read (n : ℕ) (c c' : Connection) : Type 0 where
  ready : Ready n c'
  fewer : length c'.tries ≡ length c.tries - 1
  room : length c.buf ≡ 0 → length c'.buf < buf_size

abbrev conn : List ℕ → List ℕ → List (Option ℕ) → List Bool → Connection
conn buf stream ts turns = record { buf = buf; stream = stream; tries = ts; turns = turns }

read-nothing :
    (buf stream : List ℕ) (ts : List (Option ℕ)) (turns : List Bool)
    → length buf < buf_size
    → read_to_buffer (conn buf stream (none ∷ ts) turns) ≡ (conn buf stream ts turns, true)
unfolding read_to_buffer recv called left_over received
read-nothing buf stream ts turns h =
    let e : (length buf == buf_size) ≡ false = ground (arith, h) in rw e refl

read-no_more :
    (buf stream : List ℕ) (turns : List Bool)
    → length buf < buf_size
    → read_to_buffer (conn buf stream [] turns) ≡ (conn buf stream [] turns, true)
unfolding read_to_buffer recv called left_over received
read-no_more buf stream turns h =
    let e : (length buf == buf_size) ≡ false = ground (arith, h) in rw e refl

read-bytes :
    (buf bs : List ℕ) (b k m : ℕ) (ts : List (Option ℕ)) (turns : List Bool)
    → length buf < buf_size
    → min k (buf_size - length buf) ≡ suc m
    → read_to_buffer (conn buf (b ∷ bs) (some k ∷ ts) turns)
      ≡ (conn (buf ++ b ∷ take m bs) (drop m bs) ts turns, true)
unfolding read_to_buffer recv called left_over received
read-bytes buf bs b k m ts turns h e =
    let e' : (length buf == buf_size) ≡ false = ground (arith, h) in
    rw (e', recv, left_over) (rw e refl)

Reading : ℕ → Connection → Type 0
Reading n c = (c' : Connection) × (read_to_buffer c ≡ (c', true)) × Read n c c'

read-Reading :
    (n : ℕ) (buf stream : List ℕ) (ts : List (Option ℕ)) (turns : List Bool)
    → length buf < buf_size
    → Ready n (conn buf stream ts turns)
    → Reading n (conn buf stream ts turns)
unfolding Reading arrivals bytes_found StaysOpen
read-Reading n buf stream [] turns h r = (
  conn buf stream [] turns,
  read-no_more buf stream turns h,
  record { ready = r; fewer = omega arith; room = λ z. h },
)
read-Reading n buf stream (none ∷ ts) turns h r = (
  conn buf stream ts turns,
  read-nothing buf stream ts turns h,
  record {
    ready = record { opened = r.opened; sent = r.sent; found = r.found };
    fewer = omega arith;
    room = λ z. h;
  },
)
read-Reading n buf [] (some k ∷ ts) turns h r = absurd (omega (arith, r.sent, r.opened.0))
read-Reading n buf (b ∷ bs) (some k ∷ ts) turns h r =
    let m = min k (buf_size - length buf) - 1 in
    let positive = r.opened.0 in
    let e : min k (buf_size - length buf) ≡ suc m = ground (arith, positive, h) in
    let short : length (take m bs) ≤ m = length-take-le m bs in
    let below : m < k = ground (arith, positive) in
    (
      conn (buf ++ b ∷ take m bs) (drop m bs) ts turns,
      read-bytes buf bs b k m ts turns h e,
      record {
        ready = record {
          opened = r.opened.2;
          sent = omega (arith, r.sent, length-drop m bs, below);
          found = omega (arith, r.found, length-append buf (b ∷ take m bs));
        };
        fewer = omega arith;
        room = λ z. omega (arith, z, length-append buf (b ∷ take m bs), short, below, r.opened.1);
      },
    )

-- A turn of the main loop: it makes one read at most.
Turned : ℕ → Connection → Type 0
Turned n c =
    Ready n (run_main_loop_once c)
    × (length (run_main_loop_once c).buf < buf_size)
    × (length (run_main_loop_once c).tries ≤ length c.tries)

turn-Turned :
    (n : ℕ) (stream : List ℕ) (ts : List (Option ℕ)) (turns : List Bool)
    → Ready n (conn [] stream ts turns)
    → Turned n (conn [] stream ts turns)
unfolding Turned run_main_loop_once Reading
turn-Turned n stream ts [] r = (r, omega arith, omega arith)
turn-Turned n stream ts (false ∷ turns) r =
    (record { opened = r.opened; sent = r.sent; found = r.found }, omega arith, omega arith)
turn-Turned n stream ts (true ∷ turns) r =
    let (c', e, read) =
      read-Reading n [] stream ts turns (omega arith)
        (record { opened = r.opened; sent = r.sent; found = r.found }) in
    rw e (read.ready, read.room refl, omega (arith, read.fewer))

fill-some : (f : ℕ) (c : Connection) → (length c.buf == 0) ≡ false → fill (suc f) c ≡ some (c, true)
unfolding fill
fill-some f c e = rw (e, fill) refl

-- How the inner loop goes on after a try.
after : ℕ → Connection × Bool → Option (Connection × Bool)
after f r = elim (r.1) [ true ↦ fill f r.0 | false ↦ some (r.0, false) ]

fill-more :
    (f : ℕ) (stream : List ℕ) (ts : List (Option ℕ)) (turns : List Bool) (c : Connection)
    → read_to_buffer (run_main_loop_once (conn [] stream ts turns)) ≡ (c, true)
    → fill (suc f) (conn [] stream ts turns) ≡ fill f c
unfolding fill after
fill-more f stream ts turns c e = ap (after f) e

nil_of-length : (xs : List ℕ) → (length xs == 0) ≡ true → xs ≡ []
nil_of-length [] e = refl
nil_of-length (x ∷ xs) e = absurd (ground (arith, e))

Continues : ℕ → Connection → Option (Connection × Bool) → Type 0
Continues n c o =
    (c' : Connection) × (o ≡ some (c', true))
    × (0 < length c'.buf)
    × Ready n c'
    × (length c'.tries ≤ length c.tries)

-- A turn and a read use up a try where there is one.
fill-round :
    (n : ℕ) (stream : List ℕ) (ts : List (Option ℕ)) (turns : List Bool)
    → Ready n (conn [] stream ts turns)
    → (c : Connection) × (read_to_buffer (run_main_loop_once (conn [] stream ts turns)) ≡ (c, true))
      × Ready n c
      × (length c.tries ≤ length ts - 1)
unfolding Turned Reading
fill-round n stream ts turns r =
    let (r1, room, fewer) = turn-Turned n stream ts turns r in
    let c1 = run_main_loop_once (conn [] stream ts turns) in
    let (c, e, read) = read-Reading n c1.buf c1.stream c1.tries c1.turns room r1 in
    (c, e, read.ready, omega (arith, read.fewer, fewer))

some_tries : (ts : List (Option ℕ)) → 0 < arrivals ts → 0 < length ts
unfolding arrivals
some_tries [] h = absurd (omega (arith, h))
some_tries (t ∷ ts) h = omega arith

-- From a connection that is ready, filled or not yet.
fill-Ready :
    (f n : ℕ) (c : Connection) → length c.tries < f → 0 < n → Ready n c → Continues n c (fill f c)
unfolding Continues
fill-Ready zero n c h pos r = absurd (omega (arith, h))
fill-Ready (suc f) n c h pos r = elim (Bool-cases (length c.buf == 0)) [
  | inr some_there ↦ (c, fill-some f c some_there, ground (arith, some_there), r, omega arith)
  | inl empty ↦
      let e : conn [] c.stream c.tries c.turns ≡ c =
        ap (λ b. record c { buf = b }) (sym (nil_of-length c.buf empty)) in
      let r0 : Ready n (conn [] c.stream c.tries c.turns) = subst (Ready n) (sym e) r in
      let (c2, read, r2, fewer) = fill-round n c.stream c.tries c.turns r0 in
      let there = some_tries c.tries (omega (arith, r0.found, pos)) in
      let (c', e', some_there, r', fewer') =
        fill-Ready f n c2 (omega (arith, h, fewer, there)) pos r2 in
      (
        c',
        subst (λ d. fill (suc f) d ≡ some (c', true)) e
            (fill-more f c.stream c.tries c.turns c2 read ∙ e'),
        some_there,
        r',
        omega (arith, fewer, fewer'),
      )
]

hand_out-Ready :
    (size n : ℕ) (c : Connection)
    → size ≤ n
    → size ≤ length c.buf
    → Ready n c
    → Ready (n - size) (hand_out size c)
unfolding hand_out contents
hand_out-Ready size n c h k r = record {
  opened = r.opened;
  sent = r.sent;
  found = omega (arith, h, k, r.found, length-drop size c.buf);
}

read_loop-more :
    (f n : ℕ) (out : List ℕ) (c c' : Connection)
    → (n == 0) ≡ false
    → fill f c ≡ some (c', true)
    → read_loop (suc f) n out c
      ≡ read_loop f
          (n - min (length c'.buf) n)
          (out ++ take (min (length c'.buf) n) c'.buf)
          (hand_out (min (length c'.buf) n) c')
unfolding read_loop
read_loop-more f n out c c' more filled = rw (more, read_loop) (rw filled refl)

-- A round of the loop uses up a byte that is wanted.
fewer_left :
    (n m b t t' f : ℕ)
    → (n == 0) ≡ false
    → 0 < b
    → m ≡ min b n
    → t' ≤ t
    → t + n < suc f
    → t' + (n - m) < f
fewer_left n m b t t' f more there e fewer h = ground arith

read_loop-ends :
    (f n : ℕ) (out : List ℕ) (c : Connection)
    → length c.tries + n < f
    → Ready n c
    → (g : Got) × (read_loop f n out c ≡ some g) × (g.ok ≡ true)
unfolding Continues
read_loop-ends zero n out c h r = absurd (omega (arith, h))
read_loop-ends (suc f) n out c h r = elim (Bool-cases (n == 0)) [
  | inl all ↦ (
    record { out = out; connection = c; ok = true },
    (unfold read_loop in rw (all, read_loop) refl),
    refl,
  )
  | inr more ↦
      let (c', filled, there, r', fewer) =
        fill-Ready f n c (ground (arith, h, more)) (ground (arith, more)) r in
      let size = min (length c'.buf) n in
      let kept : Ready (n - size) (hand_out size c') =
        hand_out-Ready size n c' (ground arith) (ground arith) r' in
      let (g, e, ok) =
        read_loop-ends f (n - size) (out ++ take size c'.buf) (hand_out size c')
          (unfold hand_out in
            fewer_left n size (length c'.buf) (length c.tries) (length c'.tries) f more there refl
              fewer h)
          kept in
      (g, read_loop-more f n out c c' more filled ∙ e, ok)
]

-- A read of `n` bytes returns, and returns TRUE, whenever the main loop reads in between, when the
-- connection stays open, no call of recv finds as many bytes as the whole buffer holds, what they
-- find has been sent, and for each of the `n` bytes there is one in the buffer or a call that finds
-- some: a step of fuel for each byte and for each call, and one more, is enough.
pub read_from_rfb_server_returns :
    (f n : ℕ) (c : Connection)
    → length c.tries + n < f
    → Ready n c
    → (g : Got) × (read_from_rfb_server f true n c ≡ some g) × (g.ok ≡ true)
unfolding read_from_rfb_server
read_from_rfb_server_returns f n c h r = read_loop-ends f n [] c h r
