-- ===== src/Sockets/Stream.antt =====
-- What ReadFromRFBServer (src/sockets.c) hands out is the stream that the server sends, in order and
-- each byte once; and a read ends when the bytes arrive.
use mathlib.Core.List.{append_assoc}
use wlvncc.Base.{
  ℕ, zero, suc, ◌+◌, ◌-◌, ◌<◌, ◌≡◌, refl, sym, ◌∙◌, ap, subst, Bool, true, false, List, [], ◌∷◌,
  ◌++◌, Option, none, some, min, length, length-append, length-take_le, take, drop,
  take-append-drop, take-append_length, drop-append_length, ◌==◌, Bool-cases, Option-cases, inl,
  inr, ◌⊎◌, arith,
}
use wlvncc.Sockets.{
  buf_size, Connection, recv, left_over, called, received, read_to_buffer, next_turn,
  run_main_loop_once, fill, Got, hand_out, read_loop, read_from_rfb_server,
}

-- All that the caller has still to get of what the server has sent.
unfoldable pub contents : Connection → List ℕ
contents c = c.buf ++ c.stream

-- What a call of recv adds to the buffer.
gained : Option (List ℕ) → List ℕ
gained none = []
gained (some bs) = bs

gained-left_over :
    (space : ℕ) (ts : List (Option ℕ)) (stream : List ℕ)
    → gained (recv space ts stream) ++ left_over space ts stream ≡ stream
unfolding gained recv left_over
gained-left_over space [] stream = refl
gained-left_over space (none ∷ ts) stream = refl
gained-left_over space (some k ∷ ts) stream = take-append-drop (min k space) stream

contents-received :
    (r : Option (List ℕ)) (c : Connection)
    → contents (received r c).0 ≡ c.buf ++ (gained r ++ c.stream)
unfolding contents received gained
contents-received none c = refl
contents-received (some []) c = refl
contents-received (some (b ∷ bs)) c = append_assoc c.buf (b ∷ bs) c.stream

contents-read_to_buffer : (c : Connection) → contents (read_to_buffer c).0 ≡ contents c
unfolding read_to_buffer
contents-read_to_buffer c = elim (Bool-cases (length c.buf == buf_size)) [
  | inl full ↦ rw full refl
  | inr room ↦
      let space = buf_size - length c.buf in
      rw room (
        contents-received (recv space c.tries c.stream) (called space c)
        ∙ (unfold called contents in
            ap (λ s. c.buf ++ s) (gained-left_over space c.tries c.stream)))
]

contents-next_turn : (c : Connection) (ts : List Bool) → contents (next_turn c ts) ≡ contents c
unfolding contents
contents-next_turn c ts = refl

contents-run_main_loop_once : (c : Connection) → contents (run_main_loop_once c) ≡ contents c
unfolding run_main_loop_once contents
contents-run_main_loop_once c = go c.turns refl
  where
    go : (ts : List Bool) → c.turns ≡ ts → contents (run_main_loop_once c) ≡ contents c
    go [] e = rw e refl
    go (true ∷ ts) e = rw e (contents-read_to_buffer (next_turn c ts) ∙ contents-next_turn c ts)
    go (false ∷ ts) e = rw e (contents-next_turn c ts)

-- The read that comes after a turn of the main loop.
contents-read : (c : Connection) → contents (read_to_buffer (run_main_loop_once c)).0 ≡ contents c
contents-read c = contents-read_to_buffer (run_main_loop_once c) ∙ contents-run_main_loop_once c

contents-fill :
    (f : ℕ) (c : Connection) {r : Connection × Bool} → fill f c ≡ some r → contents r.0 ≡ contents c
unfolding fill
contents-fill zero c e = cc
contents-fill (suc f) c {r} e =
    let read = read_to_buffer (run_main_loop_once c) in
    elim (Bool-cases (length c.buf == 0)) [
      | inr some_there ↦ ap contents (ground (arith, e, some_there))
      | inl empty ↦ elim (Bool-cases (read.1)) [
        | inl ok ↦
            let e' : fill f read.0 ≡ some r = ground (arith, e, empty, ok) in
            contents-fill f read.0 e' ∙ contents-read c
        | inr bad ↦
            let e' : r.0 ≡ read.0 = ground (arith, e, empty, bad) in
            ap contents e' ∙ contents-read c
      ]
    ]

-- What a read has done: the bytes come from the front of what there was, all that were asked for if
-- it succeeds, fewer if it fails.
record Reads (n : ℕ) (out : List ℕ) (c : Connection) (g : Got) : Type 0 where
  order : g.out ++ contents g.connection ≡ out ++ contents c
  count :
      ((g.ok ≡ true) × (length g.out ≡ length out + n))
      ⊎ ((g.ok ≡ false) × (length g.out < length out + n))

contents-hand_out :
    (size : ℕ) (out : List ℕ) (c : Connection)
    → (out ++ take size c.buf) ++ contents (hand_out size c) ≡ out ++ contents c
unfolding contents hand_out
contents-hand_out size out c =
    append_assoc out (take size c.buf) (drop size c.buf ++ c.stream)
    ∙ ap (λ s. out ++ s)
        (sym (append_assoc (take size c.buf) (drop size c.buf) c.stream)
          ∙ ap (λ s. s ++ c.stream) (take-append-drop size c.buf))

length-hand_out :
    (n : ℕ) (out buf : List ℕ)
    → length (out ++ take (min (length buf) n) buf) + (n - min (length buf) n) ≡ length out + n
length-hand_out n out buf =
    let m : ℕ = min (length buf) n in
    ground (arith, length-append out (take m buf), length-take_le m buf)

read_loop-Reads :
    (f n : ℕ) (out : List ℕ) (c : Connection) {g : Got}
    → read_loop f n out c ≡ some g
    → Reads n out c g
unfolding read_loop
read_loop-Reads zero n out c e = cc
read_loop-Reads (suc f) n out c {g} e = elim (Bool-cases (n == 0)) [
  | inl all ↦
      let e' : record { out = out; connection = c; ok = true } ≡ g = ground (arith, e, all) in
      subst (Reads n out c) e' (record { order = refl; count = inl (refl, ground (arith, all)) })
  | inr more ↦ elim (Option-cases (fill f c)) [
    | inl waits ↦ absurd (ground (arith, e, more, waits))
    | inr (r, filled) ↦ elim (Bool-cases (r.1)) [
      | inr bad ↦
          let e' : record { out = out; connection = r.0; ok = false } ≡ g =
            ground (arith, e, more, filled, bad) in
          subst (Reads n out c) e' (record {
            order = ap (λ s. out ++ s) (contents-fill f c filled);
            count = inr (refl, ground (arith, more));
          })
      | inl ok ↦
          let size = min (length r.0.buf) n in
          let e' : read_loop f (n - size) (out ++ take size r.0.buf) (hand_out size r.0) ≡ some g =
            ground (arith, e, more, filled, ok) in
          let rest : Reads (n - size) (out ++ take size r.0.buf) (hand_out size r.0) g =
            read_loop-Reads f (n - size) (out ++ take size r.0.buf) (hand_out size r.0) e' in
          record {
            order =
                rest.order
                ∙ contents-hand_out size out r.0
                ∙ ap (λ s. out ++ s) (contents-fill f c filled);
            count =
                subst
                  (λ k.
                    ((g.ok ≡ true) × (length g.out ≡ k)) ⊎ ((g.ok ≡ false) × (length g.out < k)))
                  (length-hand_out n out r.0.buf) rest.count;
          }
    ]
  ]
]

-- Whatever the network does, a read that ends has handed out the front of the stream and left the
-- rest of it: all `n` bytes if it returns TRUE, fewer if it returns FALSE.
pub read_from_rfb_server_in_order :
    (f n : ℕ) (c : Connection) {g : Got}
    → read_from_rfb_server f true n c ≡ some g
    → (g.out ≡ take (length g.out) (contents c))
      × (contents g.connection ≡ drop (length g.out) (contents c))
      × (((g.ok ≡ true) × (length g.out ≡ n)) ⊎ ((g.ok ≡ false) × (length g.out < n)))
unfolding read_from_rfb_server
read_from_rfb_server_in_order f n c {g} e =
    let r = read_loop-Reads f n [] c e in
    (
      sym (take-append_length g.out (contents g.connection)) ∙ ap (take (length g.out)) r.order,
      sym (drop-append_length g.out (contents g.connection)) ∙ ap (drop (length g.out)) r.order,
      ground (arith, r.count),
    )
