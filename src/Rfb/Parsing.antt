-- ===== src/Rfb/Parsing.antt =====
-- How a server reads the messages of src/rfbproto.c: the protocol's own description of them, apart
-- from the code that writes them.
use wlvncc.Base.{
  ℕ, zero, suc, ◌+◌, ◌*◌, ◌/◌, ◌%◌, ◌<◌, ◌≡◌, refl, ap, ◌∙◌, Bool, true, false, not, List, [], ◌∷◌,
  ◌++◌, Option, none, some, length, length-append, take, drop, take-append_length,
  drop-append_length, ltb, ◌==◌, if◌then◌else◌, All, arith,
}
use wlvncc.Rfb.Messages.{
  flag, framebuffer_update_request, key_event, extended_key_event, pointer_event, text_header,
}

pub data ClientMessage : Type 0 where
  update_requested : Bool → ℕ → ℕ → ℕ → ℕ → ClientMessage
  key : Bool → ℕ → ClientMessage
  extended_key : Bool → ℕ → ℕ → ClientMessage
  pointer : ℕ → ℕ → ℕ → ClientMessage
  cut_text : List ℕ → ClientMessage

-- The numbers are in the ranges of their fields.
abbrev pub Fits : ClientMessage → Type 0
Fits (update_requested b x y w h) = (x < 65536) × (y < 65536) × (w < 65536) × (h < 65536)
Fits (key b k) = k < 4294967296
Fits (extended_key b k c) = (k < 4294967296) × (c < 4294967296)
Fits (pointer m x y) = (m < 256) × (x < 65536) × (y < 65536)
Fits (cut_text text) = length text < 4294967296

-- The bytes that the client writes for a message.
unfoldable pub bytes_of : ClientMessage → List ℕ
unfolding framebuffer_update_request key_event extended_key_event pointer_event text_header
bytes_of (update_requested b x y w h) = framebuffer_update_request b x y w h
bytes_of (key b k) = key_event b k
bytes_of (extended_key b k c) = extended_key_event b k c
bytes_of (pointer m x y) = pointer_event m x y
bytes_of (cut_text text) = text_header 6 (length text) ++ text

abbrev pub u16 : ℕ → ℕ → ℕ
u16 a b = a * 256 + b

abbrev pub u32 : ℕ → ℕ → ℕ → ℕ → ℕ
u32 a b c d = ((a * 256 + b) * 256 + c) * 256 + d

-- A parser returns the message and the bytes after it.
abbrev Parsed : Type 0
Parsed = Option (ClientMessage × List ℕ)

parse_update_request : List ℕ → Parsed
parse_update_request (b ∷ x ∷ x' ∷ y ∷ y' ∷ w ∷ w' ∷ h ∷ h' ∷ rest) =
    some (update_requested (not (b == 0)) (u16 x x') (u16 y y') (u16 w w') (u16 h h'), rest)
parse_update_request bs = none

parse_key : List ℕ → Parsed
parse_key (b ∷ p ∷ p' ∷ k ∷ k' ∷ k'' ∷ k3 ∷ rest) =
    some (key (not (b == 0)) (u32 k k' k'' k3), rest)
parse_key bs = none

parse_extended_key : List ℕ → Parsed
parse_extended_key (s ∷ d ∷ d' ∷ k ∷ k' ∷ k'' ∷ k3 ∷ c ∷ c' ∷ c'' ∷ c3 ∷ rest) =
    if s == 0
    then some (extended_key (not (u16 d d' == 0)) (u32 k k' k'' k3) (u32 c c' c'' c3), rest)
    else none
parse_extended_key bs = none

parse_pointer : List ℕ → Parsed
parse_pointer (m ∷ x ∷ x' ∷ y ∷ y' ∷ rest) = some (pointer m (u16 x x') (u16 y y'), rest)
parse_pointer bs = none

split_text : ℕ → List ℕ → Parsed
split_text n bs = if ltb (length bs) n then none else some (cut_text (take n bs), drop n bs)

parse_cut_text : List ℕ → Parsed
parse_cut_text (p ∷ p' ∷ p'' ∷ n ∷ n' ∷ n'' ∷ n3 ∷ rest) = split_text (u32 n n' n'' n3) rest
parse_cut_text bs = none

-- The first message, told by its type.
unfoldable pub parse_message : List ℕ → Option (ClientMessage × List ℕ)
unfolding parse_update_request parse_key parse_extended_key parse_pointer parse_cut_text split_text
parse_message [] = none
parse_message (t ∷ bs) =
    if t == 3
    then parse_update_request bs
    else if t == 4
    then parse_key bs
    else if t == 5
    then parse_pointer bs
    else if t == 6
    then parse_cut_text bs
    else if t == 255
    then parse_extended_key bs
    else none

-- Messages until the bytes end, at most `f` of them.
unfoldable pub prepend : ClientMessage → Option (List ClientMessage) → Option (List ClientMessage)
prepend m none = none
prepend m (some ms) = some (m ∷ ms)

unfoldable pub parse_messages : ℕ → List ℕ → Option (List ClientMessage)
unfolding parse_message prepend
parse_messages f [] = some []
parse_messages zero (b ∷ bs) = none
parse_messages (suc f) (b ∷ bs) = elim (parse_message (b ∷ bs)) [
  | none ↦ none
  | some (m, rest) ↦ prepend m (parse_messages f rest)
]

unfoldable pub bytes_of_all : List ClientMessage → List ℕ
unfolding bytes_of
bytes_of_all [] = []
bytes_of_all (m ∷ ms) = bytes_of m ++ bytes_of_all ms

u16-be16 : (n : ℕ) → n < 65536 → u16 (n / 256 % 256) (n % 256) ≡ n
u16-be16 n h = omega (arith, h)

u32-be32 :
    (n : ℕ)
    → n < 4294967296
    → u32 (n / 16777216 % 256) (n / 65536 % 256) (n / 256 % 256) (n % 256) ≡ n
u32-be32 n h = omega (arith, h)

flag-read : (b : Bool) → not (flag b == 0) ≡ b
flag-read true = refl
flag-read false = refl

flag-read16 : (b : Bool) → not (u16 (flag b / 256 % 256) (flag b % 256) == 0) ≡ b
flag-read16 true = refl
flag-read16 false = refl

split_text-append :
    (text rest : List ℕ) → split_text (length text) (text ++ rest) ≡ some (cut_text text, rest)
unfolding split_text
split_text-append text rest =
    let long : ltb (length (text ++ rest)) (length text) ≡ false =
      ground (arith, length-append text rest) in
    rw (long, take-append_length text rest, drop-append_length text rest) refl

parse_message-bytes_of :
    (m : ClientMessage) (rest : List ℕ)
    → Fits m
    → parse_message (bytes_of m ++ rest) ≡ some (m, rest)
unfolding bytes_of parse_message
parse_message-bytes_of (update_requested b x y w h) rest f =
    rw (flag-read b, u16-be16 x f.0, u16-be16 y f.1, u16-be16 w f.2, u16-be16 h f.3) refl
parse_message-bytes_of (key b k) rest f = rw (flag-read b, u32-be32 k f) refl
parse_message-bytes_of (extended_key b k c) rest f =
    rw (flag-read16 b, u32-be32 k f.0, u32-be32 c f.1) refl
parse_message-bytes_of (pointer m x y) rest f =
    let e : m % 256 ≡ m = omega (arith, f.0) in rw (e, u16-be16 x f.1, u16-be16 y f.2) refl
parse_message-bytes_of (cut_text text) rest f =
    rw (u32-be32 (length text) f) (split_text-append text rest)

-- What is done with the first message.
continue : ℕ → Parsed → Option (List ClientMessage)
continue f o = elim o [ none ↦ none | some (m, rest) ↦ prepend m (parse_messages f rest) ]

parse_messages-next :
    (f : ℕ) (bs rest : List ℕ) (m : ClientMessage) (ms : List ClientMessage)
    → parse_message bs ≡ some (m, rest)
    → parse_messages f rest ≡ some ms
    → parse_messages (suc f) bs ≡ some (m ∷ ms)
unfolding parse_messages continue
parse_messages-next f [] rest m ms e g = absurd (unfold parse_message in cc)
parse_messages-next f (b ∷ bs) rest m ms e g = ap (continue f) e ∙ ap (prepend m) g

-- Any sequence of messages is read back from its bytes, one after the other, with no separator.
pub parse_messages-bytes_of_all :
    (ms : List ClientMessage) → All Fits ms → parse_messages (length ms) (bytes_of_all ms) ≡ some ms
unfolding bytes_of_all
parse_messages-bytes_of_all [] f = unfold parse_messages in refl
parse_messages-bytes_of_all (m ∷ ms) f =
    parse_messages-next (length ms) (bytes_of m ++ bytes_of_all ms) (bytes_of_all ms) m ms
      (parse_message-bytes_of m (bytes_of_all ms) f.0) (parse_messages-bytes_of_all ms f.1)
