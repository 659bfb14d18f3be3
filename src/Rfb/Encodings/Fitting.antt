-- ===== src/Rfb/Encodings/Fitting.antt =====
-- The array of SetFormatAndEncodings (src/rfbproto.c): what fits in it, and what does not.
use mathlib.Core.List.{append-nil, append_assoc}
use wlvncc.Base.{
  ℕ, ◌+◌, ◌≤◌, ◌<◌, ◌≡◌, refl, sym, ap, ◌∙◌, Bool, true, false, List, [], ◌∷◌, ◌++◌, length,
  length-append, ltb, lt→ltb, Bool-cases, inl, inr, Outcome, done, fault, ◌>>=◌, arith,
}
use wlvncc.Base.Int.{pos_part}
use wlvncc.Rfb.{AppData}
use wlvncc.Rfb.Encodings.{
  max_encodings, named, codes, Named, ultra, Request, note_levels, put_code, put_codes,
  request_entry, request_entries, put_if, put_all_if, put_extensions, usable_level,
}

-- The numbers that the entries stand for, in order.
unfoldable pub codes_of_all : List (List ℕ) → List ℕ
codes_of_all [] = []
codes_of_all (f ∷ fs) = codes (named f) ++ codes_of_all fs

encs-note_levels : (a : AppData) (k : Named) (r : Request) → (note_levels a k r).encs ≡ r.encs
unfolding note_levels
encs-note_levels a k r = ground arith

put_code-room :
    (code : ℕ) (encs : List ℕ)
    → length encs < max_encodings
    → put_code code encs ≡ done (encs ++ code ∷ [])
unfolding put_code
put_code-room code encs h = rw (lt→ltb (length encs) max_encodings h) refl

put_code-full :
    (code : ℕ) (encs : List ℕ) → length encs ≡ max_encodings → put_code code encs ≡ fault
unfolding put_code
put_code-full code encs h =
    let e : ltb (length encs) max_encodings ≡ false = ground (arith, h) in rw e refl

put_codes-room :
    (cs encs : List ℕ)
    → length encs + length cs ≤ max_encodings
    → put_codes cs encs ≡ done (encs ++ cs)
unfolding put_codes
put_codes-room [] encs h = ap done (sym (append-nil encs))
put_codes-room (c ∷ cs) encs h = rw (put_code-room c encs (omega (arith, h))) (
    put_codes-room cs (encs ++ c ∷ []) (omega (arith, h, length-append encs (c ∷ [])))
    ∙ ap done (append_assoc encs (c ∷ []) cs))

-- The request after an entry whose codes fit.
entered : AppData → List ℕ → Request → Request
entered a f r = note_levels a (named f) (record r { encs = r.encs ++ codes (named f) })

request_entry-room :
    (a : AppData) (f : List ℕ) (r : Request)
    → length r.encs + length (codes (named f)) ≤ max_encodings
    → request_entry a f r ≡ done (entered a f r)
unfolding request_entry entered
request_entry-room a f r h = rw (put_codes-room (codes (named f)) r.encs h) refl

encs-entered :
    (a : AppData) (f : List ℕ) (r : Request) → (entered a f r).encs ≡ r.encs ++ codes (named f)
unfolding entered
encs-entered a f r = encs-note_levels a (named f) (record r { encs = r.encs ++ codes (named f) })

-- How the loop goes on after an entry.
go_on : AppData → List ℕ → List (List ℕ) → Request → Outcome Request
go_on a g fs r = elim (ltb (length r.encs) max_encodings) [
  | true ↦ request_entries a (g ∷ fs) r
  | false ↦ done r
]

go_on-room :
    (a : AppData) (g : List ℕ) (fs : List (List ℕ)) (r : Request)
    → length r.encs < max_encodings
    → go_on a g fs r ≡ request_entries a (g ∷ fs) r
unfolding go_on
go_on-room a g fs r h = rw (lt→ltb (length r.encs) max_encodings h, go_on) refl

request_entries-next :
    (a : AppData) (f g : List ℕ) (fs : List (List ℕ)) (r r' : Request)
    → request_entry a f r ≡ done r'
    → length r'.encs < max_encodings
    → request_entries a (f ∷ g ∷ fs) r ≡ request_entries a (g ∷ fs) r'
unfolding request_entries go_on
request_entries-next a f g fs r r' e h = ap (λ o. o >>= go_on a g fs) e ∙ go_on-room a g fs r' h

-- Entries whose codes fit with room to spare for the loop to go on.
request_entries-room :
    (a : AppData) (fs : List (List ℕ)) (r : Request)
    → length r.encs + length (codes_of_all fs) < max_encodings
    → (q : Request) × (request_entries a fs r ≡ done q) × (q.encs ≡ r.encs ++ codes_of_all fs)
unfolding codes_of_all
request_entries-room a [] r h = (r, (unfold request_entries in refl), sym (append-nil r.encs))
request_entries-room a (f ∷ []) r h = (
  entered a f r,
  (unfold request_entries in
      request_entry-room a f r (omega (arith, h, length-append (codes (named f)) []))),
  encs-entered a f r ∙ ap (λ t. r.encs ++ t) (sym (append-nil (codes (named f)))),
)
request_entries-room a (f ∷ g ∷ fs) r h =
    let rest = codes_of_all (g ∷ fs) in
    let whole = length-append (codes (named f)) rest in
    let now = request_entry-room a f r (omega (arith, h, whole)) in
    let size = ap length (encs-entered a f r) ∙ length-append r.encs (codes (named f)) in
    let (q, e, all) =
      request_entries-room a (g ∷ fs) (entered a f r) (omega (arith, h, whole, size)) in
    (
      q,
      request_entries-next a f g fs r (entered a f r) now (omega (arith, h, whole, size)) ∙ e,
      all ∙ ap (λ t. t ++ rest) (encs-entered a f r) ∙ append_assoc r.encs (codes (named f)) rest,
    )

-- What is put in only while there is room comes after what was there, and stays within the array.
record Extends (encs out : List ℕ) : Type 0 where
  tail : List ℕ
  after : out ≡ encs ++ tail
  bounded : length encs ≤ max_encodings → length out ≤ max_encodings

Extends-refl : (encs : List ℕ) → Extends encs encs
Extends-refl encs = record { tail = []; after = sym (append-nil encs); bounded = λ h. h }

Extends-trans : (a b c : List ℕ) → Extends a b → Extends b c → Extends a c
Extends-trans a b c p q = record {
  tail = p.tail ++ q.tail;
  after = q.after ∙ ap (λ t. t ++ q.tail) p.after ∙ append_assoc a p.tail q.tail;
  bounded = λ h. q.bounded (p.bounded h);
}

put_if-Extends : (b : Bool) (code : ℕ) (encs : List ℕ) → Extends encs (put_if b code encs)
unfolding put_if
put_if-Extends false code encs = elim (Bool-cases (ltb (length encs) max_encodings)) [
  | inl room ↦ rw room (Extends-refl encs)
  | inr full ↦ rw full (Extends-refl encs)
]
put_if-Extends true code encs = elim (Bool-cases (ltb (length encs) max_encodings)) [
  | inl room ↦ rw room (record {
    tail = code ∷ [];
    after = refl;
    bounded = λ h. ground (arith, room, length-append encs (code ∷ []));
  })
  | inr full ↦ rw full (Extends-refl encs)
]

put_all_if-Extends : (b : Bool) (cs encs : List ℕ) → Extends encs (put_all_if b cs encs)
unfolding put_all_if
put_all_if-Extends b [] encs = Extends-refl encs
put_all_if-Extends b (c ∷ cs) encs =
    Extends-trans encs (put_if b c encs) _ (put_if-Extends b c encs)
      (put_all_if-Extends b cs (put_if b c encs))

then_if :
    (b : Bool) (code : ℕ) {encs out : List ℕ} → Extends encs out → Extends encs (put_if b code out)
then_if b code {encs} {out} x = Extends-trans encs out _ x (put_if-Extends b code out)

then_all :
    (b : Bool) (cs : List ℕ) {encs out : List ℕ}
    → Extends encs out
    → Extends encs (put_all_if b cs out)
then_all b cs {encs} {out} x = Extends-trans encs out _ x (put_all_if-Extends b cs out)

put_extensions-Extends : (a : AppData) (q : Request) → Extends q.encs (put_extensions a q)
unfolding put_extensions
put_extensions-Extends a q =
    then_all true (4294836225 ∷ 4294836226 ∷ 4294836227 ∷ 4294966987 ∷ 4294967038 ∷ 4294966296 ∷ [])
      (then_if q.last_rect 4294967072 (
        then_all true (4294836224 ∷ 4294967073 ∷ []) (
          then_all a.use_remote_cursor (4294967056 ∷ 4294967057 ∷ 4294967064 ∷ []) (
            then_if q.quality_level (4294967264 + usable_level a.quality_level) (
              then_if q.compress_level (4294967040 + pos_part a.compress_level)
                (Extends-refl q.encs))))))

-- Where the entries' encodings, of which "ultra" has two, are fewer than the array has places: no
-- write is out of bounds, all of them are requested in the order of the list, and what is put in
-- after them stays within the array.
pub request_entries_fit :
    (a : AppData) (fs : List (List ℕ)) (r : Request)
    → length r.encs + length (codes_of_all fs) < max_encodings
    → (q : Request) × (request_entries a fs r ≡ done q)
      × (tail : List ℕ) × (put_extensions a q ≡ (r.encs ++ codes_of_all fs) ++ tail)
      × (length (put_extensions a q) ≤ max_encodings)
request_entries_fit a fs r h =
    let (q, e, all) = request_entries-room a fs r h in
    let x = put_extensions-Extends a q in
    let fits : length q.encs ≤ max_encodings =
      omega (arith, h, ap length all, length-append r.encs (codes_of_all fs)) in
    (q, e, x.tail, (x.after ∙ ap (λ t. t ++ x.tail) all), x.bounded fits)

put_codes-overflow :
    (b c : ℕ) (encs : List ℕ) → length encs ≡ 63 → put_codes (b ∷ c ∷ []) encs ≡ fault
unfolding put_codes
put_codes-overflow b c encs h = rw (put_code-room b encs (omega (arith, h))) (
    ap (λ o. o >>= put_codes [])
      (put_code-full c (encs ++ b ∷ []) (omega (arith, h, length-append encs (b ∷ [])))))

request_entry-overflow :
    (a : AppData) (f : List ℕ) (r : Request)
    → length r.encs ≡ 63
    → named f ≡ ultra
    → request_entry a f r ≡ fault
unfolding request_entry
request_entry-overflow a f r h e =
    let full : put_codes (codes ultra) r.encs ≡ fault =
      unfold codes in put_codes-overflow 9 4294901769 r.encs h in
    rw e (rw full refl)

-- With one place left in the array the entry "ultra", or what abbreviates it, writes beyond it.
request_entries_overflow :
    (a : AppData) (f : List ℕ) (fs : List (List ℕ)) (r : Request)
    → length r.encs ≡ 63
    → named f ≡ ultra
    → request_entries a (f ∷ fs) r ≡ fault
unfolding request_entries
request_entries_overflow a f [] r h e = request_entry-overflow a f r h e
request_entries_overflow a f (g ∷ fs) r h e = rw (request_entry-overflow a f r h e) refl
