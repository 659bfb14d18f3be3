-- ===== src/Pointer/Focus.antt =====
-- What the focus decides: which events of a pointer count, and which cursor it shows.
use wlvncc.Base.{ℕ, ◌≡◌, refl, Bool, false, List, [], ◌∷◌, Option, if_false, ◌>>=◌, All, done}
use wlvncc.Pointer.Scrolling.{Input, entered, left, moved, pushed, scrolled, framed, feed, feed_all}
use wlvncc.Pointer.{Run, CursorImage, motion, button, axis, frame, enter, leave, set_handling}

-- Every event but the two that move the focus.
abbrev pub IsPlain : Input → Type 0
IsPlain (entered serial surface) = ⊥
IsPlain (left serial surface) = ⊥
IsPlain (moved x y) = Unit {0}
IsPlain (pushed serial code state) = Unit {0}
IsPlain (scrolled which v) = Unit {0}
IsPlain framed = Unit {0}

abbrev pub away : Run → Run
away r = record r { pointer = record (r.pointer) { handle_event = false } }

module _ (handles : ℕ → Bool) (cursors : ℕ → Option (List CursorImage)) where
  feed-away :
      (i : Input) (r : Run) → IsPlain i → r.handle_event ≡ false → feed handles cursors i r ≡ done r
  unfolding feed motion button axis frame
  feed-away (entered serial surface) r p h = elim p [ ]
  feed-away (left serial surface) r p h = elim p [ ]
  feed-away (moved x y) r p h = if_false _ _ h
  feed-away (pushed serial code state) r p h = if_false _ _ h
  feed-away (scrolled which v) r p h = if_false _ _ h
  feed-away framed r p h = if_false _ _ h

  feed_all-away :
      (is : List Input) (r : Run)
      → All IsPlain is
      → r.handle_event ≡ false
      → feed_all handles cursors is r ≡ done r
  unfolding feed_all
  feed_all-away [] r p h = refl
  feed_all-away (i ∷ is) r p h = rw (feed-away i r p.0 h) (feed_all-away is r p.1 h)

  -- Once the pointer has entered, or left, a surface that is not the window's, no further event
  -- changes it or is passed on, until the focus moves again: only the flag has changed.
  pub away_unchanged :
      (is : List Input) (serial surface : ℕ) (r : Run)
      → handles surface ≡ false
      → All IsPlain is
      → ((enter handles cursors serial surface r >>= feed_all handles cursors is) ≡ done (away r))
        × ((leave handles cursors serial surface r >>= feed_all handles cursors is) ≡ done (away r))
  unfolding enter leave set_handling
  away_unchanged is serial surface r h p =
      (rw h (feed_all-away is (away r) p refl), rw h (feed_all-away is (away r) p refl))
