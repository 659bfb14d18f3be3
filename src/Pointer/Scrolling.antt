-- ===== src/Pointer/Scrolling.antt =====
-- No scrolling is lost or made up between the axis events and the frames that are passed on.
use wlvncc.Base.{
  ℕ, ◌<◌, ◌≡◌, refl, sym, ◌∙◌, subst, Bool, true, ◌&&◌, List, [], ◌∷◌, ◌++◌, Option, ◌==◌,
  if◌then◌else◌, arith, Outcome, done, aborted, fault, endless, ◌>>=◌, >>=-eq-done, done-injective,
}
use wlvncc.Base.Int.{
  ℤ, pos, ◌+ℤ◌, ◌-ℤ◌, trunc_div, scale, magnitude, int_laws, scale_parts, +ℤ_assoc, +ℤ-zero,
}
use wlvncc.Pointer.{
  Pointer, Run, CursorImage, step_size, take_steps, clear_steps, motion, button, add_axis, axis,
  frame, enter, leave,
}

-- The events of a pointer.
pub data Input : Type 0 where
  entered : ℕ → ℕ → Input
  left : ℕ → ℕ → Input
  moved : ℤ → ℤ → Input
  pushed : ℕ → ℕ → ℕ → Input
  scrolled : ℕ → ℤ → Input
  framed : Input

take_residual : (v : ℤ) → magnitude (v -ℤ scale step_size (trunc_div v step_size)) < step_size
unfolding ◌-ℤ◌ scale trunc_div
take_residual v = ground arith

take_total :
    (s v : ℤ)
    → scale step_size (s +ℤ (pos 0 +ℤ trunc_div v step_size))
        +ℤ (v -ℤ scale step_size (trunc_div v step_size))
      ≡ scale step_size s +ℤ v
take_total s v = omega (int_laws, scale_parts)

-- The steps of all frames, by direction.
pub vertical_steps : List Pointer → ℤ
vertical_steps [] = pos 0
vertical_steps (p ∷ ps) = p.vertical_scroll_steps +ℤ vertical_steps ps

pub horizontal_steps : List Pointer → ℤ
horizontal_steps [] = pos 0
horizontal_steps (p ∷ ps) = p.horizontal_scroll_steps +ℤ horizontal_steps ps

vertical_steps-append :
    (ps : List Pointer) (p : Pointer)
    → vertical_steps (ps ++ p ∷ []) ≡ vertical_steps ps +ℤ p.vertical_scroll_steps
unfolding vertical_steps
vertical_steps-append [] p = omega int_laws
vertical_steps-append (q ∷ ps) p =
    rw (vertical_steps-append ps p)
      (sym (+ℤ_assoc q.vertical_scroll_steps (vertical_steps ps) p.vertical_scroll_steps))

horizontal_steps-append :
    (ps : List Pointer) (p : Pointer)
    → horizontal_steps (ps ++ p ∷ []) ≡ horizontal_steps ps +ℤ p.horizontal_scroll_steps
unfolding horizontal_steps
horizontal_steps-append [] p = omega int_laws
horizontal_steps-append (q ∷ ps) p =
    rw (horizontal_steps-append ps p)
      (sym (+ℤ_assoc q.horizontal_scroll_steps (horizontal_steps ps) p.horizontal_scroll_steps))

-- All that was scrolled, in 1/256: what was passed on as steps, and what waits.
abbrev pub vertical_total : Run → ℤ
vertical_total r = scale step_size (vertical_steps r.frames) +ℤ r.vertical_axis_value

abbrev pub horizontal_total : Run → ℤ
horizontal_total r = scale step_size (horizontal_steps r.frames) +ℤ r.horizontal_axis_value

-- Between two events no step count is left over.
pub record IsSettled (r : Run) : Type 0 where
  pub vertical : r.vertical_scroll_steps ≡ pos 0
  pub horizontal : r.horizontal_scroll_steps ≡ pos 0

-- What an event adds: an axis event its value, while the pointer is on the window.
pub vertical_gain : Input → Run → ℤ
vertical_gain (scrolled which v) r = if r.handle_event && which == 0 then v else pos 0
vertical_gain (entered a b) r = pos 0
vertical_gain (left a b) r = pos 0
vertical_gain (moved x y) r = pos 0
vertical_gain (pushed a b c) r = pos 0
vertical_gain framed r = pos 0

pub horizontal_gain : Input → Run → ℤ
horizontal_gain (scrolled which v) r = if r.handle_event && which == 1 then v else pos 0
horizontal_gain (entered a b) r = pos 0
horizontal_gain (left a b) r = pos 0
horizontal_gain (moved x y) r = pos 0
horizontal_gain (pushed a b c) r = pos 0
horizontal_gain framed r = pos 0

-- An event that leaves the four scroll fields and the frames alone.
pub record SameScroll (r r' : Run) : Type 0 where
  pub vertical_value : r'.vertical_axis_value ≡ r.vertical_axis_value
  pub horizontal_value : r'.horizontal_axis_value ≡ r.horizontal_axis_value
  pub vertical_count : r'.vertical_scroll_steps ≡ r.vertical_scroll_steps
  pub horizontal_count : r'.horizontal_scroll_steps ≡ r.horizontal_scroll_steps
  pub frames_same : r'.frames ≡ r.frames

motion-SameScroll : (x y : ℤ) (r r' : Run) → motion x y r ≡ done r' → SameScroll r r'
unfolding motion
motion-SameScroll x y r r' e = ground arith

button-SameScroll :
    (serial code state : ℕ) (r r' : Run) → button serial code state r ≡ done r' → SameScroll r r'
unfolding button
button-SameScroll serial code state r r' e = ground arith

module _ (handles : ℕ → Bool) (cursors : ℕ → Option (List CursorImage)) where
  unfoldable pub feed : Input → Run → Outcome Run
  feed (entered serial surface) r = enter handles cursors serial surface r
  feed (left serial surface) r = leave handles cursors serial surface r
  feed (moved x y) r = motion x y r
  feed (pushed serial code state) r = button serial code state r
  feed (scrolled which v) r = axis which v r
  feed framed r = frame r

  enter-SameScroll :
      (serial surface : ℕ) (r r' : Run)
      → enter handles cursors serial surface r ≡ done r'
      → SameScroll r r'
  unfolding enter
  enter-SameScroll serial surface r r' e = ground arith

  leave-SameScroll :
      (serial surface : ℕ) (r r' : Run)
      → leave handles cursors serial surface r ≡ done r'
      → SameScroll r r'
  unfolding leave
  leave-SameScroll serial surface r r' e = ground arith

  abbrev pub Counts : Input → Run → Run → Type 0
  Counts i r r' =
      (vertical_total r' ≡ vertical_total r +ℤ vertical_gain i r)
      × (horizontal_total r' ≡ horizontal_total r +ℤ horizontal_gain i r)
      × IsSettled r'

  axis-Counts :
      (which : ℕ) (v : ℤ) (r r' : Run)
      → IsSettled r
      → axis which v r ≡ done r'
      → Counts (scrolled which v) r r'
  unfolding axis add_axis vertical_gain horizontal_gain
  axis-Counts which v r r' s e = ground (
    arith,
    +ℤ-zero (vertical_total r),
    +ℤ-zero (horizontal_total r),
    +ℤ_assoc (scale step_size (vertical_steps r.frames)) r.vertical_axis_value v,
    +ℤ_assoc (scale step_size (horizontal_steps r.frames)) r.horizontal_axis_value v,
  )

  frame-Counts : (r r' : Run) → IsSettled r → frame r ≡ done r' → Counts framed r r'
  unfolding frame take_steps clear_steps vertical_gain horizontal_gain
  frame-Counts r r' s e = ground (
    arith,
    +ℤ-zero (vertical_total r),
    +ℤ-zero (horizontal_total r),
    vertical_steps-append r.frames (take_steps r.pointer),
    horizontal_steps-append r.frames (take_steps r.pointer),
    take_total (vertical_steps r.frames) r.vertical_axis_value,
    take_total (horizontal_steps r.frames) r.horizontal_axis_value,
  )

  same-Counts :
      (i : Input) (r r' : Run)
      → vertical_gain i r ≡ pos 0
      → horizontal_gain i r ≡ pos 0
      → IsSettled r
      → SameScroll r r'
      → Counts i r r'
  same-Counts i r r' gv gh s m = (
    rw (gv, m.frames_same, m.vertical_value) (sym (+ℤ-zero (vertical_total r))),
    rw (gh, m.frames_same, m.horizontal_value) (sym (+ℤ-zero (horizontal_total r))),
    record {
      vertical = m.vertical_count ∙ s.vertical;
      horizontal = m.horizontal_count ∙ s.horizontal;
    },
  )

  -- One event: the totals grow by what it adds.
  feed-Counts : (i : Input) (r r' : Run) → IsSettled r → feed i r ≡ done r' → Counts i r r'
  unfolding feed vertical_gain horizontal_gain
  feed-Counts (entered a b) r r' s e =
      same-Counts (entered a b) r r' refl refl s (enter-SameScroll a b r r' e)
  feed-Counts (left a b) r r' s e =
      same-Counts (left a b) r r' refl refl s (leave-SameScroll a b r r' e)
  feed-Counts (moved x y) r r' s e =
      same-Counts (moved x y) r r' refl refl s (motion-SameScroll x y r r' e)
  feed-Counts (pushed a b c) r r' s e =
      same-Counts (pushed a b c) r r' refl refl s (button-SameScroll a b c r r' e)
  feed-Counts (scrolled which v) r r' s e = axis-Counts which v r r' s e
  feed-Counts framed r r' s e = frame-Counts r r' s e

  unfoldable pub feed_all : List Input → Run → Outcome Run
  unfolding feed
  feed_all [] r = done r
  feed_all (i ∷ is) r = feed i r >>= feed_all is

  -- The gains of a history, each at the state it meets.
  gains_after : Outcome Run → (Run → ℤ) → ℤ
  gains_after (done r) f = f r
  gains_after aborted f = pos 0
  gains_after fault f = pos 0
  gains_after endless f = pos 0

  pub vertical_gains : List Input → Run → ℤ
  unfolding gains_after feed vertical_gain
  vertical_gains [] r = pos 0
  vertical_gains (i ∷ is) r = vertical_gain i r +ℤ gains_after (feed i r) (vertical_gains is)

  pub horizontal_gains : List Input → Run → ℤ
  unfolding gains_after feed horizontal_gain
  horizontal_gains [] r = pos 0
  horizontal_gains (i ∷ is) r = horizontal_gain i r +ℤ gains_after (feed i r) (horizontal_gains is)

  -- Over any history that starts with no step count left over, the steps passed on with the frames
  -- (15 units of 1/256 * 256 each) and the value that waits grow together by exactly the values of
  -- the axis events that came while the pointer was on the window, in each direction; and no step
  -- count is left over at the end.
  pub feed_all-total :
      (is : List Input) (r r' : Run)
      → IsSettled r
      → feed_all is r ≡ done r'
      → (vertical_total r' ≡ vertical_total r +ℤ vertical_gains is r)
        × (horizontal_total r' ≡ horizontal_total r +ℤ horizontal_gains is r)
        × IsSettled r'
  unfolding feed_all vertical_gains horizontal_gains gains_after
  feed_all-total [] r r' s e =
      subst
        (λ (q : Run).
          (vertical_total q ≡ vertical_total r +ℤ pos 0)
          × (horizontal_total q ≡ horizontal_total r +ℤ pos 0)
          × IsSettled q)
        (done-injective e) (sym (+ℤ-zero (vertical_total r)), sym (+ℤ-zero (horizontal_total r)), s)
  feed_all-total (i ∷ is) r r' s e =
      let (r1, e1, e2) = >>=-eq-done (feed i r) (feed_all is) e in
      let (v1, h1, s1) = feed-Counts i r r1 s e1 in
      let (v2, h2, s2) = feed_all-total is r1 r' s1 e2 in
      (
        rw (e1, gains_after) (v2 ∙ (rw v1 (+ℤ_assoc (vertical_total r) (vertical_gain i r) _))),
        rw (e1, gains_after) (h2 ∙ (rw h1 (+ℤ_assoc (horizontal_total r) (horizontal_gain i r) _))),
        s2,
      )

frame_bounds :
    (r r' : Run)
    → r.handle_event ≡ true
    → frame r ≡ done r'
    → (magnitude r'.vertical_axis_value < step_size)
      × (magnitude r'.horizontal_axis_value < step_size)
unfolding frame take_steps clear_steps
frame_bounds r r' h e =
    ground (arith, take_residual r.vertical_axis_value, take_residual r.horizontal_axis_value)

-- A frame on the window is handled, and leaves less than one step of 15 to wait, in each direction.
pub frame_residual :
    (r : Run)
    → r.handle_event ≡ true
    → (r' : Run) × (frame r ≡ done r')
      × (magnitude r'.vertical_axis_value < step_size)
      × (magnitude r'.horizontal_axis_value < step_size)
unfolding frame
frame_residual r h =
    let passed : Run = record r {
      pointer = clear_steps (take_steps r.pointer);
      frames = r.frames ++ (take_steps r.pointer ∷ []);
    } in
    let e : frame r ≡ done passed = rw h refl in
    let (vertical, horizontal) = frame_bounds r passed h e in (passed, e, vertical, horizontal)
