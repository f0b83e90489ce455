-- ===== src/Channel/Masks.antt =====
-- The event masks of SrcFile/Channel.h: the four values that `events_` takes, and what each of the
-- enabling and disabling operations does to the two interests.
use simple_net_base.Prelude.{ℕ, ◌≡◌, refl, Bool, true, false, not, ◌||◌}
use simple_net_base.Channel.{
  Channel, is_writing, is_reading, is_none_event, want_reading, unwant_reading, want_writing,
  unwant_writing, want_nothing,
}

-- The mask of an interest in reading and one in writing.
abbrev pub mask : Bool → Bool → ℕ
mask false false = 0
mask true false = 3
mask false true = 4
mask true true = 7

-- The channel wants just these.
abbrev pub Wants : Channel → Bool → Bool → Type 0
Wants c r w = c.events ≡ mask r w

module _ (c : Channel) where
  -- What the three tests say.
  pub Wants-tests :
      (r w : Bool)
      → Wants c r w
      → (is_reading c ≡ r) × (is_writing c ≡ w) × (is_none_event c ≡ not (r || w))
  unfolding is_reading is_writing is_none_event
  Wants-tests true true h = rw h (refl, refl, refl)
  Wants-tests true false h = rw h (refl, refl, refl)
  Wants-tests false true h = rw h (refl, refl, refl)
  Wants-tests false false h = rw h (refl, refl, refl)

  pub want_reading-Wants : (r w : Bool) → Wants c r w → Wants (want_reading c) true w
  unfolding want_reading
  want_reading-Wants true true h = rw h
  want_reading-Wants true false h = rw h
  want_reading-Wants false true h = rw h
  want_reading-Wants false false h = rw h

  pub unwant_reading-Wants : (r w : Bool) → Wants c r w → Wants (unwant_reading c) false w
  unfolding unwant_reading
  unwant_reading-Wants true true h = rw h
  unwant_reading-Wants true false h = rw h
  unwant_reading-Wants false true h = rw h
  unwant_reading-Wants false false h = rw h

  pub want_writing-Wants : (r w : Bool) → Wants c r w → Wants (want_writing c) r true
  unfolding want_writing
  want_writing-Wants true true h = rw h
  want_writing-Wants true false h = rw h
  want_writing-Wants false true h = rw h
  want_writing-Wants false false h = rw h

  pub unwant_writing-Wants : (r w : Bool) → Wants c r w → Wants (unwant_writing c) r false
  unfolding unwant_writing
  unwant_writing-Wants true true h = rw h
  unwant_writing-Wants true false h = rw h
  unwant_writing-Wants false true h = rw h
  unwant_writing-Wants false false h = rw h

pub want_nothing-Wants : (c : Channel) → Wants (want_nothing c) false false
unfolding want_nothing
want_nothing-Wants c = refl

-- On a channel that wants reading or not (r) and writing or not (w), with the mask that says so:
-- enabling or disabling an interest leaves the mask of that interest switched and the other kept,
-- disableAll leaves the empty mask, and isReading, isWriting and isNoneEvent answer r, w and "neither".
pub interests :
    (c : Channel) (r w : Bool)
    → Wants c r w
    → Wants (want_reading c) true w
      × Wants (unwant_reading c) false w
      × Wants (want_writing c) r true
      × Wants (unwant_writing c) r false
      × Wants (want_nothing c) false false
      × (is_reading c ≡ r)
      × (is_writing c ≡ w)
      × (is_none_event c ≡ not (r || w))
interests c r w h = (
  want_reading-Wants c r w h,
  unwant_reading-Wants c r w h,
  want_writing-Wants c r w h,
  unwant_writing-Wants c r w h,
  want_nothing-Wants c,
  (Wants-tests c r w h).0,
  (Wants-tests c r w h).1,
  (Wants-tests c r w h).2,
)
