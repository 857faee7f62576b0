-- ===== src/Window/Notches.antt =====
-- The frames' strokes: the notches in them, and the buttons at their end.
use Prim.Native.Nat.{bit_or}
use remotedesk.Prelude.{
  ℕ, ◌≡◌, refl, ap, ◌∙◌, Bool, true, false, List, [], ◌∷◌, ◌++◌, Option, none, some,
}
use remotedesk.Input.{Wheel, up}
use remotedesk.Input.Buttons.{held_in, last_mask}
use remotedesk.RfbClient.{Client}
use remotedesk.Window.Strokes.{held_after, turned, mask, notch, strokes}
use remotedesk.Window.Scrolls.{edges, all_edges}
use remotedesk.Window.{Devices, button_mask, wheel_bit}

stroke_turns :
    (prev : ℕ) (l m r : Bool) (dir : Wheel)
    → (edges prev (button_mask l m r) ≡ [])
      × (edges (button_mask l m r) (bit_or (button_mask l m r) (wheel_bit dir)) ≡ dir ∷ [])
unfolding button_mask
stroke_turns prev true true true up = (refl, refl)
stroke_turns prev true true true Wheel.down = (refl, refl)
stroke_turns prev true true false up = (refl, refl)
stroke_turns prev true true false Wheel.down = (refl, refl)
stroke_turns prev true false true up = (refl, refl)
stroke_turns prev true false true Wheel.down = (refl, refl)
stroke_turns prev true false false up = (refl, refl)
stroke_turns prev true false false Wheel.down = (refl, refl)
stroke_turns prev false true true up = (refl, refl)
stroke_turns prev false true true Wheel.down = (refl, refl)
stroke_turns prev false true false up = (refl, refl)
stroke_turns prev false true false Wheel.down = (refl, refl)
stroke_turns prev false false true up = (refl, refl)
stroke_turns prev false false true Wheel.down = (refl, refl)
stroke_turns prev false false false up = (refl, refl)
stroke_turns prev false false false Wheel.down = (refl, refl)

mask-held :
    (l m r : Bool)
    → held_in (button_mask l m r) ≡ record { left_down = l; center_down = m; right_down = r }
unfolding button_mask
mask-held true true true = refl
mask-held true true false = refl
mask-held true false true = refl
mask-held true false false = refl
mask-held false true true = refl
mask-held false true false = refl
mask-held false false true = refl
mask-held false false false = refl

pub strokes-turned :
    (c : Client) (prev : ℕ) (ds : List Devices) → all_edges prev (strokes c ds) ≡ turned ds
strokes-turned c prev [] = refl
strokes-turned c prev (d ∷ ds) = by_wheel d.wheel (strokes-turned c (mask d) ds)
  where
    turn :
        (dir : Wheel)
        → (edges prev (mask d) ≡ []) × (edges (mask d) (bit_or (mask d) (wheel_bit dir)) ≡ dir ∷ [])
    turn = stroke_turns prev d.left_pressed d.middle_pressed d.right_pressed

    back : (dir : Wheel) → edges (bit_or (mask d) (wheel_bit dir)) (mask d) ≡ []
    back dir =
        (stroke_turns (bit_or (mask d) (wheel_bit dir)) d.left_pressed d.middle_pressed
          d.right_pressed dir).0

    by_wheel :
        (w : Option Wheel)
        → all_edges (mask d) (strokes c ds) ≡ turned ds
        → edges prev (mask d) ++ all_edges (mask d) (notch c d w ++ strokes c ds)
          ≡ elim w [ none ↦ turned ds | some dir ↦ dir ∷ turned ds ]
    by_wheel none h = rw (turn up).0 h
    by_wheel (some dir) h = rw ((turn dir).0, (turn dir).1, back dir) (ap (◌∷◌ dir) h)

pub strokes-held :
    (c : Client) (m : ℕ) (ds : List Devices)
    → held_in (last_mask m (strokes c ds)) ≡ held_after (held_in m) ds
strokes-held c m [] = refl
strokes-held c m (d ∷ ds) =
    ap held_in (by_wheel d.wheel)
    ∙ strokes-held c (mask d) ds
    ∙ ap (λ h. held_after h ds) (mask-held d.left_pressed d.middle_pressed d.right_pressed)
  where
    by_wheel :
        (w : Option Wheel)
        → last_mask (mask d) (notch c d w ++ strokes c ds) ≡ last_mask (mask d) (strokes c ds)
    by_wheel none = refl
    by_wheel (some dir) = refl
