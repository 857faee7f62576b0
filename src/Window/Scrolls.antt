-- ===== src/Window/Scrolls.antt =====
-- The scrolls of the machine: one for each notch of the viewer's wheel.
use remotedesk.Prelude.{ℕ, ◌≡◌, refl, ap, ◌∙◌, ◌&&◌, not, List, [], ◌∷◌, ◌++◌, arith, if◌then◌else◌}
use remotedesk.Input.{
  Action, moves, presses, releases, scrolls, Wheel, up, Robot, is_set, pointer_event,
}
use remotedesk.Input.Buttons.{Pointer, pointer_events}

-- The scrolls among the actions of the robot.
abbrev pub turns : List Action → List Wheel
turns [] = []
turns (scrolls dir ∷ rest) = dir ∷ turns rest
turns (moves x y ∷ rest) = turns rest
turns (presses b ∷ rest) = turns rest
turns (releases b ∷ rest) = turns rest

turns-append : (xs ys : List Action) → turns (xs ++ ys) ≡ turns xs ++ turns ys
turns-append [] ys = refl
turns-append (scrolls dir ∷ xs) ys = ap (◌∷◌ dir) (turns-append xs ys)
turns-append (moves x y ∷ xs) ys = turns-append xs ys
turns-append (presses b ∷ xs) ys = turns-append xs ys
turns-append (releases b ∷ xs) ys = turns-append xs ys

-- The wheel bits of a mask whose leading edge a pointer event is.
abbrev pub edge : ℕ → ℕ → ℕ → Wheel → List Wheel
edge prev buttons bit dir = if is_set buttons bit && not (is_set prev bit) then dir ∷ [] else []

abbrev pub edges : ℕ → ℕ → List Wheel
edges prev buttons = edge prev buttons 8 up ++ edge prev buttons 16 Wheel.down

pointer_event-turns :
    (r : Robot) (x y buttons : ℕ)
    → turns (pointer_event r x y buttons).1 ≡ edges r.prev_buttons buttons
unfolding pointer_event
pointer_event-turns r x y buttons = ground arith

abbrev pub all_edges : ℕ → List Pointer → List Wheel
all_edges prev [] = []
all_edges prev (p ∷ ps) = edges prev p.buttons ++ all_edges p.buttons ps

prev_next : (r : Robot) (x y buttons : ℕ) → (pointer_event r x y buttons).0.prev_buttons ≡ buttons
unfolding pointer_event
prev_next r x y buttons = refl

pub turns-edges :
    (r : Robot) (ps : List Pointer) → turns (pointer_events r ps).1 ≡ all_edges r.prev_buttons ps
unfolding pointer_events
turns-edges r [] = refl
turns-edges r (p ∷ ps) =
    let here = pointer_event r p.x p.y p.buttons in
    turns-append here.1 (pointer_events here.0 ps).1
    ∙ rw
        (
          pointer_event-turns r p.x p.y p.buttons,
          turns-edges here.0 ps,
          prev_next r p.x p.y p.buttons,
        )
        refl
