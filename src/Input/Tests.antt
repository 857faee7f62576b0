-- ===== src/Input/Tests.antt =====
-- A click, a drag and a scroll.
use remotedesk.Prelude.{ℕ, ◌≡◌, refl, List, [], ◌∷◌}
use remotedesk.Input.{Robot, left, up, moves, presses, releases, scrolls, pointer_event}
use remotedesk.Input.Buttons.{Pointer, pointer_events}

abbrev robot : Robot
robot = record { prev_buttons = 0 }

abbrev at : ℕ → Pointer
at mask = record { x = 3; y = 4; buttons = mask }

abbrev click : List Pointer
click = at 1 ∷ at 5 ∷ at 8 ∷ at 0 ∷ []

click_actions :
    (pointer_events robot (at 1 ∷ at 8 ∷ [])).1
    ≡ moves 3 4 ∷ presses left ∷ moves 3 4 ∷ releases left ∷ scrolls up ∷ []
unfolding pointer_events pointer_event
click_actions = refl
