-- ===== src/Input.antt =====
-- internal/input/input.go: turning the RFB button mask into presses, releases and scrolls. The calls
-- of `robotgo` are a list of actions; the operating system applies them in that order.
use Prim.Native.Nat.{bit_and}
use remotedesk.Prelude.{
  ℕ, Bool, true, false, ◌&&◌, not, List, [], ◌∷◌, ◌++◌, Bytes, codes, ◌==◌, if◌then◌else◌,
}
pub mod Buttons
pub mod Keys
mod Tests

pub data Button : Type 0 where
  left center right : Button

pub data Wheel : Type 0 where
  up down : Wheel

-- `robotgo.Move`, `robotgo.Toggle` and `robotgo.ScrollDir(1, _)`.
pub data Action : Type 0 where
  moves : ℕ → ℕ → Action
  presses releases : Button → Action
  scrolls : Wheel → Action

abbrev pub btn_left : ℕ
btn_left = 1

abbrev pub btn_middle : ℕ
btn_middle = 2

abbrev pub btn_right : ℕ
btn_right = 4

abbrev pub btn_wheel_up : ℕ
btn_wheel_up = 8

abbrev pub btn_wheel_down : ℕ
btn_wheel_down = 16

pub record Robot : Type 0 where
  pub prev_buttons : ℕ

-- `buttons&bit != 0`
abbrev pub is_set : ℕ → ℕ → Bool
is_set buttons bit = not (bit_and buttons bit == 0)

pub toggle_button : Robot → ℕ → ℕ → Button → List Action
toggle_button r buttons bit name =
    let now = is_set buttons bit in
    let was = is_set r.prev_buttons bit in
    if now
    then (if was then [] else presses name ∷ [])
    else (if was then releases name ∷ [] else [])

-- Wheel bits act on their leading edge.
pub wheel : Robot → ℕ → ℕ → Wheel → List Action
wheel r buttons bit dir =
    if is_set buttons bit && not (is_set r.prev_buttons bit) then scrolls dir ∷ [] else []

unfoldable pub pointer_event : Robot → ℕ → ℕ → ℕ → Robot × List Action
unfolding toggle_button wheel
pointer_event r x y buttons = (
  record r { prev_buttons = buttons },
  moves x y
      ∷ (toggle_button r buttons btn_left left
          ++ (toggle_button r buttons btn_middle center
              ++ (toggle_button r buttons btn_right right
                  ++ (wheel r buttons btn_wheel_up up ++ wheel r buttons btn_wheel_down down)))),
)
