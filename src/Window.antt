-- ===== src/Window.antt =====
-- cmd/viewer/game.go: the viewer's window. What `ebiten` reads from the devices in a frame is a
-- record; the calls of the client are those of RfbClient.
use Prim.Native.Nat.{bit_or}
use remotedesk.Prelude.{
  ℕ, Bool, true, false, not, List, [], ◌∷◌, ◌++◌, Option, none, some, Bytes, ℤ, ◌==◌, if◌then◌else◌,
}
use remotedesk.Input.{Wheel, up, down}
use remotedesk.Input.Keys.{Key, keysym}
use remotedesk.RfbClient.{Client}
use remotedesk.RfbClient.Dialogue.{Call, request_update, send_pointer, send_key}
pub mod Command
pub mod Drives
pub mod Effects
pub mod Notches
pub mod Pull
pub mod Scrolls
pub mod Strokes
mod Tests

-- `wheel` is the direction of the vertical wheel, if it is turned.
pub record Devices : Type 0 where
  pub cursor_x : ℤ
  pub cursor_y : ℤ
  pub left_pressed : Bool
  pub middle_pressed : Bool
  pub right_pressed : Bool
  pub wheel : Option Wheel
  pub just_pressed : List Key
  pub just_released : List Key

abbrev bit_if : Bool → ℕ → ℕ → ℕ
bit_if pressed bit buttons = if pressed then bit_or buttons bit else buttons

unfoldable pub button_mask : Bool → Bool → Bool → ℕ
button_mask left middle right = bit_if right 4 (bit_if middle 2 (bit_if left 1 0))

abbrev pub wheel_bit : Wheel → ℕ
wheel_bit up = 8
wheel_bit Wheel.down = 16

abbrev pub wheel_calls : ℤ → ℤ → ℕ → Option Wheel → List Call
wheel_calls x y buttons none = []
wheel_calls x y buttons (some turn) =
    send_pointer x y (bit_or buttons (wheel_bit turn)) ∷ send_pointer x y buttons ∷ []

-- Keys without a keysym are left out.
unfoldable pub key_calls : Bool → List Key → List Call
key_calls is_down [] = []
key_calls is_down (k ∷ keys) =
    let sym = keysym k in
    let later = key_calls is_down keys in
    if not (sym == 0) then send_key sym is_down ∷ later else later

unfoldable pub update : Devices → List Call
update d =
    let x = d.cursor_x in
    let y = d.cursor_y in
    let buttons = button_mask d.left_pressed d.middle_pressed d.right_pressed in
    send_pointer x y buttons
    ∷ (wheel_calls x y buttons d.wheel
        ++ (key_calls true d.just_pressed ++ key_calls false d.just_released))

unfoldable pub updates : List Devices → List Call
updates [] = []
updates (d ∷ ds) = update d ++ updates ds

-- The window: `image` is the client's framebuffer, and `frame` the pixels last written. `due`: `Draw`
-- has seen the flag and not yet written the pixels.
pub record Game : Type 0 where
  pub image : Bytes
  pub frame : Bytes
  pub dirty : Bool
  pub due : Bool
  pub calls : List Call

-- `newGame`, for a client with this image and a new image of the window's size.
unfoldable pub new_game : Bytes → Bytes → Game
new_game image blank = record {
  image = image;
  frame = blank;
  dirty = false;
  due = false;
  calls = request_update false ∷ [];
}

-- `OnUpdate`, which the client calls after each update.
unfoldable pub on_update : Game → Game
on_update g = record g { dirty = true; calls = g.calls ++ (request_update true ∷ []) }

-- `Draw` up to the swap of the flag, which comes again only once the pixels are written.
unfoldable pub swap : Game → Game
swap g = if g.due then g else record g { dirty = false; due = g.dirty }

-- The rest of `Draw`: the pixels are a snapshot of the client's image at that time.
unfoldable pub write_pixels : Game → Game
write_pixels g = if g.due then record g { frame = g.image; due = false } else g

abbrev pub layout : Client → ℕ × ℕ
layout c = (c.width, c.height)

-- A step of the client's goroutine, which decodes a part of an update or reports its end, and of
-- the window's.
pub data Event : Type 0 where
  decodes : Bytes → Event
  reports swaps writes : Event

unfoldable pub step : Event → Game → Game
step (decodes image) g = record g { image = image }
step reports g = on_update g
step swaps g = swap g
step writes g = write_pixels g

unfoldable pub runs : List Event → Game → Game
runs [] g = g
runs (e ∷ es) g = runs es (step e g)
