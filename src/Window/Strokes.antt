-- ===== src/Window/Strokes.antt =====
-- The events that the server makes of the frames of a person at the viewer.
use Prim.Native.Nat.{bit_or}
use remotedesk.Prelude.{
  ℕ, ◌≡◌, refl, ap, sym, ◌∙◌, arith, Bool, true, false, List, [], ◌∷◌, ◌++◌, append_assoc, Option,
  none, some, All, ◌==◌, if◌then◌else◌,
}
use remotedesk.Input.{Wheel}
use remotedesk.Input.Buttons.{Held, Pointer}
use mathlib.Core.Path.{ap₂}
use remotedesk.Input.Keys.{Key, keysym, KeyAction, key_event}
use remotedesk.Input.Keys.Resolve.{Exists, meant, toggles, keys-toggles, key_event-zero}
use remotedesk.RfbClient.{Client}
use remotedesk.RfbClient.Dialogue.{Call, send_pointer, nearest}
use remotedesk.Window.Effects.{pointers, keys, effects}
use remotedesk.Window.{Devices, button_mask, wheel_calls, wheel_bit, key_calls, update, updates}

-- What the person at the viewer does.
abbrev pub held_by : Devices → Held
held_by d = record {
  left_down = d.left_pressed;
  center_down = d.middle_pressed;
  right_down = d.right_pressed;
}

abbrev pub held_after : Held → List Devices → Held
held_after h [] = h
held_after h (d ∷ ds) = held_after (held_by d) ds

abbrev pub turned : List Devices → List Wheel
turned [] = []
turned (d ∷ ds) = elim d.wheel [ none ↦ turned ds | some dir ↦ dir ∷ turned ds ]

abbrev pub mapped : Bool → List Key → List (ℕ × Bool)
mapped is_down [] = []
mapped is_down (k ∷ ks) =
    let later = mapped is_down ks in if keysym k == 0 then later else (keysym k, is_down) ∷ later

abbrev pub typed : List Devices → List (ℕ × Bool)
typed [] = []
typed (d ∷ ds) = mapped true d.just_pressed ++ (mapped false d.just_released ++ typed ds)

-- The keys are keys that exist.
abbrev pub KeysExist : Devices → Type 0
KeysExist d = All Exists d.just_pressed × All Exists d.just_released

-- What the person does to the keys of the host's machine.
abbrev pub toggled : Bool → List Key → List KeyAction
toggled is_down [] = []
toggled is_down (k ∷ ks) = toggles (meant k) is_down ++ toggled is_down ks

abbrev pub keys_toggled : List Devices → List KeyAction
keys_toggled [] = []
keys_toggled (d ∷ ds) =
    toggled true d.just_pressed ++ (toggled false d.just_released ++ keys_toggled ds)

-- What the machine makes of key events.
abbrev pub key_actions : List (ℕ × Bool) → List KeyAction
key_actions [] = []
key_actions ((v, is_down) ∷ rest) = key_event v is_down ++ key_actions rest

key_actions-append :
    (xs ys : List (ℕ × Bool)) → key_actions (xs ++ ys) ≡ key_actions xs ++ key_actions ys
key_actions-append [] ys = refl
key_actions-append ((v, is_down) ∷ xs) ys =
    ap (key_event v is_down ++◌) (key_actions-append xs ys)
    ∙ sym (append_assoc (key_event v is_down) (key_actions xs) (key_actions ys))

equal_zero : (v : ℕ) → (v == 0) ≡ true → v ≡ 0
equal_zero v h = ground arith

key_actions-mapped :
    (is_down : Bool) (ks : List Key)
    → All Exists ks
    → key_actions (mapped is_down ks) ≡ toggled is_down ks
key_actions-mapped is_down [] h = refl
key_actions-mapped is_down (k ∷ ks) (h, hs) =
    by_zero (keysym k == 0) refl
    ∙ ap₂ ◌++◌ (keys-toggles k is_down h) (key_actions-mapped is_down ks hs)
  where
    zero_case : (keysym k == 0) ≡ true → key_event (keysym k) is_down ≡ []
    zero_case e = ap (λ v. key_event v is_down) (equal_zero (keysym k) e) ∙ key_event-zero is_down

    by_zero :
        (z : Bool)
        → (keysym k == 0) ≡ z
        → key_actions (mapped is_down (k ∷ ks))
          ≡ key_event (keysym k) is_down ++ key_actions (mapped is_down ks)
    by_zero true e = rw e (rw (zero_case e) refl)
    by_zero false e = rw e refl

pub key_actions-typed :
    (ds : List Devices) → All KeysExist ds → key_actions (typed ds) ≡ keys_toggled ds
key_actions-typed [] h = refl
key_actions-typed (d ∷ ds) ((p, r), h) =
    key_actions-append (mapped true d.just_pressed) (mapped false d.just_released ++ typed ds)
    ∙ ap₂ ◌++◌ (key_actions-mapped true d.just_pressed p) (
        key_actions-append (mapped false d.just_released) (typed ds)
        ∙ ap₂ ◌++◌ (key_actions-mapped false d.just_released r) (key_actions-typed ds h))

abbrev point : Client → Devices → ℕ → Pointer
point c d buttons = record {
  x = nearest d.cursor_x c.width;
  y = nearest d.cursor_y c.height;
  buttons = buttons;
}

abbrev pub mask : Devices → ℕ
mask d = button_mask d.left_pressed d.middle_pressed d.right_pressed

abbrev pub notch : Client → Devices → Option Wheel → List Pointer
notch c d none = []
notch c d (some dir) = point c d (bit_or (mask d) (wheel_bit dir)) ∷ point c d (mask d) ∷ []

abbrev pub strokes : Client → List Devices → List Pointer
strokes c [] = []
strokes c (d ∷ ds) = point c d (mask d) ∷ (notch c d d.wheel ++ strokes c ds)

pointers-keys_quiet :
    (c : Client) (b : Bool) (ks : List Key) (rest : List Call)
    → pointers (effects c (key_calls b ks ++ rest)) ≡ pointers (effects c rest)
unfolding key_calls
pointers-keys_quiet c b [] rest = refl
pointers-keys_quiet c b (k ∷ ks) rest =
    by_zero (keysym k == 0) refl (pointers-keys_quiet c b ks rest)
  where
    by_zero :
        (z : Bool)
        → (keysym k == 0) ≡ z
        → pointers (effects c (key_calls b ks ++ rest)) ≡ pointers (effects c rest)
        → pointers (effects c (key_calls b (k ∷ ks) ++ rest)) ≡ pointers (effects c rest)
    by_zero true e h = rw e h
    by_zero false e h = rw e h

keys-mapped :
    (c : Client) (b : Bool) (ks : List Key) (rest : List Call)
    → keys (effects c (key_calls b ks ++ rest)) ≡ mapped b ks ++ keys (effects c rest)
unfolding key_calls
keys-mapped c b [] rest = refl
keys-mapped c b (k ∷ ks) rest = by_zero (keysym k == 0) refl (keys-mapped c b ks rest)
  where
    by_zero :
        (z : Bool)
        → (keysym k == 0) ≡ z
        → keys (effects c (key_calls b ks ++ rest)) ≡ mapped b ks ++ keys (effects c rest)
        → keys (effects c (key_calls b (k ∷ ks) ++ rest))
          ≡ mapped b (k ∷ ks) ++ keys (effects c rest)
    by_zero true e h = rw e h
    by_zero false e h = rw e (ap (◌∷◌ (keysym k, b)) h)

pointers-notch :
    (c : Client) (d : Devices) (w : Option Wheel) (rest : List Call)
    → pointers (effects c (wheel_calls d.cursor_x d.cursor_y (mask d) w ++ rest))
      ≡ notch c d w ++ pointers (effects c rest)
pointers-notch c d none rest = refl
pointers-notch c d (some dir) rest = refl

keys-notch_quiet :
    (c : Client) (d : Devices) (w : Option Wheel) (rest : List Call)
    → keys (effects c (wheel_calls d.cursor_x d.cursor_y (mask d) w ++ rest))
      ≡ keys (effects c rest)
keys-notch_quiet c d none rest = refl
keys-notch_quiet c d (some dir) rest = refl

-- The calls of a frame, before others.
pub update_split :
    (d : Devices) (rest : List Call)
    → update d ++ rest
      ≡ send_pointer d.cursor_x d.cursor_y (mask d)
        ∷ (wheel_calls d.cursor_x d.cursor_y (mask d) d.wheel
            ++ (key_calls true d.just_pressed ++ (key_calls false d.just_released ++ rest)))
unfolding update
update_split d rest = ap (◌∷◌ (send_pointer d.cursor_x d.cursor_y (mask d))) (
    append_assoc (wheel_calls d.cursor_x d.cursor_y (mask d) d.wheel)
      (key_calls true d.just_pressed ++ key_calls false d.just_released) rest
    ∙ ap (wheel_calls d.cursor_x d.cursor_y (mask d) d.wheel ++◌)
        (append_assoc (key_calls true d.just_pressed) (key_calls false d.just_released) rest))

pub pointers-strokes :
    (c : Client) (ds : List Devices) → pointers (effects c (updates ds)) ≡ strokes c ds
unfolding updates
pointers-strokes c [] = refl
pointers-strokes c (d ∷ ds) =
    ap (λ calls. pointers (effects c calls)) (update_split d (updates ds))
    ∙ ap (◌∷◌ (point c d (mask d))) (
        pointers-notch c d d.wheel
          (key_calls true d.just_pressed ++ (key_calls false d.just_released ++ updates ds))
        ∙ ap (notch c d d.wheel ++◌) (
            pointers-keys_quiet c true d.just_pressed
              (key_calls false d.just_released ++ updates ds)
            ∙ pointers-keys_quiet c false d.just_released (updates ds)
            ∙ pointers-strokes c ds))

pub keys-typed : (c : Client) (ds : List Devices) → keys (effects c (updates ds)) ≡ typed ds
unfolding updates
keys-typed c [] = refl
keys-typed c (d ∷ ds) =
    ap (λ calls. keys (effects c calls)) (update_split d (updates ds))
    ∙ keys-notch_quiet c d d.wheel
        (key_calls true d.just_pressed ++ (key_calls false d.just_released ++ updates ds))
    ∙ keys-mapped c true d.just_pressed (key_calls false d.just_released ++ updates ds)
    ∙ ap (mapped true d.just_pressed ++◌) (
        keys-mapped c false d.just_released (updates ds)
        ∙ ap (mapped false d.just_released ++◌) (keys-typed c ds))
