-- ===== src/Window/Drives.antt =====
-- The devices at the viewer and the machine of the host: the calls of `Update`, over the wire, through
-- the server's loop and the robot.
use remotedesk.Prelude.{
  ℕ, subst, ◌<◌, ◌≡◌, refl, sym, ap, ◌∙◌, Bool, true, false, List, [], ◌∷◌, ◌++◌, Option, none,
  some, ℤ, All, length, ◌==◌,
}
use remotedesk.Input.{Wheel, Robot}
use remotedesk.Input.Buttons.{apply_all, held_in, pointer_events, pointer_events_hold}
use remotedesk.Input.Keys.{Key, keysym}
use remotedesk.Input.Keys.Resolve.{Exists, keysym_fits}
use remotedesk.Rfb.Session.{Session, Env, Effect, End, clean, loop}
use remotedesk.RfbClient.{Client}
use remotedesk.RfbClient.Dialogue.{
  Call, send_pointer, messages, HasScreen, Fits, messages_understood,
}
use remotedesk.Window.Strokes.{
  held_after, turned, keys_toggled, key_actions, key_actions-typed, KeysExist, mask, strokes,
  pointers-strokes, keys-typed, update_split,
}
use remotedesk.Window.Effects.{pointers, keys, effects, IsInput, answers-effects}
use remotedesk.Window.Scrolls.{turns, turns-edges}
use remotedesk.Window.Notches.{strokes-turned, strokes-held}
use remotedesk.Window.{Devices, wheel_calls, key_calls, updates}

IsInput-keys :
    (b : Bool) (ks : List Key) (rest : List Call)
    → All IsInput rest
    → All IsInput (key_calls b ks ++ rest)
unfolding key_calls
IsInput-keys b [] rest h = h
IsInput-keys b (k ∷ ks) rest h = by_zero (keysym k == 0) refl (IsInput-keys b ks rest h)
  where
    by_zero :
        (z : Bool)
        → (keysym k == 0) ≡ z
        → All IsInput (key_calls b ks ++ rest)
        → All IsInput (key_calls b (k ∷ ks) ++ rest)
    by_zero true e h = rw e h
    by_zero false e h = rw e (tt, h)

Fits-keys :
    (b : Bool) (ks : List Key) (rest : List Call)
    → All Exists ks
    → All Fits rest
    → All Fits (key_calls b ks ++ rest)
unfolding key_calls
Fits-keys b [] rest fit h = h
Fits-keys b (k ∷ ks) rest (f, fit) h = by_zero (keysym k == 0) refl (Fits-keys b ks rest fit h)
  where
    by_zero :
        (z : Bool)
        → (keysym k == 0) ≡ z
        → All Fits (key_calls b ks ++ rest)
        → All Fits (key_calls b (k ∷ ks) ++ rest)
    by_zero true e h = rw e h
    by_zero false e h = rw e (keysym_fits k f, h)

wheel-All :
    (P : Call → Type 0) (d : Devices) (w : Option Wheel) (rest : List Call)
    → ((x y : ℤ) (b : ℕ) → P (send_pointer x y b))
    → All P rest
    → All P (wheel_calls d.cursor_x d.cursor_y (mask d) w ++ rest)
wheel-All P d none rest p h = h
wheel-All P d (some dir) rest p h = (p _ _ _, (p _ _ _, h))

updates-IsInput : (ds : List Devices) → All IsInput (updates ds)
unfolding updates
updates-IsInput [] = tt
updates-IsInput (d ∷ ds) = subst (All IsInput) (sym (update_split d (updates ds))) (
  tt,
  wheel-All IsInput d d.wheel
      (key_calls true d.just_pressed ++ (key_calls false d.just_released ++ updates ds))
      (λ x y b. tt)
      (IsInput-keys true d.just_pressed (key_calls false d.just_released ++ updates ds)
        (IsInput-keys false d.just_released (updates ds) (updates-IsInput ds))),
)

updates-Fits : (ds : List Devices) → All KeysExist ds → All Fits (updates ds)
unfolding updates
updates-Fits [] h = tt
updates-Fits (d ∷ ds) ((p, r), h) = subst (All Fits) (sym (update_split d (updates ds))) (
  tt,
  wheel-All Fits d d.wheel
      (key_calls true d.just_pressed ++ (key_calls false d.just_released ++ updates ds))
      (λ x y b. tt)
      (Fits-keys true d.just_pressed (key_calls false d.just_released ++ updates ds) p
        (Fits-keys false d.just_released (updates ds) r (updates-Fits ds h))),
)

-- What the machine has seen of the person's frames: the scrolls, the keys, and the buttons.
pub record Driven (r : Robot) (ds : List Devices) (done : List Effect × End) : Type 0 where
  pub ends_clean : done.1 ≡ clean
  pub scrolled : turns (pointer_events r (pointers done.0)).1 ≡ turned ds
  pub keyed : key_actions (keys done.0) ≡ keys_toggled ds
  pub held :
      apply_all (pointer_events r (pointers done.0)).1 (held_in r.prev_buttons)
      ≡ held_after (held_in r.prev_buttons) ds

effects-Driven :
    (c : Client) (r : Robot) (ds : List Devices)
    → All KeysExist ds
    → Driven r ds (effects c (updates ds), clean)
effects-Driven c r ds exist = record {
  ends_clean = refl;
  scrolled =
      ap (λ ps. turns (pointer_events r ps).1) (pointers-strokes c ds)
      ∙ turns-edges r (strokes c ds)
      ∙ strokes-turned c r.prev_buttons ds;
  keyed = ap key_actions (keys-typed c ds) ∙ key_actions-typed ds exist;
  held =
      ap (λ ps. apply_all (pointer_events r ps).1 (held_in r.prev_buttons)) (pointers-strokes c ds)
      ∙ (pointer_events_hold r (strokes c ds)).0
      ∙ strokes-held c r.prev_buttons ds;
}

-- What a person does at the viewer's window reaches the host's machine: the bytes that the frames of
-- `Update` write, read by the server's loop and given to the robot, scroll once for each turn of the
-- wheel and in its direction, press and release each key that the person means and the host has, by its
-- name and in the order of the frames, and leave the mouse buttons down that the person holds. The
-- screen has a positive size, the keys exist, and the loop runs at least once for each message and for
-- the end of the stream.
pub window_drives :
    (c : Client) (envs : List Env) (s : Session) (r : Robot) (ds : List Devices)
    → HasScreen c
    → All KeysExist ds
    → length (updates ds) < length envs
    → Driven r ds (loop envs s (messages c (updates ds)))
window_drives c envs s r ds screen fit room =
    subst (Driven r ds)
      (sym (
        messages_understood c envs s (updates ds) screen (updates-Fits ds fit)
        ∙ answers-effects c envs s (updates ds) (updates-IsInput ds) room))
      (effects-Driven c r ds fit)
