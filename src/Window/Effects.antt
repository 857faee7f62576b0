-- ===== src/Window/Effects.antt =====
-- What the server makes of calls that send input.
use remotedesk.Prelude.{ℕ, ◌<◌, ◌≡◌, refl, Bool, List, [], ◌∷◌, ◌++◌, All, length, arith}
use remotedesk.Input.Buttons.{Pointer}
use remotedesk.Input.Keys.{keysym}
use remotedesk.Rfb.Session.{
  Session, Env, Effect, key_event, sends, sleeps, clean, prepend, continue,
}
use remotedesk.RfbClient.{Client}
use remotedesk.RfbClient.Dialogue.{
  Call, set_pixel_format, set_encodings, request_update, send_pointer, send_key, nearest, answers,
}

-- The pointer events and the key events among the effects of the server.
abbrev pub pointers : List Effect → List Pointer
pointers [] = []
pointers (Effect.pointer_event x y buttons ∷ rest) =
    record { x = x; y = y; buttons = buttons } ∷ pointers rest
pointers (key_event k is_down ∷ rest) = pointers rest
pointers (sends bytes ∷ rest) = pointers rest
pointers (sleeps t ∷ rest) = pointers rest

abbrev pub keys : List Effect → List (ℕ × Bool)
keys [] = []
keys (key_event k is_down ∷ rest) = (k, is_down) ∷ keys rest
keys (Effect.pointer_event x y buttons ∷ rest) = keys rest
keys (sends bytes ∷ rest) = keys rest
keys (sleeps t ∷ rest) = keys rest

-- The effects of calls that send input.
abbrev pub effects : Client → List Call → List Effect
effects c [] = []
effects c (send_pointer x y buttons ∷ calls) =
    Effect.pointer_event (nearest x c.width) (nearest y c.height) buttons ∷ effects c calls
effects c (send_key k is_down ∷ calls) = key_event k is_down ∷ effects c calls
effects c (set_pixel_format ∷ calls) = effects c calls
effects c (set_encodings es ∷ calls) = effects c calls
effects c (request_update i ∷ calls) = effects c calls

abbrev pub IsInput : Call → Type 0
IsInput (send_pointer x y buttons) = Unit {0}
IsInput (send_key k is_down) = Unit {0}
IsInput call = ⊥

effects-append :
    (c : Client) (xs ys : List Call) → effects c (xs ++ ys) ≡ effects c xs ++ effects c ys
effects-append c [] ys = refl
effects-append c (send_pointer x y buttons ∷ xs) ys = rw (effects-append c xs ys) refl
effects-append c (send_key k is_down ∷ xs) ys = rw (effects-append c xs ys) refl
effects-append c (set_pixel_format ∷ xs) ys = effects-append c xs ys
effects-append c (set_encodings es ∷ xs) ys = effects-append c xs ys
effects-append c (request_update i ∷ xs) ys = effects-append c xs ys

pub answers-effects :
    (c : Client) (envs : List Env) (s : Session) (calls : List Call)
    → All IsInput calls
    → length calls < length envs
    → answers c envs s calls ≡ (effects c calls, clean)
unfolding continue prepend
answers-effects c [] s calls h k = absurd (omega arith)
answers-effects c (env ∷ envs) s [] h k = refl
answers-effects c (env ∷ envs) s (send_pointer x y buttons ∷ calls) (h, hs) k =
    rw (answers-effects c envs s calls hs (omega arith)) refl
answers-effects c (env ∷ envs) s (send_key keysym is_down ∷ calls) (h, hs) k =
    rw (answers-effects c envs s calls hs (omega arith)) refl
answers-effects c (env ∷ envs) s (set_pixel_format ∷ calls) (h, hs) k = absurd h
answers-effects c (env ∷ envs) s (set_encodings es ∷ calls) (h, hs) k = absurd h
answers-effects c (env ∷ envs) s (request_update i ∷ calls) (h, hs) k = absurd h
