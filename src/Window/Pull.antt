-- ===== src/Window/Pull.antt =====
-- The pull loop: a reported update reaches the screen.
use remotedesk.Prelude.{◌≡◌, refl, ◌⊎◌, inl, true, List, [], ◌∷◌, Bytes, arith}
use remotedesk.Window.{
  Game, Event, decodes, reports, swaps, writes, step, runs, on_update, swap, write_pixels,
}

-- No part of a next update is decoded.
abbrev pub IsStill : List Event → Type 0
IsStill [] = Unit {0}
IsStill (decodes image ∷ es) = ⊥
IsStill (reports ∷ es) = IsStill es
IsStill (swaps ∷ es) = IsStill es
IsStill (writes ∷ es) = IsStill es

-- `Draw`, two times.
abbrev pub two_draws : List Event
two_draws = swaps ∷ writes ∷ swaps ∷ writes ∷ []

-- The window knows that it is to write the image, or has written it.
abbrev Owes : Bytes → Game → Type 0
Owes image g = (g.image ≡ image) × ((g.dirty ≡ true) ⊎ ((g.due ≡ true) ⊎ (g.frame ≡ image)))

swap-Owes : (image : Bytes) (g : Game) → Owes image g → Owes image (swap g)
unfolding swap
swap-Owes image g (e, h) = ground arith

write-Owes : (image : Bytes) (g : Game) → Owes image g → Owes image (write_pixels g)
unfolding write_pixels
write-Owes image g (e, h) = ground arith

runs-Owes :
    (image : Bytes) (es : List Event) (g : Game)
    → IsStill es
    → Owes image g
    → Owes image (runs es g)
unfolding runs step on_update
runs-Owes image [] g still h = h
runs-Owes image (decodes other ∷ es) g still h = absurd still
runs-Owes image (reports ∷ es) g still (e, h) = runs-Owes image es (on_update g) still (e, inl refl)
runs-Owes image (swaps ∷ es) g still h = runs-Owes image es (swap g) still (swap-Owes image g h)
runs-Owes image (writes ∷ es) g still h =
    runs-Owes image es (write_pixels g) still (write-Owes image g h)

two_draws_lem : (image : Bytes) (g : Game) → Owes image g → (runs two_draws g).frame ≡ image
unfolding runs step swap write_pixels
two_draws_lem image g (e, h) = ground arith

-- After `OnUpdate`, if no part of a next update is decoded, two runs of `Draw` leave the image of
-- that update on the screen, however the client's goroutine and the window's have interleaved.
pub window_shows :
    (g : Game) (es : List Event)
    → IsStill es
    → (runs two_draws (runs (reports ∷ es) g)).frame ≡ g.image
unfolding runs step on_update
window_shows g es still =
    two_draws_lem g.image (runs es (on_update g))
      (runs-Owes g.image es (on_update g) still (refl, inl refl))
