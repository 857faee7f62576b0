-- ===== src/Tray/Systray/Titles.antt =====
-- The identity that the menu shows.
use remotedesk.Prelude.{
  ◌≡◌, refl, ap, sym, ◌∙◌, ◌≢◌, Bool, true, false, not, List, [], ◌∷◌, ◌++◌, Option, none, some,
  Bytes, codes, bytes_eq, bytes_eq_iff, if_same, length, ℕ,
}
use remotedesk.Tray.Systray.{
  SystrayUi, asked, apply_identity_locked, on_ready, set_identity, ask, resolve, finish_confirm,
  Event, readies, finishes, identifies, clicks, begins, step, runs, new_systray,
}

-- The identity last set, and whether the tray has come up.
abbrev pub last_identity : Bytes × Bytes → List Event → Bytes × Bytes
last_identity now [] = now
last_identity now (identifies id pin ∷ es) = last_identity (id, pin) es
last_identity now (readies ∷ es) = last_identity now es
last_identity now (finishes ∷ es) = last_identity now es
last_identity now (clicks ok ∷ es) = last_identity now es
last_identity now (begins session ∷ es) = last_identity now es

abbrev pub came_up : Bool → List Event → Bool
came_up now [] = now
came_up now (readies ∷ es) = came_up true es
came_up now (finishes ∷ es) = came_up now es
came_up now (identifies id pin ∷ es) = came_up now es
came_up now (clicks ok ∷ es) = came_up now es
came_up now (begins session ∷ es) = came_up now es

abbrev pub Shows : SystrayUi → Bytes → Bytes → Type 0
Shows s id pin = (s.id_item ≡ codes "ID:  " ++ id) × (s.pin_item ≡ codes "PIN: " ++ pin)

-- The UI has the identity, and shows it once it is up.
abbrev Tells : Bytes × Bytes → Bool → SystrayUi → Type 0
Tells (id, pin) up s =
    (s.id ≡ id) × (s.pin ≡ pin) × (s.ready ≡ up) × (up ≡ true → id ≢ [] → Shows s id pin)

apply-Shows : (s : SystrayUi) → Shows (apply_identity_locked s) s.id s.pin
unfolding apply_identity_locked
apply-Shows s = (refl, refl)

on_ready-Tells :
    (now : Bytes × Bytes) (up : Bool) (s : SystrayUi) → Tells now up s → Tells now true (on_ready s)
unfolding on_ready apply_identity_locked
on_ready-Tells (id, pin) up s (p, q, r, h) = by_id (bytes_eq s.id []) refl
  where
    by_id : (b : Bool) → bytes_eq s.id [] ≡ b → Tells (id, pin) true (on_ready s)
    by_id true e = rw e (p, q, refl, λ u n. absurd (n (sym p ∙ (bytes_eq_iff s.id []).0 e)))
    by_id false e = rw e (p, q, refl, λ u n. (ap (codes "ID:  " ++◌) p, ap (codes "PIN: " ++◌) q))

set_identity-Tells :
    (now : Bytes × Bytes) (up : Bool) (id pin : Bytes) (s : SystrayUi)
    → Tells now up s
    → Tells (id, pin) up (set_identity id pin s)
unfolding set_identity apply_identity_locked
set_identity-Tells now true id pin s (p, q, r, h) = rw r (refl, refl, refl, λ u n. (refl, refl))
set_identity-Tells now false id pin s (p, q, r, h) = rw r (refl, refl, refl, λ u n. cc)

-- A session that asks leaves the titles of the identity.
abbrev Same : SystrayUi → SystrayUi → Type 0
Same s t =
    (t.id ≡ s.id)
    × (t.pin ≡ s.pin)
    × (t.ready ≡ s.ready)
    × (t.id_item ≡ s.id_item)
    × (t.pin_item ≡ s.pin_item)

ask-Same : (session : Bytes) (s : SystrayUi) → Same s (ask session s).0
unfolding ask
ask-Same session s = (
  same (λ t. t.id) refl,
  same (λ t. t.pin) refl,
  same (λ t. t.ready) refl,
  same (λ t. t.id_item) refl,
  same (λ t. t.pin_item) refl,
)
  where
    same : {A : Type 0} (f : SystrayUi → A) → f (asked session s) ≡ f s → f (ask session s).0 ≡ f s
    same f h =
        if_same (not s.ready) (λ (p : SystrayUi × Option ℕ). f p.0) (s, none)
          (asked session s, some (length s.channels)) (f s) refl h

Same-Tells :
    (now : Bytes × Bytes) (up : Bool) (s t : SystrayUi) → Same s t → Tells now up s → Tells now up t
Same-Tells (id, pin) up s t (a, b, c, d, e) (p, q, r, h) =
    (a ∙ p, b ∙ q, c ∙ r, λ u n. (d ∙ (h u n).0, e ∙ (h u n).1))

runs-Tells :
    (es : List Event) (now : Bytes × Bytes) (up : Bool) (s : SystrayUi)
    → Tells now up s
    → Tells (last_identity now es) (came_up up es) (runs es s)
unfolding runs step resolve finish_confirm
runs-Tells [] now up s h = h
runs-Tells (readies ∷ es) now up s h =
    runs-Tells es now true (on_ready s) (on_ready-Tells now up s h)
runs-Tells (finishes ∷ es) now up s h = runs-Tells es now up (finish_confirm s) h
runs-Tells (identifies id pin ∷ es) now up s h =
    runs-Tells es (id, pin) up (set_identity id pin s) (set_identity-Tells now up id pin s h)
runs-Tells (clicks ok ∷ es) now up s h = runs-Tells es now up (resolve ok s) h
runs-Tells (begins session ∷ es) now up s h =
    runs-Tells es now up (ask session s).0
      (Same-Tells now up s (ask session s).0 (ask-Same session s) h)

-- Once the tray has come up, and whatever happens before and after, its menu shows the ID and the
-- PIN that were set last, if that ID is not empty.
pub runs-Shows :
    (es : List Event)
    → came_up false es ≡ true
    → (last_identity ([], []) es).0 ≢ []
    → Shows (runs es new_systray) (last_identity ([], []) es).0 (last_identity ([], []) es).1
runs-Shows es up h = (runs-Tells es ([], []) false new_systray (refl, refl, refl, λ u n. cc)).3 up h
