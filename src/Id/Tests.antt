-- ===== src/Id/Tests.antt =====
-- IDs and PINs from known draws.
use remotedesk.Prelude.{ℕ, ◌≡◌, refl, none, some, codes}
use mathlib.Core.Logic.{ite}
use native.Mathlib.Decide.{dec_lt}
use remotedesk.Id.{Rand, new_id, new_pin}

-- Draws the number `v`, and fails where it is out of range.
abbrev draws : ℕ → Rand
draws v bound = ite (dec_lt v bound) (some v) none

id_in_groups : new_id (draws 314798609) ≡ some (codes "314-798-609")
unfolding new_id dec_lt
id_in_groups = refl

pin_with_zeros : new_pin (draws 58367) ≡ some (codes "058367")
unfolding new_pin dec_lt
pin_with_zeros = refl
