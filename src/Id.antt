-- ===== src/Id.antt =====
-- internal/id/id.go: connection IDs and PINs from random digits.
-- `rand.Int(rand.Reader, max)` is the parameter `rand`: `none` where it reports an error, on which
-- `randDigits` panics. A panic of the model is `none` too.
use remotedesk.Prelude.{
  ℕ, zero, suc, ◌+◌, ◌-◌, ◌*◌, ◌/◌, ◌%◌, ◌<◌, ◌≡◌, List, [], ◌∷◌, ◌++◌, Option, none, some, Bytes,
  length, replicate, slice, ltb, if◌then◌else◌,
}
use mathlib.Core.Option
pub mod Digits
pub mod Format
mod Tests

-- What `rand.Int` gives for an upper bound.
abbrev pub Rand : Type 0
Rand = ℕ → Option ℕ

-- The documented contract of `rand.Int`: a number from 0 up to, and not including, the bound.
abbrev pub IsInRange : Rand → Type 0
IsInRange rand = (bound v : ℕ) → rand bound ≡ some v → v < bound

-- The decimal digits that `%d` prints, the highest first. `suc v` rounds are enough for `v`.
unfoldable pub decimal_loop : ℕ → ℕ → Bytes
decimal_loop zero v = []
decimal_loop (suc fuel) v =
    let rest = decimal_loop fuel (v / 10) in
    if ltb v 10 then (b'0' + v) ∷ [] else rest ++ ((b'0' + v % 10) ∷ [])

unfoldable pub decimal : ℕ → Bytes
decimal v = decimal_loop (suc v) v

-- The padding of the verb `%0*d`.
pub zero_pad : ℕ → Bytes → Bytes
zero_pad n s = replicate (n - length s) b'0' ++ s

-- `max := 1; for i := 0; i < n; i++ { max *= 10 }`
pub bound_loop : ℕ → ℕ → ℕ
bound_loop zero bound = bound
bound_loop (suc n) bound = bound_loop n (bound * 10)

pub rand_digits : Rand → ℕ → Option Bytes
unfolding bound_loop zero_pad decimal decimal_loop
rand_digits rand n = Option.map (λ v. zero_pad n (decimal v)) (rand (bound_loop n 1))

abbrev pub group : Bytes → Bytes
group n = slice 0 3 n ++ (b'-' ∷ (slice 3 6 n ++ (b'-' ∷ slice 6 9 n)))

unfoldable pub new_id : Rand → Option Bytes
unfolding rand_digits
new_id rand = Option.map group (rand_digits rand 9)

unfoldable pub new_pin : Rand → Option Bytes
unfolding rand_digits
new_pin rand = rand_digits rand 6
