-- ===== src/Relay/Auth/Rate.antt =====
-- How fast PINs can be guessed.
use remotedesk.Prelude.{
  ℕ, zero, suc, ◌+◌, ◌-◌, ◌*◌, ◌/◌, ◌≤◌, ◌<◌, ◌≡◌, ◌≢◌, refl, inl, inr, ◌∙◌, Bool, true, false,
  List, [], ◌∷◌, Bytes, max, arith,
}
use remotedesk.Relay.{Limits, HostReg}
use remotedesk.Relay.Auth.{AuthResult, auth_ok, auth_bad_pin, auth_locked, Attempt, attempt_all}
use remotedesk.Relay.Auth.Decision.{wrong_pin_cases}

-- The attempts come one after the other, none before `start` and none after `end`.
abbrev pub Timed : ℕ → ℕ → List Attempt → Type 0
Timed start end [] = Unit {0}
Timed start end (a ∷ rest) =
    (start ≤ a.now) × (a.now ≤ a.trip) × (a.now ≤ end) × Timed a.trip end rest

-- No attempt has the PIN.
abbrev pub AllWrong : Bytes → List Attempt → Type 0
AllWrong pin [] = Unit {0}
AllWrong pin (a ∷ rest) = (a.pin ≢ pin) × AllWrong pin rest

-- How many attempts were compared with the PIN, and not refused under a lock.
abbrev pub guesses : List (AuthResult × Bool) → ℕ
guesses [] = 0
guesses ((auth_locked, false) ∷ rest) = guesses rest
guesses ((auth_locked, true) ∷ rest) = suc (guesses rest)
guesses ((auth_ok, b) ∷ rest) = suc (guesses rest)
guesses ((auth_bad_pin, b) ∷ rest) = suc (guesses rest)

-- Induction on the attempts: `n` lockouts at most end in time, counted from the earliest moment at
-- which the next attempt can be compared.
guesses_bound :
    (s : Limits) (pin : Bytes) (n start end : ℕ) (reg : HostReg) (tries : List Attempt)
    → reg.pin ≡ pin
    → reg.failures < s.max_pin_attempts
    → reg.failures ≤ s.max_pin_attempts * n
    → end < max start reg.lock_until + n * s.lockout
    → Timed start end tries
    → AllWrong pin tries
    → guesses (attempt_all s reg tries).1 + reg.failures ≤ s.max_pin_attempts * n
unfolding attempt_all
guesses_bound s pin n start end reg [] hp hf hn he ht hw = omega arith
guesses_bound s pin zero start end reg (a ∷ rest) hp hf hn he ht hw =
    elim (wrong_pin_cases s a.now a.trip reg a.pin (λ e. hw.0 (e ∙ hp))) [
      | inl (locked, e) ↦
          rw e (guesses_bound s pin 0 a.trip end reg rest hp hf hn (omega arith) ht.3 hw.1)
      | inr (inl (open_now, few, e)) ↦ absurd (omega arith)
      | inr (inr (open_now, many, e)) ↦ absurd (omega arith)
    ]
guesses_bound s pin (suc n) start end reg (a ∷ rest) hp hf hn he ht hw =
    elim (wrong_pin_cases s a.now a.trip reg a.pin (λ e. hw.0 (e ∙ hp))) [
      | inl (locked, e) ↦
          rw e (guesses_bound s pin (suc n) a.trip end reg rest hp hf hn (omega arith) ht.3 hw.1)
      | inr (inl (open_now, few, e)) ↦
          let counted : HostReg = record reg { failures = reg.failures + 1 } in
          rw e (
            omega (
              arith,
              guesses_bound s pin (suc n) a.trip end counted rest hp few (omega arith) (omega arith)
                  ht.3 hw.1,
            ))
      | inr (inr (open_now, many, e)) ↦
          let tripped : HostReg = record reg { failures = 0; lock_until = a.trip + s.lockout } in
          rw e (
            omega (
              arith,
              guesses_bound s pin n a.trip end tripped rest hp (omega arith) (omega arith)
                  (omega arith) ht.3 hw.1,
            ))
    ]

in_period : (d l : ℕ) → 0 < l → d < (d / l + 1) * l
in_period d l h = grind arith

-- A guesser who never sends the right PIN gets at most `max_pin_attempts` comparisons for each
-- lockout period that begins between `start` and `end`, however many attempts are made and whatever
-- PINs they carry; the host starts with no failures counted.
pub guesses-le :
    (s : Limits) (start end : ℕ) (reg : HostReg) (tries : List Attempt)
    → 0 < s.max_pin_attempts
    → 0 < s.lockout
    → reg.failures ≡ 0
    → start ≤ end
    → Timed start end tries
    → AllWrong reg.pin tries
    → guesses (attempt_all s reg tries).1 ≤ s.max_pin_attempts * ((end - start) / s.lockout + 1)
guesses-le s start end reg tries hm hl hf he ht hw =
    let n = (end - start) / s.lockout + 1 in
    omega (
      arith,
      guesses_bound s reg.pin n start end reg tries refl (omega arith) (omega arith)
          (omega (arith, in_period (end - start) s.lockout hl)) ht hw,
    )
