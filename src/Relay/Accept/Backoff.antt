-- ===== src/Relay/Accept/Backoff.antt =====
-- How long the loop sleeps after transient errors.
use remotedesk.Prelude.{
  ℕ, zero, suc, ◌*◌, ◌^◌, ◌≤◌, ◌≡◌, refl, ◌∙◌, ap, List, [], ◌∷◌, min, replicate, arith,
}
use mathlib.Core.Path.{ap₂}
use native.Mathlib.Nat.{pow-suc}
use remotedesk.Relay.{Limits, second}
use remotedesk.Relay.Accept.{
  Arrival, accepted, failed, Acceptor, Action, sleeps, accept_step, serve, backoff, millisecond,
}

-- The sleep after `n` failures in a row that came before it.
abbrev pub delay : ℕ → ℕ
delay n = min (5 * millisecond * 2 ^ n) second

-- `n` sleeps, from the one after `k` failures on.
abbrev pub delays : ℕ → ℕ → List Action
delays k zero = []
delays k (suc n) = sleeps (delay k) ∷ delays (suc k) n

pow-pos : (n : ℕ) → 1 ≤ 2 ^ n
pow-pos zero = omega arith
pow-pos (suc n) = omega (arith, pow-suc 2 n, pow-pos n)

backoff-delay : (k : ℕ) → backoff (delay k) ≡ delay (suc k)
unfolding backoff
backoff-delay k = ground (arith, pow-suc 2 k, pow-pos k)

first_backoff : backoff 0 ≡ delay 0
unfolding backoff
first_backoff = refl

serve-failed :
    (s : Limits) (st : Acceptor) (rest : List Arrival)
    → serve s st (failed ∷ rest) ≡ (
      (serve s (record st { temp_delay = backoff st.temp_delay }) rest).0,
      sleeps (backoff st.temp_delay)
          ∷ (serve s (record st { temp_delay = backoff st.temp_delay }) rest).1,
    )
unfolding serve accept_step
serve-failed s st rest = refl

serve-accepted :
    (s : Limits) (st : Acceptor) (rest : List Arrival)
    → (serve s st (accepted ∷ rest)).1
      ≡ (accept_step s accepted st).1 ∷ (serve s (accept_step s accepted st).0 rest).1
unfolding serve
serve-accepted s st rest = refl

accepted_resets : (s : Limits) (st : Acceptor) → (accept_step s accepted st).0.temp_delay ≡ 0
unfolding accept_step
accepted_resets s st = ground arith

serve-delays :
    (s : Limits) (n k : ℕ) (st : Acceptor)
    → backoff st.temp_delay ≡ delay k
    → (serve s st (replicate n failed)).1 ≡ delays k n
serve-delays s zero k st h = unfold serve in refl
serve-delays s (suc n) k st h =
    ap (λ p. p.1) (serve-failed s st (replicate n failed))
    ∙ ap₂ (λ d l. sleeps d ∷ l) h
        (serve-delays s n (suc k) (record st { temp_delay = backoff st.temp_delay })
          (ap backoff h ∙ backoff-delay k))

-- From any state: a connection resets the backoff, and the failures in a row after it sleep 5 ms,
-- 10 ms, 20 ms and so on, capped at one second.
pub serve_backoff :
    (s : Limits) (st : Acceptor) (n : ℕ)
    → (serve s st (accepted ∷ replicate n failed)).1 ≡ (accept_step s accepted st).1 ∷ delays 0 n
serve_backoff s st n =
    let st' = (accept_step s accepted st).0 in
    serve-accepted s st (replicate n failed)
    ∙ ap (◌∷◌ (accept_step s accepted st).1)
        (serve-delays s n 0 st' (ap backoff (accepted_resets s st) ∙ first_backoff))
