-- ===== src/Host/Backoff.antt =====
-- How long the host sleeps between failed connections.
use remotedesk.Prelude.{
  ℕ, zero, suc, ◌+◌, ◌*◌, ◌^◌, ◌≡◌, ap, ◌∙◌, Bool, true, false, List, [], ◌∷◌, ◌++◌, min, replicate,
  arith,
}
use native.Mathlib.Nat.{pow-suc}
use remotedesk.Host.{Action, sleeps, serves, serve_with_reconnect, min_backoff, max_backoff}

-- The sleep after `k` failures in a row that came before it.
abbrev pub delay : ℕ → ℕ
delay k = min (min_backoff * 2 ^ k) max_backoff

abbrev pub delays : ℕ → ℕ → List Action
delays k zero = []
delays k (suc n) = sleeps (delay k) ∷ delays (suc k) n

-- Whatever comes after `n` failures in a row, the sleeps between them double up to 30 seconds.
failures_delay :
    (n k : ℕ) (rest : List Bool)
    → serve_with_reconnect (delay k) (replicate n false ++ rest)
      ≡ delays k n ++ serve_with_reconnect (delay (k + n)) rest
unfolding serve_with_reconnect
failures_delay zero k rest = ap (λ j. serve_with_reconnect (delay j) rest) (omega arith)
failures_delay (suc n) k rest =
    let next : min (delay k * 2) max_backoff ≡ delay (suc k) = omega (arith, pow-suc 2 k) in
    ap (λ d. sleeps (delay k) ∷ serve_with_reconnect d (replicate n false ++ rest)) next
    ∙ ap (◌∷◌ (sleeps (delay k))) (failures_delay n (suc k) rest)
    ∙ ap (λ j. sleeps (delay k) ∷ (delays (suc k) n ++ serve_with_reconnect (delay j) rest))
        (omega arith)

-- From any backoff: a connection that is made resets it, and each of the next `n` failures in a row
-- sleeps 1 s, 2 s, 4 s and so on, capped at 30 s; then the loop goes on.
pub reconnect_backoff :
    (backoff n : ℕ) (rest : List Bool)
    → serve_with_reconnect backoff (true ∷ (replicate n false ++ rest))
      ≡ serves ∷ (delays 0 n ++ serve_with_reconnect (delay n) rest)
unfolding serve_with_reconnect
reconnect_backoff backoff n rest = ap (◌∷◌ serves) (
    failures_delay n 0 rest
    ∙ ap (λ j. delays 0 n ++ serve_with_reconnect (delay j) rest) (omega arith))
