-- ===== src/Tray/Systray/Clicks.antt =====
-- `SystrayUI.Confirm`: whose click it answers.
use remotedesk.Prelude.{
  ℕ, ◌<◌, ◌≡◌, ◌≢◌, refl, ap, sym, ◌∙◌, Bool, true, false, not, List, [], ◌∷◌, Option, none, some,
  Bytes, length, get_elem?, get_elem?-set_self, get_elem?-set_ne, get_elem?-append_left,
  get_elem?-append_new, get_elem?-lt, bytes_eq, if_same, arith,
}
use remotedesk.Tray.Systray.{
  SystrayUi, apply_identity_locked, on_ready, set_identity, ask, offer, send, resolve,
  finish_confirm, Event, readies, finishes, identifies, clicks, begins, step, runs, outcome, await,
  confirm,
}

-- The first click, if no other session asks before it.
abbrev pub first_click : List Event → Option Bool
first_click [] = none
first_click (clicks ok ∷ es) = some ok
first_click (begins session ∷ es) = none
first_click (readies ∷ es) = first_click es
first_click (finishes ∷ es) = first_click es
first_click (identifies id pin ∷ es) = first_click es

-- A step that leaves the consent's state as it is.
abbrev Quiet : SystrayUi → SystrayUi → Type 0
Quiet s t = (t.channels ≡ s.channels) × (t.pending ≡ s.pending) × (s.ready ≡ true → t.ready ≡ true)

on_ready-Quiet : (s : SystrayUi) → Quiet s (on_ready s)
unfolding on_ready apply_identity_locked
on_ready-Quiet s =
    let known = not (bytes_eq s.id []) in
    (
      if_same known (λ (t : SystrayUi). t.channels) _ _ s.channels refl refl,
      if_same known (λ (t : SystrayUi). t.pending) _ _ s.pending refl refl,
      λ h. if_same known (λ (t : SystrayUi). t.ready) _ _ true refl refl,
    )

set_identity-Quiet : (id pin : Bytes) (s : SystrayUi) → Quiet s (set_identity id pin s)
unfolding set_identity apply_identity_locked
set_identity-Quiet id pin s = (
  if_same s.ready (λ (t : SystrayUi). t.channels) _ _ s.channels refl refl,
  if_same s.ready (λ (t : SystrayUi). t.pending) _ _ s.pending refl refl,
  λ h. if_same s.ready (λ (t : SystrayUi). t.ready) _ _ true h h,
)

finish_confirm-Quiet : (s : SystrayUi) → Quiet s (finish_confirm s)
unfolding finish_confirm
finish_confirm-Quiet s = (refl, refl, λ h. h)

-- Nothing can be sent any more to a channel that is no longer pending.
abbrev Settled : ℕ → Option Bool → SystrayUi → Type 0
Settled c v s = (get_elem? s.channels c ≡ some v) × (s.pending ≢ some c)

Quiet-Settled :
    (c : ℕ) (v : Option Bool) (s t : SystrayUi) → Quiet s t → Settled c v s → Settled c v t
Quiet-Settled c v s t (e, p, r) (h, k) = (ap (λ l. get_elem? l c) e ∙ h, λ q. k (sym p ∙ q))

send-Settled :
    (c : ℕ) (v : Option Bool) (ok : Bool) (pending : Option ℕ) (held : List (Option Bool))
    → get_elem? held c ≡ some v
    → pending ≢ some c
    → get_elem? (send pending ok held) c ≡ some v
send-Settled c v ok none held h k = h
send-Settled c v ok (some d) held h k =
    get_elem?-set_ne held d c (offer ok (get_elem? held d)) (λ e. k (ap some e)) ∙ h

ask-Settled :
    (session : Bytes) (c : ℕ) (v : Option Bool) (s : SystrayUi) (b : Bool)
    → s.ready ≡ b
    → Settled c v s
    → Settled c v (ask session s).0
unfolding ask
ask-Settled session c v s true e (h, k) =
    let below : c < length s.channels = get_elem?-lt s.channels c v h in
    rw e (
      get_elem?-append_left s.channels (none ∷ []) c below ∙ h,
      λ q. let same : length s.channels ≡ c = cc in omega arith,
    )
ask-Settled session c v s false e h = rw e h

step-Settled :
    (c : ℕ) (v : Option Bool) (e : Event) (s : SystrayUi) → Settled c v s → Settled c v (step e s)
unfolding step resolve
step-Settled c v readies s h = Quiet-Settled c v s (on_ready s) (on_ready-Quiet s) h
step-Settled c v finishes s h = Quiet-Settled c v s (finish_confirm s) (finish_confirm-Quiet s) h
step-Settled c v (identifies id pin) s h =
    Quiet-Settled c v s (set_identity id pin s) (set_identity-Quiet id pin s) h
step-Settled c v (clicks ok) s (h, k) = (send-Settled c v ok s.pending s.channels h k, λ q. cc)
step-Settled c v (begins session) s h = ask-Settled session c v s s.ready refl h

runs-Settled :
    (c : ℕ) (v : Option Bool) (es : List Event) (s : SystrayUi)
    → Settled c v s
    → get_elem? (runs es s).channels c ≡ some v
unfolding runs
runs-Settled c v [] s h = h.0
runs-Settled c v (e ∷ es) s h = runs-Settled c v es (step e s) (step-Settled c v e s h)

-- The session waits on channel `c`, to which nothing was sent.
abbrev Asked : ℕ → SystrayUi → Type 0
Asked c s = (get_elem? s.channels c ≡ some none) × (s.pending ≡ some c) × (s.ready ≡ true)

Quiet-Asked : (c : ℕ) (s t : SystrayUi) → Quiet s t → Asked c s → Asked c t
Quiet-Asked c s t (e, p, r) (h, k, l) = (ap (λ x. get_elem? x c) e ∙ h, p ∙ k, r l)

resolve-Settled :
    (c : ℕ) (ok : Bool) (s : SystrayUi) → Asked c s → Settled c (some ok) (resolve ok s)
unfolding resolve
resolve-Settled c ok s (h, k, l) = (
  ap (λ p. get_elem? (send p ok s.channels) c) k
      ∙ get_elem?-set_self s.channels c (offer ok (get_elem? s.channels c))
          (get_elem?-lt s.channels c none h)
      ∙ ap (λ x. some (offer ok x)) h,
  λ q. cc,
)

asks-Settled :
    (session : Bytes) (c : ℕ) (s : SystrayUi) → Asked c s → Settled c none (ask session s).0
unfolding ask
asks-Settled session c s (h, k, l) =
    let below : c < length s.channels = get_elem?-lt s.channels c none h in
    rw l (
      get_elem?-append_left s.channels (none ∷ []) c below ∙ h,
      λ q. let same : length s.channels ≡ c = cc in omega arith,
    )

runs-Asked :
    (c : ℕ) (es : List Event) (s : SystrayUi)
    → Asked c s
    → get_elem? (runs es s).channels c ≡ some (first_click es)
unfolding runs step
runs-Asked c [] s h = h.0
runs-Asked c (readies ∷ es) s h =
    runs-Asked c es (on_ready s) (Quiet-Asked c s (on_ready s) (on_ready-Quiet s) h)
runs-Asked c (finishes ∷ es) s h =
    runs-Asked c es (finish_confirm s)
      (Quiet-Asked c s (finish_confirm s) (finish_confirm-Quiet s) h)
runs-Asked c (identifies id pin ∷ es) s h =
    runs-Asked c es (set_identity id pin s)
      (Quiet-Asked c s (set_identity id pin s) (set_identity-Quiet id pin s) h)
runs-Asked c (clicks ok ∷ es) s h =
    runs-Settled c (some ok) es (resolve ok s) (resolve-Settled c ok s h)
runs-Asked c (begins session ∷ es) s h =
    runs-Settled c none es (ask session s).0 (asks-Settled session c s h)

-- What the clicks that come during the wait decide.
abbrev pub decided : Bool → Bool → Option Bool → Bool
decided true false (some ok) = ok
decided ready timed_out click = false

outcome-decided :
    (timed_out : Bool) (click : Option Bool)
    → outcome timed_out (some click) ≡ decided true timed_out click
outcome-decided true (some ok) = refl
outcome-decided true none = refl
outcome-decided false (some ok) = refl
outcome-decided false none = refl

ask_channel :
    (session : Bytes) (s : SystrayUi)
    → s.ready ≡ true
    → (ask session s).1 ≡ some (length s.channels)
unfolding ask
ask_channel session s e = rw e refl

ask_refused : (session : Bytes) (s : SystrayUi) → s.ready ≡ false → (ask session s).1 ≡ none
unfolding ask
ask_refused session s e = rw e refl

ask-Asked :
    (session : Bytes) (s : SystrayUi) → s.ready ≡ true → Asked (length s.channels) (ask session s).0
unfolding ask
ask-Asked session s e = rw e (get_elem?-append_new s.channels none, refl, refl)

-- The answer to a session is the first click on Accept or Reject while it waits, before any other
-- session asks. It is a refusal if there is no such click, at the timeout, and where the tray has
-- not come up.
pub confirm-clicks :
    (session : Bytes) (meanwhile : List Event) (timed_out : Bool) (s : SystrayUi)
    → (confirm session meanwhile timed_out s).1 ≡ decided s.ready timed_out (first_click meanwhile)
unfolding confirm
confirm-clicks session meanwhile timed_out s = by_ready s.ready refl
  where
    now : SystrayUi
    now = (ask session s).0

    by_ready :
        (b : Bool)
        → s.ready ≡ b
        → (confirm session meanwhile timed_out s).1 ≡ decided b timed_out (first_click meanwhile)
    by_ready true e =
        ap (λ c. (await timed_out (runs meanwhile now) c).1) (ask_channel session s e)
        ∙ ap (outcome timed_out)
            (runs-Asked (length s.channels) meanwhile now (ask-Asked session s e))
        ∙ outcome-decided timed_out (first_click meanwhile)
    by_ready false e =
        ap (λ c. (await timed_out (runs meanwhile now) c).1) (ask_refused session s e)
