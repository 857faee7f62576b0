-- ===== src/Relay/System/Waiting.antt =====
-- A viewer that waits for the host's consent is decided by the host's reply or by the timeout.
use remotedesk.Prelude.{
  ℕ, ◌≡◌, ap, ◌∙◌, refl, Bool, true, false, none, some, Bytes, set, get_elem?, get_elem?-lt,
  get_elem?-set_self,
}
use mathlib.Core.Option
use remotedesk.Wire.{ControlMsg}
use remotedesk.Relay.Change.{Pending}
use remotedesk.Relay.Consent.{received, timed_out, end_consent}
use remotedesk.Relay.Consent.Replies.{answered, received_lem}
use remotedesk.Relay.Connect.{Viewer, awaits, consented, rejected, rejected_by_host, after_consent}
use remotedesk.Relay.Control.{Draws, registered}
use remotedesk.Relay.Control.Replies.{reply_op, reply-answered}
use remotedesk.Relay.System.{
  System, Event, control_msg, wake, step, step_control, on_viewer, wake_viewer, woken,
}

-- The viewer waits on a channel that holds nothing yet, and its session waits at the host, whose loop
-- runs.
pub record Waits (sys : System) (i addr : ℕ) (session : Bytes) (ch : ℕ) : Type 0 where
  pub viewer : get_elem? sys.viewers i ≡ some (awaits addr session ch)
  pub asked : Pending sys.server addr session ch
  pub unanswered : get_elem? sys.server.results ch ≡ some none
  pub online : get_elem? sys.controls addr ≡ some registered

-- What a decision makes of the viewer.
abbrev pub decided : ℕ → Bytes → Bool → Viewer
decided addr session true = consented addr session
decided addr session false = rejected rejected_by_host

after_consent-decided :
    (addr : ℕ) (session : Bytes) (ok : Bool)
    → after_consent addr session ok ≡ decided addr session ok
unfolding after_consent
after_consent-decided addr session true = refl
after_consent-decided addr session false = refl

-- The viewer's goroutine has the answer.
abbrev pub Decided : System → ℕ → ℕ → Bytes → Bool → Type 0
Decided sys i addr session ok = get_elem? sys.viewers i ≡ some (decided addr session ok)

-- The event is possible, and decides.
abbrev pub Decides : Event → System → ℕ → ℕ → Bytes → Bool → Type 0
Decides e sys i addr session ok =
    (after : System) × (step e sys ≡ some after) × Decided after i addr session ok

timeout-Decides :
    (sys : System) (i addr : ℕ) (session : Bytes) (ch : ℕ)
    → get_elem? sys.viewers i ≡ some (awaits addr session ch)
    → Decides (wake timed_out i) sys i addr session false
unfolding step on_viewer wake_viewer woken end_consent
timeout-Decides sys i addr session ch e = (
  _,
  ap (λ v. some (on_viewer v (wake_viewer timed_out i) sys)) e,
  get_elem?-set_self sys.viewers i (after_consent addr session false)
        (get_elem?-lt sys.viewers i _ e)
      ∙ ap some (after_consent-decided addr session false),
)

receive-Decides :
    (sys : System) (i addr : ℕ) (session : Bytes) (ch : ℕ) (ok : Bool)
    → get_elem? sys.viewers i ≡ some (awaits addr session ch)
    → get_elem? sys.server.results ch ≡ some (some ok)
    → Decides (wake received i) sys i addr session ok
unfolding step on_viewer wake_viewer woken
receive-Decides sys i addr session ch ok e held = (
  _,
  ap (λ v. some (on_viewer v (wake_viewer received i) sys)) e
      ∙ ap (λ o. some (woken addr session i o sys))
          (received_lem addr session ch ok sys.server held),
  get_elem?-set_self sys.viewers i (after_consent addr session ok) (get_elem?-lt sys.viewers i _ e)
      ∙ ap some (after_consent-decided addr session ok),
)

-- A viewer that waits is never stuck: the timeout is possible and rejects it; and a reply of its host
-- is taken in, after which receiving it is possible and lets the viewer through for an accept and
-- rejects it for a reject.
pub waiting_is_decided :
    (sys : System) (i addr : ℕ) (session : Bytes) (ch : ℕ) (ok : Bool) (env : Draws)
    (msg : ControlMsg)
    → Waits sys i addr session ch
    → msg.op ≡ reply_op ok
    → msg.session ≡ session
    → Decides (wake timed_out i) sys i addr session false
      × ((replied : System) × (step (control_msg env addr msg) sys ≡ some replied)
          × Decides (wake received i) replied i addr session ok)
unfolding step step_control
waiting_is_decided sys i addr session ch ok env msg w o q =
    let s = sys.server in
    let replied : System = record sys {
      server = answered s ch ok;
      controls = set sys.controls addr registered;
    } in
    (
      timeout-Decides sys i addr session ch w.viewer,
      (
        replied,
        ap (λ c. step_control env addr msg c sys) w.online
            ∙ ap
                (Option.map
                  (λ r. record sys { server = r.0; controls = set sys.controls addr r.1 }))
                (reply-answered env addr session ok ch msg s o q w.asked w.unanswered),
        receive-Decides replied i addr session ch ok w.viewer (
            get_elem?-set_self s.results ch (some ok)
              (get_elem?-lt s.results ch none w.unanswered)),
      ),
    )
