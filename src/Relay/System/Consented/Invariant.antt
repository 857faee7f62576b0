-- ===== src/Relay/System/Consented/Invariant.antt =====
-- Every step of the relay keeps the invariant, so no viewer is bridged without consent.
use remotedesk.Prelude.{
  ℕ, ◌≡◌, refl, sym, subst, inl, inr, Bool, true, false, List, [], ◌∷◌, Option, none, some, Bytes,
  get_elem?, length, set, get_elem?-set_back, IfSome, IfSome-some,
}
use remotedesk.Relay.{Server, Limits}
use remotedesk.Relay.Change.{Calm-refl}
use remotedesk.Relay.Consent.{Wake, end_consent}
use remotedesk.Relay.Consent.Answers.{Woken, end_consent-Woken}
use remotedesk.Relay.Connect.{
  Viewer, awaits, consented, bridged, serve_connect, after_consent, open_bridge,
}
use remotedesk.Relay.Connect.Answers.{serve_connect-Requested}
use remotedesk.Relay.System.{
  System, Event, dial_control, control_msg, hang_up, dial_connect, wake, splice, step, on_viewer,
  wake_viewer, woken, splice_viewer, Reach, start, next, boot,
}
use remotedesk.Relay.System.Consented.{IsAccept, Happened, Agreed}
use remotedesk.Relay.System.Consented.Steps.{Enters, Moved, change-IsConsented}
use remotedesk.Relay.System.Consented.Requests.{
  Consented, Calm-Consented, dial-Calm, step_control-Consented, step_hang_up-Consented,
  request-Consented,
}

-- A viewer that takes another state in its place.
moves :
    (past : List Event) (n i : ℕ) (viewers : List Viewer) (new : Viewer)
    → Enters past none n new
    → Moved past none n viewers (set viewers i new)
moves past n i viewers new h j v found = elim (get_elem?-set_back viewers i new j v found) [
  | inl old ↦ inl old
  | inr (_, same) ↦ inr (subst (Enters past none n) (sym same) h)
]

after_consent-Enters :
    (past : List Event) (e : Event) (n addr : ℕ) (session : Bytes) (ok : Bool)
    → (ok ≡ true → Happened (IsAccept addr session) past)
    → Enters (e ∷ past) none n (after_consent addr session ok)
unfolding after_consent
after_consent-Enters past e n addr session true h = inr (inr (h refl))
after_consent-Enters past e n addr session false h = tt

woken-Consented :
    {past : List Event} (e : Event) (addr : ℕ) (session : Bytes) (ch i : ℕ)
    (o : Option (Server × Bool)) (sys : System)
    → Consented past sys
    → get_elem? sys.viewers i ≡ some (awaits addr session ch)
    → IfSome (Woken ch sys.server) o
    → Consented (e ∷ past) (woken addr session i o sys)
unfolding woken
woken-Consented e addr session ch i none sys v found h = Calm-Consented e v (Calm-refl sys.server)
woken-Consented {past} e addr session ch i (some (t, ok)) sys v found (c, yes') =
    change-IsConsented sys.viewers _ e none none none v c tt tt
      (moves (e ∷ past) (length sys.server.results) i sys.viewers (after_consent addr session ok) (
        after_consent-Enters past e (length sys.server.results) addr session ok
          (λ said. v.answer_for i addr ch session found (yes' said))))
      (λ a q k h. absurd h)

wake-Consented :
    {past : List Event} (w : Wake) (i : ℕ) (viewer : Option Viewer) (sys : System)
    → Consented past sys
    → get_elem? sys.viewers i ≡ viewer
    → Consented (wake w i ∷ past) (on_viewer viewer (wake_viewer w i) sys)
unfolding on_viewer wake_viewer
wake-Consented w i none sys v found = Calm-Consented (wake w i) v (Calm-refl sys.server)
wake-Consented w i (some (awaits addr session ch)) sys v found =
    woken-Consented (wake w i) addr session ch i (end_consent w addr session ch sys.server) sys v
      found (end_consent-Woken w addr session ch sys.server)
wake-Consented w i (some viewer) sys v found = Calm-Consented (wake w i) v (Calm-refl sys.server)

open_bridge-Enters :
    (past : List Event) (e : Event) (n addr : ℕ) (session : Bytes) (accepted opened : Bool)
    → Agreed past addr session
    → Enters (e ∷ past) none n (open_bridge accepted opened addr session)
unfolding open_bridge
open_bridge-Enters past e n addr session false opened h = tt
open_bridge-Enters past e n addr session true false h = tt
open_bridge-Enters past e n addr session true true (inl h) = inl (inr h)
open_bridge-Enters past e n addr session true true (inr h) = inr (inr h)

splice-Consented :
    {past : List Event} (accepted opened : Bool) (i : ℕ) (viewer : Option Viewer) (sys : System)
    → Consented past sys
    → get_elem? sys.viewers i ≡ viewer
    → Consented
        (splice accepted opened i ∷ past)
        (on_viewer viewer (splice_viewer accepted opened i) sys)
unfolding on_viewer splice_viewer
splice-Consented accepted opened i none sys v found =
    Calm-Consented (splice accepted opened i) v (Calm-refl sys.server)
splice-Consented {past} accepted opened i (some (consented addr session)) sys v found =
    let e = splice accepted opened i in
    change-IsConsented sys.viewers _ e none none none v (Calm-refl sys.server) tt tt
      (moves (e ∷ past) (length sys.server.results) i sys.viewers
        (open_bridge accepted opened addr session)
        (open_bridge-Enters past e (length sys.server.results) addr session accepted opened
          (v.justified i (consented addr session) found)))
      (λ a q k h. absurd h)
splice-Consented accepted opened i (some viewer) sys v found =
    Calm-Consented (splice accepted opened i) v (Calm-refl sys.server)

step-Consented :
    {past : List Event} (e : Event) (sys : System)
    → Consented past sys
    → IfSome (Consented (e ∷ past)) (step e sys)
unfolding step
step-Consented (dial_control fp) sys v =
    Calm-Consented (dial_control fp) v (dial-Calm fp sys.server)
step-Consented (control_msg env addr msg) sys v =
    step_control-Consented env addr msg (get_elem? sys.controls addr) sys v
step-Consented (hang_up addr) sys v =
    step_hang_up-Consented addr (get_elem? sys.controls addr) sys v
step-Consented (dial_connect env req) sys v =
    request-Consented (dial_connect env req) sys (serve_connect env req sys.server) v
      (serve_connect-Requested env req sys.server)
step-Consented (wake w i) sys v = wake-Consented w i (get_elem? sys.viewers i) sys v refl
step-Consented (splice accepted opened i) sys v =
    splice-Consented accepted opened i (get_elem? sys.viewers i) sys v refl

boot-Consented : (limits : Limits) → Consented [] (boot limits)
boot-Consented limits = record {
  has_room = λ addr session ch (reg, found, w). cc;
  owner = λ addr session ch i a q p w. cc;
  waits_room = λ i a ch q w. cc;
  answer_for = λ i a ch q w h. cc;
  mode_said = λ addr (reg, found, mode). cc;
  justified = λ i v found. cc;
}

Reach-Consented :
    {limits : Limits} {past : List Event} {sys : System}
    → Reach limits past sys
    → Consented past sys
Reach-Consented {limits} start = boot-Consented limits
Reach-Consented (next {sys = before} {after = done} e r taken) =
    IfSome-some (Consented _) (step e before) done (step-Consented e before (Reach-Consented r))
      taken

-- In every interleaving: a viewer's channel is spliced to a host only if that host registered as
-- unattended, or sent an accept for that viewer's session.
pub bridged-Agreed :
    {limits : Limits} {past : List Event} {sys : System} (i addr : ℕ) (session : Bytes)
    → Reach limits past sys
    → get_elem? sys.viewers i ≡ some (bridged addr session)
    → Agreed past addr session
bridged-Agreed i addr session r found = (Reach-Consented r).justified i (bridged addr session) found
