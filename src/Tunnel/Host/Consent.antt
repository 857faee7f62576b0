-- ===== src/Tunnel/Host/Consent.antt =====
-- The host's loop and the relay together: a viewer that is let through had the user's consent.
use remotedesk.Prelude.{
  ℕ, ◌≡◌, ◌≢◌, refl, ap, sym, subst, ◌∙◌, ◌⊎◌, inl, inr, Bool, true, false, ◌||◌, not, List, [],
  ◌∷◌, map, some, Bytes, Any, All, get_elem?, if◌then◌else◌,
}
use remotedesk.Wire.{ControlMsg, Op}
use remotedesk.Relay.{Limits}
use remotedesk.Relay.Connect.{bridged}
use remotedesk.Relay.System.{
  System, Event, dial_control, control_msg, hang_up, dial_connect, wake, splice, Reach,
}
use remotedesk.Relay.System.Consented.{IsAccept, IsOpening, Happened}
use remotedesk.Relay.System.Consented.Invariant.{bridged-Agreed}
use remotedesk.Tunnel.Host.{HostConfig, Input, register_msg, serve}
use remotedesk.Tunnel.Host.Replies.{replied, is_incoming, requests, grants, answer, serve-replies}

-- The host sends a message: its registration, or a reply of its loop.
abbrev pub Sends : HostConfig → List Input → ControlMsg → Type 0
Sends cfg inputs msg = (msg ≡ register_msg cfg) ⊎ Any (λ m. msg ≡ m) (replied (serve cfg inputs))

-- What the relay read on the connection `addr`, this host sent.
abbrev pub FromHost : ℕ → HostConfig → List Input → Event → Type 0
FromHost addr cfg inputs (control_msg env a msg) = a ≡ addr → Sends cfg inputs msg
FromHost addr cfg inputs e = Unit {0}

-- The host was asked for the session, and its user said yes.
abbrev pub SaysYes : Bytes → Input → Type 0
SaysYes session i = (is_incoming i.msg.op ≡ true) × (i.msg.session ≡ session) × (i.says ≡ true)

-- The host asks nobody.
abbrev pub AsksNobody : HostConfig → Type 0
AsksNobody cfg = (cfg.unattended ≡ true) ⊎ (cfg.has_prompt ≡ false)

abbrev pub Allowed : HostConfig → List Input → Bytes → Type 0
Allowed cfg inputs session = AsksNobody cfg ⊎ Any (SaysYes session) inputs

Happened-at :
    {P Q R : Event → Type 0} (past : List Event)
    → ((e : Event) → P e → Q e → R e)
    → All Q past
    → Happened P past
    → Happened R past
Happened-at [] f q h = absurd h
Happened-at (e ∷ past) f (q, qs) (inl h) = inl (f e h q)
Happened-at (e ∷ past) f (q, qs) (inr h) = inr (Happened-at past f qs h)

always : {A : Type 0} (past : List Event) → Happened (λ e. A) past → A
always [] h = absurd h
always (e ∷ past) (inl a) = a
always (e ∷ past) (inr h) = always past h

-- A reply is the answer to a request that came in.
reply_of :
    (cfg : HostConfig) (msg : ControlMsg) (inputs : List Input)
    → Any (λ m. msg ≡ m) (map (answer cfg) (requests inputs))
    → Any (λ i. (is_incoming i.msg.op ≡ true) × (msg ≡ answer cfg i)) inputs
reply_of cfg msg [] h = absurd h
reply_of cfg msg (i ∷ inputs) h =
    by_op (is_incoming i.msg.op) i.delivered refl h (reply_of cfg msg inputs)
  where
    IsReply : Input → Type 0
    IsReply j = (is_incoming j.msg.op ≡ true) × (msg ≡ answer cfg j)

    by_op :
        (incoming delivered : Bool)
        → is_incoming i.msg.op ≡ incoming
        → Any
            (λ m. msg ≡ m)
            (map (answer cfg) (
              if incoming
              then (if delivered then i ∷ requests inputs else [])
              else requests inputs))
        → (Any (λ m. msg ≡ m) (map (answer cfg) (requests inputs)) → Any IsReply inputs)
        → Any IsReply (i ∷ inputs)
    by_op true true e (inl h) more = inl (e, h)
    by_op true true e (inr h) more = inr (more h)
    by_op true false e h more = absurd h
    by_op false delivered e h more = inr (more h)

map-Any :
    {P Q : Input → Type 0} (inputs : List Input)
    → ((i : Input) → P i → Q i)
    → Any P inputs
    → Any Q inputs
map-Any [] f h = absurd h
map-Any (i ∷ inputs) f (inl h) = inl (f i h)
map-Any (i ∷ inputs) f (inr h) = inr (map-Any inputs f h)

consents-cases :
    (unattended has_prompt says : Bool)
    → (if unattended || (not has_prompt || says) then Op.accept else Op.reject) ≡ Op.accept
    → ((unattended ≡ true) ⊎ (has_prompt ≡ false)) ⊎ (says ≡ true)
consents-cases true has_prompt says h = inl (inl refl)
consents-cases false false says h = inl (inr refl)
consents-cases false true true h = inr refl
consents-cases false true false h = cc

reply-Allowed :
    (cfg : HostConfig) (msg : ControlMsg) (session : Bytes) (i : Input)
    → msg.op ≡ Op.accept
    → msg.session ≡ session
    → (is_incoming i.msg.op ≡ true) × (msg ≡ answer cfg i)
    → AsksNobody cfg ⊎ SaysYes session i
reply-Allowed cfg msg session i o q (incoming, e) =
    elim (consents-cases cfg.unattended cfg.has_prompt i.says
      (sym (ap (λ (m : ControlMsg). m.op) e) ∙ o)) [
        | inl nobody ↦ inl nobody
        | inr says ↦ inr (incoming, sym (ap (λ (m : ControlMsg). m.session) e) ∙ q, says)
      ]

collect :
    (cfg : HostConfig) (session : Bytes) (inputs : List Input)
    → Any (λ i. AsksNobody cfg ⊎ SaysYes session i) inputs
    → Allowed cfg inputs session
collect cfg session [] h = absurd h
collect cfg session (i ∷ inputs) (inl (inl nobody)) = inl nobody
collect cfg session (i ∷ inputs) (inl (inr says)) = inr (inl says)
collect cfg session (i ∷ inputs) (inr h) = elim (collect cfg session inputs h) [
  | inl nobody ↦ inl nobody
  | inr says ↦ inr (inr says)
]

sent-Allowed :
    (cfg : HostConfig) (inputs : List Input) (msg : ControlMsg) (session : Bytes)
    → msg.op ≡ Op.accept
    → msg.session ≡ session
    → Sends cfg inputs msg
    → Allowed cfg inputs session
sent-Allowed cfg inputs msg session o q (inl e) = cc (o, ap (λ (m : ControlMsg). m.op) e)
sent-Allowed cfg inputs msg session o q (inr h) = collect cfg session inputs (
    map-Any inputs (λ i. reply-Allowed cfg msg session i o q)
      (reply_of cfg msg inputs (subst (Any (λ m. msg ≡ m)) (serve-replies cfg inputs) h)))

reply_op_ne : (b : Bool) → (if b then Op.accept else Op.reject) ≢ Op.register
reply_op_ne true h = cc
reply_op_ne false h = cc

Any-absurd :
    (msg : ControlMsg) (cfg : HostConfig) (inputs : List Input)
    → msg.op ≡ Op.register
    → Any (λ i. (is_incoming i.msg.op ≡ true) × (msg ≡ answer cfg i)) inputs
    → ⊥
Any-absurd msg cfg [] o h = h
Any-absurd msg cfg (i ∷ inputs) o (inl (incoming, e)) =
    reply_op_ne (grants cfg i) (sym (ap (λ (m : ControlMsg). m.op) e) ∙ o)
Any-absurd msg cfg (i ∷ inputs) o (inr h) = Any-absurd msg cfg inputs o h

sent-Unattended :
    (cfg : HostConfig) (inputs : List Input) (msg : ControlMsg)
    → msg.op ≡ Op.register
    → msg.unattended ≡ true
    → Sends cfg inputs msg
    → cfg.unattended ≡ true
sent-Unattended cfg inputs msg o u (inl e) = sym (ap (λ (m : ControlMsg). m.unattended) e) ∙ u
sent-Unattended cfg inputs msg o u (inr h) = absurd (
    Any-absurd msg cfg inputs o
      (reply_of cfg msg inputs (subst (Any (λ m. msg ≡ m)) (serve-replies cfg inputs) h)))

accept-Allowed :
    (cfg : HostConfig) (inputs : List Input) (addr : ℕ) (session : Bytes) (e : Event)
    → IsAccept addr session e
    → FromHost addr cfg inputs e
    → Allowed cfg inputs session
accept-Allowed cfg inputs addr session (control_msg env a msg) (at, o, q) sent =
    sent-Allowed cfg inputs msg session o q (sent at)
accept-Allowed cfg inputs addr session (dial_control fp) h sent = absurd h
accept-Allowed cfg inputs addr session (hang_up a) h sent = absurd h
accept-Allowed cfg inputs addr session (dial_connect env req) h sent = absurd h
accept-Allowed cfg inputs addr session (wake w i) h sent = absurd h
accept-Allowed cfg inputs addr session (splice a o i) h sent = absurd h

opening-Allowed :
    (cfg : HostConfig) (inputs : List Input) (addr : ℕ) (e : Event)
    → IsOpening addr e
    → FromHost addr cfg inputs e
    → cfg.unattended ≡ true
opening-Allowed cfg inputs addr (control_msg env a msg) (at, o, u) sent =
    sent-Unattended cfg inputs msg o u (sent at)
opening-Allowed cfg inputs addr (dial_control fp) h sent = absurd h
opening-Allowed cfg inputs addr (hang_up a) h sent = absurd h
opening-Allowed cfg inputs addr (dial_connect env req) h sent = absurd h
opening-Allowed cfg inputs addr (wake w i) h sent = absurd h
opening-Allowed cfg inputs addr (splice a o i) h sent = absurd h

-- The relay and the host agent together, in every interleaving: if all that the relay read on a
-- host's connection is what the agent sent, a viewer's channel is spliced to that host only if the
-- agent is unattended or has no prompt, or was asked for that viewer's session and its user said yes.
pub bridged-Allowed :
    {limits : Limits} {past : List Event} {sys : System} (i addr : ℕ) (session : Bytes)
    (cfg : HostConfig) (inputs : List Input)
    → Reach limits past sys
    → get_elem? sys.viewers i ≡ some (bridged addr session)
    → All (FromHost addr cfg inputs) past
    → Allowed cfg inputs session
bridged-Allowed {past = past} i addr session cfg inputs r found from =
    elim (bridged-Agreed i addr session r found) [
      | inl opening ↦
          inl (inl (always past (Happened-at past (opening-Allowed cfg inputs addr) from opening)))
      | inr accept ↦
          always past (Happened-at past (accept-Allowed cfg inputs addr session) from accept)
    ]
