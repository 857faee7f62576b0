-- ===== src/Tunnel/Host/Replies.antt =====
-- `Serve`: one reply to each session, and what it says.
use remotedesk.Prelude.{
  ◌≡◌, refl, ap, sym, Bool, true, false, ◌&&◌, ◌||◌, not, List, [], ◌∷◌, ◌++◌, map, Bytes,
  if◌then◌else◌,
}
use remotedesk.Wire.{ControlMsg, Op}
use remotedesk.Tunnel.Host.{
  HostConfig, Input, Deed, asks, replies, alerts, logs, prompts, consents, reply_msg, on_incoming,
  on_message, serve,
}

-- The messages that the host sends, in order.
abbrev pub replied : List Deed → List ControlMsg
replied [] = []
replied (replies msg ∷ deeds) = msg ∷ replied deeds
replied (asks session ∷ deeds) = replied deeds
replied (alerts text ∷ deeds) = replied deeds
replied (logs text ∷ deeds) = replied deeds

abbrev pub is_incoming : Op → Bool
is_incoming Op.incoming = true
is_incoming op = false

-- The requests up to the first one whose reply is lost, which ends the loop.
abbrev pub requests : List Input → List Input
requests [] = []
requests (i ∷ inputs) =
    let later = requests inputs in
    if is_incoming i.msg.op then (if i.delivered then i ∷ later else []) else later

-- An acceptance, or a refusal, of a session, with nothing else in it.
abbrev pub verdict : Bool → Bytes → ControlMsg
verdict ok session = record {
  op = if ok then Op.accept else Op.reject;
  unattended = false;
  id = [];
  pin = [];
  session = session;
  from = [];
  error = [];
}

-- The host is unattended, or it has no prompt, or its user says yes.
abbrev pub grants : HostConfig → Input → Bool
grants cfg i = cfg.unattended || (not cfg.has_prompt || i.says)

abbrev pub answer : HostConfig → Input → ControlMsg
answer cfg i = verdict (grants cfg i) i.msg.session

replied-append : (xs ys : List Deed) → replied (xs ++ ys) ≡ replied xs ++ replied ys
replied-append [] ys = refl
replied-append (replies msg ∷ xs) ys = ap (◌∷◌ msg) (replied-append xs ys)
replied-append (asks session ∷ xs) ys = replied-append xs ys
replied-append (alerts text ∷ xs) ys = replied-append xs ys
replied-append (logs text ∷ xs) ys = replied-append xs ys

-- The replies of one message, before those of the rest.
abbrev Head : HostConfig → Input → List Input → Bool → Bool → List Deed → List Deed × Bool → Type 0
Head cfg i inputs incoming delivered later (deeds, goes_on) =
    replied (if goes_on then deeds ++ later else deeds)
    ≡ map (answer cfg)
        (if incoming then (if delivered then i ∷ requests inputs else []) else requests inputs)

verdict_lem : (b : Bool) (session : Bytes) → reply_msg b session ≡ verdict b session
verdict_lem true session = refl
verdict_lem false session = refl

-- The decision, by the three flags.
grants_lem :
    (unattended has_prompt says : Bool)
    → (if not unattended && has_prompt then says else true) ≡ unattended || (not has_prompt || says)
grants_lem true has_prompt says = refl
grants_lem false true says = refl
grants_lem false false says = refl

reply-answer :
    (cfg : HostConfig) (i : Input) → reply_msg (consents cfg i.says) i.msg.session ≡ answer cfg i
reply-answer cfg i =
    rw (grants_lem cfg.unattended cfg.has_prompt i.says) (verdict_lem (grants cfg i) i.msg.session)

incoming-Head :
    (cfg : HostConfig) (i : Input) (inputs : List Input) (delivered prompt : Bool)
    (later : List Deed)
    → i.delivered ≡ delivered
    → prompts cfg ≡ prompt
    → replied later ≡ map (answer cfg) (requests inputs)
    → Head cfg i inputs true delivered later (on_incoming cfg i)
unfolding on_incoming
incoming-Head cfg i inputs true true later e p h = rw (sym (reply-answer cfg i)) (rw (e, p) (rw h))
incoming-Head cfg i inputs true false later e p h = rw (sym (reply-answer cfg i)) (rw (e, p) (rw h))
incoming-Head cfg i inputs false true later e p h = rw (e, p) refl
incoming-Head cfg i inputs false false later e p h = rw (e, p) refl

alert_quiet :
    (b : Bool) (text : Bytes) (later : List Deed) {msgs : List ControlMsg}
    → replied later ≡ msgs
    → replied (((if b then alerts text else logs text) ∷ []) ++ later) ≡ msgs
alert_quiet true text later h = h
alert_quiet false text later h = h

message-Head :
    (cfg : HostConfig) (i : Input) (inputs : List Input) (op : Op) (later : List Deed)
    → replied later ≡ map (answer cfg) (requests inputs)
    → Head cfg i inputs (is_incoming op) i.delivered later (on_message cfg op i)
unfolding on_message
message-Head cfg i inputs Op.incoming later h =
    incoming-Head cfg i inputs i.delivered (prompts cfg) later refl refl h
message-Head cfg i inputs Op.alert later h = alert_quiet cfg.has_alert i.msg.error later h
message-Head cfg i inputs Op.register later h = h
message-Head cfg i inputs Op.registered later h = h
message-Head cfg i inputs Op.accept later h = h
message-Head cfg i inputs Op.reject later h = h
message-Head cfg i inputs Op.error later h = h
message-Head cfg i inputs (Op.unknown text) later h = h

-- The host replies to each session request once, in the order of the requests, until a reply is
-- lost. A reply names its request's session and accepts it exactly if the host is unattended, has no
-- prompt, or has a user who says yes.
pub serve-replies :
    (cfg : HostConfig) (inputs : List Input)
    → replied (serve cfg inputs) ≡ map (answer cfg) (requests inputs)
unfolding serve
serve-replies cfg [] = refl
serve-replies cfg (i ∷ inputs) =
    message-Head cfg i inputs i.msg.op (serve cfg inputs) (serve-replies cfg inputs)
