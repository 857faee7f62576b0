-- ===== src/Relay/Control/Replies.antt =====
-- What a reply of the host to a session that waits does.
use remotedesk.Prelude.{◌≡◌, ap, ◌∙◌, ℕ, Bool, true, false, none, some, Bytes, get_elem?}
use remotedesk.Wire.{ControlMsg, Op}
use remotedesk.Relay.{Server}
use remotedesk.Relay.Change.{Pending}
use remotedesk.Relay.Consent.{resolve}
use remotedesk.Relay.Consent.Replies.{answered, resolve-answered}
use remotedesk.Relay.Control.{Draws, registered, serve_control, on_op, on_reply, resolve_at}

abbrev pub reply_op : Bool → Op
reply_op true = Op.accept
reply_op false = Op.reject

pub reply-answered :
    (env : Draws) (addr : ℕ) (session : Bytes) (ok : Bool) (ch : ℕ) (msg : ControlMsg) (s : Server)
    → msg.op ≡ reply_op ok
    → msg.session ≡ session
    → Pending s addr session ch
    → get_elem? s.results ch ≡ some none
    → serve_control env addr msg registered s ≡ some (answered s ch ok, registered)
unfolding serve_control on_op on_reply resolve_at
reply-answered env addr session true ch msg s o q (reg, found, waits) free =
    ap (λ p. on_op env addr p msg registered s) o
    ∙ ap (λ r. some (resolve_at r msg.session true s, registered)) found
    ∙ ap (λ t. some (resolve reg t true s, registered)) q
    ∙ ap (λ t. some (t, registered)) (resolve-answered reg session true ch s waits free)
reply-answered env addr session false ch msg s o q (reg, found, waits) free =
    ap (λ p. on_op env addr p msg registered s) o
    ∙ ap (λ r. some (resolve_at r msg.session false s, registered)) found
    ∙ ap (λ t. some (resolve reg t false s, registered)) q
    ∙ ap (λ t. some (t, registered)) (resolve-answered reg session false ch s waits free)
