-- ===== src/Relay/Consent/Replies.antt =====
-- A reply of the host, and the wait that receives it.
use remotedesk.Prelude.{◌≡◌, ap, ◌∙◌, ℕ, Bool, none, some, Bytes, lookup, set, get_elem?}
use remotedesk.Relay.{HostReg, Server}
use remotedesk.Relay.Registry.{update_reg}
use remotedesk.Relay.Consent.{received, end_consent, receive, offer, offer_to, resolve, forget}

-- The channel holds the reply.
abbrev pub answered : Server → ℕ → Bool → Server
answered s ch ok = record s { results = set s.results ch (some ok) }

pub resolve-answered :
    (reg : HostReg) (session : Bytes) (ok : Bool) (ch : ℕ) (s : Server)
    → lookup session reg.pending ≡ some ch
    → get_elem? s.results ch ≡ some none
    → resolve reg session ok s ≡ answered s ch ok
unfolding resolve offer_to offer
resolve-answered reg session ok ch s p q = ap (λ o. offer_to o ok s) p ∙ ap (λ o. offer ok o ch s) q

pub received_lem :
    (addr : ℕ) (session : Bytes) (ch : ℕ) (ok : Bool) (s : Server)
    → get_elem? s.results ch ≡ some (some ok)
    → end_consent received addr session ch s
      ≡ some (update_reg addr (forget session) (record s { results = set s.results ch none }), ok)
unfolding end_consent receive
received_lem addr session ch ok s e = ap (λ o. receive o addr session ch s) e
