-- ===== src/Relay/Consent/Effect.antt =====
-- The wait for consent touches neither the registry nor any ID.
use remotedesk.Prelude.{
  ℕ, ◌≡◌, refl, Bool, true, false, List, Option, none, some, Bytes, get_elem?, lookup, modify,
  IfSome,
}
use remotedesk.Wire.{ControlMsg}
use remotedesk.Relay.{HostReg, Server}
use remotedesk.Relay.Store.{Keeps, Keeps-refl, modify-SameIds}
use remotedesk.Relay.Registry.{update_reg, send}
use remotedesk.Relay.Consent.{
  Wake, received, timed_out, await_consent, end_consent, offer, offer_to, receive, resolve,
}

update-Keeps :
    (addr : ℕ) (f : HostReg → HostReg) (results : List (Option Bool)) (s : Server)
    → ((r : HostReg) → (f r).id ≡ r.id)
    → Keeps s (record s { regs = modify addr f s.regs; results = results })
update-Keeps addr f results s h = record {
  same_hosts = refl;
  same_ids = modify-SameIds addr f s.regs h;
}

pub update_reg-Keeps :
    (addr : ℕ) (f : HostReg → HostReg) (s : Server)
    → ((r : HostReg) → (f r).id ≡ r.id)
    → Keeps s (update_reg addr f s)
update_reg-Keeps addr f s h = update-Keeps addr f s.results s h

pub send-id :
    (delivered : Bool) (msg : ControlMsg) (reg : HostReg) → (send delivered msg reg).id ≡ reg.id
unfolding send
send-id true msg reg = refl
send-id false msg reg = refl

pub await_consent-Keeps :
    (delivered : Bool) (addr : ℕ) (unattended : Bool) (session : Bytes) (s : Server)
    → Keeps s (await_consent delivered addr unattended session s).0
unfolding await_consent
await_consent-Keeps delivered addr true session s = Keeps-refl s
await_consent-Keeps true addr false session s = update-Keeps addr _ _ s (λ r. refl)
await_consent-Keeps false addr false session s = update-Keeps addr _ _ s (λ r. refl)

offer-Keeps :
    (ok : Bool) (slot : Option (Option Bool)) (ch : ℕ) (s : Server) → Keeps s (offer ok slot ch s)
unfolding offer
offer-Keeps ok none ch s = Keeps-refl s
offer-Keeps ok (some none) ch s = record { same_hosts = refl; same_ids = (Keeps-refl s).same_ids }
offer-Keeps ok (some (some old)) ch s = Keeps-refl s

offer_to-Keeps : (target : Option ℕ) (ok : Bool) (s : Server) → Keeps s (offer_to target ok s)
unfolding offer_to
offer_to-Keeps none ok s = Keeps-refl s
offer_to-Keeps (some ch) ok s = offer-Keeps ok (get_elem? s.results ch) ch s

pub resolve-Keeps :
    (reg : HostReg) (session : Bytes) (ok : Bool) (s : Server) → Keeps s (resolve reg session ok s)
unfolding resolve
resolve-Keeps reg session ok s = offer_to-Keeps (lookup session reg.pending) ok s

receive-Keeps :
    (slot : Option (Option Bool)) (addr : ℕ) (session : Bytes) (ch : ℕ) (s : Server)
    → IfSome (λ r. Keeps s r.0) (receive slot addr session ch s)
unfolding receive
receive-Keeps none addr session ch s = tt
receive-Keeps (some none) addr session ch s = tt
receive-Keeps (some (some ok)) addr session ch s = update-Keeps addr _ _ s (λ r. refl)

pub end_consent-Keeps :
    (w : Wake) (addr : ℕ) (session : Bytes) (ch : ℕ) (s : Server)
    → IfSome (λ r. Keeps s r.0) (end_consent w addr session ch s)
unfolding end_consent
end_consent-Keeps timed_out addr session ch s = update_reg-Keeps addr _ s (λ r. refl)
end_consent-Keeps received addr session ch s =
    receive-Keeps (get_elem? s.results ch) addr session ch s
