-- ===== src/Relay/Store.antt =====
-- The store of registrations: which of its writes keep the IDs.
use remotedesk.Prelude.{
  ℕ, zero, suc, ◌≡◌, refl, ap, ◌∙◌, List, [], ◌∷◌, Option, none, some, Bytes, set, modify,
  get_elem?, length, length-modify, length-set,
}
use remotedesk.Relay.{HostReg, Server}

-- The ID of the registration at an address.
abbrev pub id_at : List HostReg → ℕ → Option Bytes
id_at [] a = none
id_at (reg ∷ regs) zero = some reg.id
id_at (reg ∷ regs) (suc a) = id_at regs a

-- The second store has the registrations of the first, each under the same ID.
pub record SameIds (rs qs : List HostReg) : Type 0 where
  pub same_length : length qs ≡ length rs
  pub same_id : (a : ℕ) → id_at qs a ≡ id_at rs a

SameIds-refl : (rs : List HostReg) → SameIds rs rs
SameIds-refl rs = record { same_length = refl; same_id = λ a. refl }

SameIds-trans : {rs qs ps : List HostReg} → SameIds rs qs → SameIds qs ps → SameIds rs ps
SameIds-trans h k = record {
  same_length = k.same_length ∙ h.same_length;
  same_id = λ a. k.same_id a ∙ h.same_id a;
}

id_at-modify :
    (i : ℕ) (f : HostReg → HostReg) (rs : List HostReg)
    → ((r : HostReg) → (f r).id ≡ r.id)
    → (a : ℕ) → id_at (modify i f rs) a ≡ id_at rs a
id_at-modify i f [] h a = refl
id_at-modify zero f (r ∷ rs) h zero = ap some (h r)
id_at-modify zero f (r ∷ rs) h (suc a) = refl
id_at-modify (suc i) f (r ∷ rs) h zero = refl
id_at-modify (suc i) f (r ∷ rs) h (suc a) = id_at-modify i f rs h a

pub modify-SameIds :
    (i : ℕ) (f : HostReg → HostReg) (rs : List HostReg)
    → ((r : HostReg) → (f r).id ≡ r.id)
    → SameIds rs (modify i f rs)
modify-SameIds i f rs h = record {
  same_length = length-modify i f rs;
  same_id = id_at-modify i f rs h;
}

id_at-set :
    (i : ℕ) (rs : List HostReg) {r : HostReg} (q : HostReg)
    → get_elem? rs i ≡ some r
    → q.id ≡ r.id
    → (a : ℕ) → id_at (set rs i q) a ≡ id_at rs a
id_at-set i [] q e h a = refl
id_at-set zero (x ∷ rs) q e h zero = cc
id_at-set zero (x ∷ rs) q e h (suc a) = refl
id_at-set (suc i) (x ∷ rs) q e h zero = refl
id_at-set (suc i) (x ∷ rs) q e h (suc a) = id_at-set i rs q e h a

pub set-SameIds :
    (i : ℕ) (rs : List HostReg) {r : HostReg} (q : HostReg)
    → get_elem? rs i ≡ some r
    → q.id ≡ r.id
    → SameIds rs (set rs i q)
set-SameIds i rs q e h = record { same_length = length-set rs i q; same_id = id_at-set i rs q e h }

id_at-get_elem? :
    (rs : List HostReg) (a : ℕ) {r : HostReg} → get_elem? rs a ≡ some r → id_at rs a ≡ some r.id
id_at-get_elem? [] a e = cc
id_at-get_elem? (x ∷ rs) zero e = cc
id_at-get_elem? (x ∷ rs) (suc a) e = id_at-get_elem? rs a e

-- An address with an ID does not dangle.
pub get_elem?-id_at :
    (rs : List HostReg) (a : ℕ) {id : Bytes}
    → id_at rs a ≡ some id
    → (r : HostReg) × (get_elem? rs a ≡ some r) × (r.id ≡ id)
get_elem?-id_at [] a e = cc
get_elem?-id_at (x ∷ rs) zero e = (x, refl, cc)
get_elem?-id_at (x ∷ rs) (suc a) e = get_elem?-id_at rs a e

-- An operation of the server that leaves the registry and the IDs alone.
pub record Keeps (s t : Server) : Type 0 where
  pub same_hosts : t.hosts ≡ s.hosts
  pub same_ids : SameIds s.regs t.regs

pub Keeps-refl : (s : Server) → Keeps s s
Keeps-refl s = record { same_hosts = refl; same_ids = SameIds-refl s.regs }

pub Keeps-trans : {s t u : Server} → Keeps s t → Keeps t u → Keeps s u
Keeps-trans h k = record {
  same_hosts = k.same_hosts ∙ h.same_hosts;
  same_ids = SameIds-trans h.same_ids k.same_ids;
}
