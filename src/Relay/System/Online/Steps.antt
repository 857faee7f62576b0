-- ===== src/Relay/System/Online/Steps.antt =====
-- The registry's agreement with the control loops under each change of the registry.
use remotedesk.Prelude.{
  ℕ, zero, suc, ◌<◌, ◌≡◌, ◌≢◌, sym, subst, ap, ◌∙◌, ◌⊎◌, inl, inr, List, [], ◌∷◌, ◌++◌, none, some,
  Bytes, set, lookup, insert, delete, lookup-insert, lookup-delete, bytes_eq_iff, bytes_eq_ne,
  bytes_eq_refl, get_elem?, length, arith, length-append, length-set, get_elem?-set_self,
  get_elem?-set_ne, get_elem?-append_left, get_elem?-append_cases, get_elem?-lt,
}
use native.Mathlib.Decide.{ℕ_discrete}
use remotedesk.Relay.{HostReg, Server}
use remotedesk.Relay.Store.{id_at}
use remotedesk.Relay.Registry.Effect.{Registers}
use remotedesk.Relay.Control.{Control, unregistered, registered, closed}
use remotedesk.Relay.System.Online.{IsOnline}

lookup-insert_self : (k : Bytes) (v : ℕ) (m : List (Bytes × ℕ)) → lookup k (insert k v m) ≡ some v
lookup-insert_self k v m = rw (lookup-insert k k v m, bytes_eq_refl k)

lookup-insert_ne :
    (k j : Bytes) (v : ℕ) (m : List (Bytes × ℕ)) → k ≢ j → lookup j (insert k v m) ≡ lookup j m
lookup-insert_ne k j v m h = rw (lookup-insert k j v m, bytes_eq_ne k j h)

lookup-insert_cases :
    (k j : Bytes) (v a : ℕ) (m : List (Bytes × ℕ))
    → lookup j (insert k v m) ≡ some a
    → ((k ≡ j) × (a ≡ v)) ⊎ (lookup j m ≡ some a)
lookup-insert_cases k j v a m h = ground (arith, lookup-insert k j v m, bytes_eq_iff k j)

lookup-delete_ne : (k j : Bytes) (m : List (Bytes × ℕ)) → k ≢ j → lookup j (delete k m) ≡ lookup j m
lookup-delete_ne k j m h = rw (lookup-delete k j m, bytes_eq_ne k j h)

lookup-delete-some :
    (k j : Bytes) (a : ℕ) (m : List (Bytes × ℕ))
    → lookup j (delete k m) ≡ some a
    → (k ≢ j) × (lookup j m ≡ some a)
lookup-delete-some k j a m h = (
  λ e. ground (arith, lookup-delete k j m, bytes_eq_iff k j),
  ground (arith, lookup-delete k j m, bytes_eq_iff k j),
)

-- Replacing one control loop by another that is `registered` only where it was.
set_registered_ne :
    (controls : List Control) (addr a : ℕ) (c : Control)
    → c ≢ registered
    → get_elem? (set controls addr c) a ≡ some registered
    → (a ≢ addr) × (get_elem? controls a ≡ some registered)
set_registered_ne [] addr a c h e = cc
set_registered_ne (x ∷ controls) zero zero c h e = absurd (h (cc))
set_registered_ne (x ∷ controls) zero (suc a) c h e = (λ q. omega arith, e)
set_registered_ne (x ∷ controls) (suc addr) zero c h e = (λ q. omega arith, e)
set_registered_ne (x ∷ controls) (suc addr) (suc a) c h e =
    let (ne, old) = set_registered_ne controls addr a c h e in (λ q. ne (omega arith), old)

id_at-append :
    (regs : List HostReg) (reg : HostReg) (a : ℕ) {id : Bytes}
    → id_at regs a ≡ some id
    → id_at (regs ++ (reg ∷ [])) a ≡ some id
id_at-append [] reg a e = cc
id_at-append (r ∷ regs) reg zero e = e
id_at-append (r ∷ regs) reg (suc a) e = id_at-append regs reg a e

module _ {hosts : List (Bytes × ℕ)} {regs : List HostReg} {controls : List Control}
    (v : IsOnline hosts regs controls) where
  -- A new control channel.
  pub dial-IsOnline :
      (reg : HostReg) → IsOnline hosts (regs ++ (reg ∷ [])) (controls ++ (unregistered ∷ []))
  dial-IsOnline reg = record {
    fits =
        omega (
          arith,
          v.fits,
          length-append regs (reg ∷ []),
          length-append controls (unregistered ∷ []),
        );
    listed = λ a r. elim (get_elem?-append_cases controls unregistered registered a r) [
      | inl old ↦ let (id, at, found) = v.listed a old in (id, id_at-append regs reg a at, found)
      | inr (_, e) ↦ cc
    ];
    live = λ id a found.
        let (at, r) = v.live id a found in
        (
          id_at-append regs reg a at,
          get_elem?-append_left controls _ a (get_elem?-lt controls a registered r) ∙ r,
        );
  }

  -- The end of a control loop that has not registered.
  pub close-IsOnline :
      (addr : ℕ) {c : Control}
      → get_elem? controls addr ≡ some c
      → c ≢ registered
      → IsOnline hosts regs (set controls addr closed)
  close-IsOnline addr old h = record {
    fits = length-set controls addr closed ∙ v.fits;
    listed = λ a r. v.listed a (set_registered_ne controls addr a closed (λ e. cc) r).1;
    live = λ id a found.
        let (at, r) = v.live id a found in
        (at, get_elem?-set_ne controls addr a closed (λ e. h (cc)) ∙ r);
  }

  -- The end of a registered loop: its ID leaves the registry, and no other.
  pub leave-IsOnline :
      (addr : ℕ) (id : Bytes)
      → get_elem? controls addr ≡ some registered
      → id_at regs addr ≡ some id
      → IsOnline (delete id hosts) regs (set controls addr closed)
  leave-IsOnline addr id here at = record {
    fits = length-set controls addr closed ∙ v.fits;
    listed = λ a r.
        let (ne, old) = set_registered_ne controls addr a closed (λ e. cc) r in
        let (id', at', found) = v.listed a old in
        let (own_id, own_at, own_found) = v.listed addr here in
        (id', at', lookup-delete_ne id id' hosts (λ e. ne (cc)) ∙ found);
    live = λ id' a found.
        let (ne, old) = lookup-delete-some id id' a hosts found in
        let (at', r) = v.live id' a old in
        (at', get_elem?-set_ne controls addr a closed (λ e. ne (cc)) ∙ r);
  }

  -- A registration: the new ID enters the registry, and nothing else changes.
  pub register-IsOnline :
      (addr : ℕ) {s t : Server}
      → s.hosts ≡ hosts
      → s.regs ≡ regs
      → get_elem? controls addr ≡ some unregistered
      → Registers addr s t
      → IsOnline t.hosts t.regs (set controls addr registered)
  register-IsOnline addr {s} {t} same_hosts same_regs here r =
      subst (λ h. IsOnline h t.regs (set controls addr registered)) (sym hosts_eq)
        (record {
          fits =
              length-set controls addr registered
              ∙ v.fits
              ∙ ap length (sym same_regs)
              ∙ sym r.same_length;
          listed = λ a reg. elim (ℕ_discrete a addr) [
            | yes own ↦ (
              r.id,
              ap (id_at t.regs) own ∙ own_at,
              lookup-insert_self r.id addr hosts ∙ ap some (sym own),
            )
            | no ne ↦
                let old : get_elem? controls a ≡ some registered =
                  sym (get_elem?-set_ne controls addr a registered (λ e. ne (sym e))) ∙ reg in
                let (id, at, found) = v.listed a old in
                (
                  id,
                  r.others a ne ∙ ap (λ x. id_at x a) same_regs ∙ at,
                  lookup-insert_ne r.id id addr hosts (λ e. cc (free)) ∙ found,
                )
          ];
          live = λ id a found. elim (lookup-insert_cases r.id id addr a hosts found) [
            | inl (e, own) ↦ (
              ap (id_at t.regs) own ∙ own_at ∙ ap some e,
              ap (get_elem? (set controls addr registered)) own
                  ∙ get_elem?-set_self controls addr registered within,
            )
            | inr old ↦
                let (at, reg) = v.live id a old in
                let ne : a ≢ addr = λ e. cc in
                (
                  r.others a ne ∙ ap (λ x. id_at x a) same_regs ∙ at,
                  get_elem?-set_ne controls addr a registered (λ e. ne (sym e)) ∙ reg,
                )
          ];
        })
    where
      within : addr < length controls
      within = get_elem?-lt controls addr unregistered here

      own_at : id_at t.regs addr ≡ some r.id
      own_at = r.own (omega (arith, within, v.fits, ap length same_regs))

      free : lookup r.id hosts ≡ none
      free = ap (lookup r.id) (sym same_hosts) ∙ r.free

      hosts_eq : t.hosts ≡ insert r.id addr hosts
      hosts_eq = r.entered ∙ ap (insert r.id addr) same_hosts
