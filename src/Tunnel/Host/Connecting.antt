-- ===== src/Tunnel/Host/Connecting.antt =====
-- `Connect`: when it succeeds, and that it leaves no connection behind when it does not.
use remotedesk.Prelude.{
  ◌≡◌, ◌↔◌, refl, ap, codes, Bool, true, false, List, [], ◌∷◌, Option, none, some, Bytes,
}
use remotedesk.Wire.{ControlMsg, Op, chan_control}
use remotedesk.Tunnel.Checking.{host_key_callback-checked}
use remotedesk.Tunnel.{Act, dials, shakes, opens, sends, left_open, host_key_callback, checked}
use remotedesk.Tunnel.Host.{
  HostConfig, Link, Connected, connected, fails, connect, await_registration, registration, after,
  register_msg,
}

-- Every step up to the reply succeeds.
abbrev pub Steps : Link → Bool → Type 0
Steps net shaken = (net.dialed ≡ true) × (shaken ≡ true) × (net.opened ≡ true) × (net.sent ≡ true)

-- The host key is checked against the pinned one, if one is pinned.
abbrev pub IsUp : HostConfig → Link → Type 0
IsUp cfg net = Steps net (checked cfg.relay_key net.shaken)

-- The connection is open exactly if the registration succeeded.
abbrev pub Tidy : List Act × Connected → Type 0
Tidy (acts, connected id pin) = left_open false acts ≡ true
Tidy (acts, fails e) = left_open false acts ≡ false

-- The relay answered with an ID and a PIN.
abbrev pub Registers : Option ControlMsg → Bytes → Bytes → Type 0
Registers reply id pin =
    (msg : ControlMsg) × (reply ≡ some msg)
    × (msg.op ≡ Op.registered)
    × (msg.id ≡ id)
    × (msg.pin ≡ pin)

some_inj : {m n : ControlMsg} → some m ≡ some n → m ≡ n
some_inj e = cc

registration_lem :
    (op : Op) (msg : ControlMsg) (id pin : Bytes)
    → msg.op ≡ op
    → ((registration op msg).1 ≡ connected id pin) ↔ Registers (some msg) id pin
unfolding registration
registration_lem Op.registered msg id pin e =
    (λ h. (msg, refl, e, cc, cc), λ (m, q, o, i, p). cc (some_inj q))
registration_lem Op.register msg id pin e =
    (λ h. cc, λ (m, q, o, i, p). cc (ap (λ (x : ControlMsg). x.op) (some_inj q)))
registration_lem Op.incoming msg id pin e =
    (λ h. cc, λ (m, q, o, i, p). cc (ap (λ (x : ControlMsg). x.op) (some_inj q)))
registration_lem Op.accept msg id pin e =
    (λ h. cc, λ (m, q, o, i, p). cc (ap (λ (x : ControlMsg). x.op) (some_inj q)))
registration_lem Op.reject msg id pin e =
    (λ h. cc, λ (m, q, o, i, p). cc (ap (λ (x : ControlMsg). x.op) (some_inj q)))
registration_lem Op.alert msg id pin e =
    (λ h. cc, λ (m, q, o, i, p). cc (ap (λ (x : ControlMsg). x.op) (some_inj q)))
registration_lem Op.error msg id pin e =
    (λ h. cc, λ (m, q, o, i, p). cc (ap (λ (x : ControlMsg). x.op) (some_inj q)))
registration_lem (Op.unknown text) msg id pin e =
    (λ h. cc, λ (m, q, o, i, p). cc (ap (λ (x : ControlMsg). x.op) (some_inj q)))

await_lem :
    (reply : Option ControlMsg) (id pin : Bytes)
    → ((await_registration reply).1 ≡ connected id pin) ↔ Registers reply id pin
unfolding await_registration
await_lem none id pin = (λ h. cc, λ (m, q, o, i, p). cc)
await_lem (some msg) id pin = registration_lem msg.op msg id pin refl

-- The acts up to the reply.
abbrev begun : HostConfig → List Act
begun cfg =
    dials cfg.relay_addr
    ∷ shakes (codes "host") (host_key_callback cfg.relay_key)
    ∷ opens chan_control
    ∷ sends (register_msg cfg)
    ∷ []

registration-Tidy :
    (cfg : HostConfig) (op : Op) (msg : ControlMsg) → Tidy (after (begun cfg) (registration op msg))
unfolding registration
registration-Tidy cfg Op.registered msg = refl
registration-Tidy cfg Op.register msg = refl
registration-Tidy cfg Op.incoming msg = refl
registration-Tidy cfg Op.accept msg = refl
registration-Tidy cfg Op.reject msg = refl
registration-Tidy cfg Op.alert msg = refl
registration-Tidy cfg Op.error msg = refl
registration-Tidy cfg (Op.unknown text) msg = refl

await-Tidy :
    (cfg : HostConfig) (reply : Option ControlMsg)
    → Tidy (after (begun cfg) (await_registration reply))
unfolding await_registration
await-Tidy cfg none = refl
await-Tidy cfg (some msg) = registration-Tidy cfg msg.op msg

-- By the outcomes of the four steps.
connect_cases :
    (cfg : HostConfig) (net : Link) (d s o t : Bool)
    → net.dialed ≡ d
    → net.shaken (host_key_callback cfg.relay_key) ≡ s
    → net.opened ≡ o
    → net.sent ≡ t
    → ((id pin : Bytes)
        → ((connect cfg net).1 ≡ connected id pin)
          ↔ (Steps net (net.shaken (host_key_callback cfg.relay_key)) × Registers net.reply id pin))
      × Tidy (connect cfg net)
unfolding connect
connect_cases cfg net false s o t ed es eo et =
    rw ed (λ id pin. (λ h. cc, λ ((d', s', o', t'), reg). cc), refl)
connect_cases cfg net true false o t ed es eo et =
    rw (ed, es) (λ id pin. (λ h. cc, λ ((d', s', o', t'), reg). cc), refl)
connect_cases cfg net true true false t ed es eo et =
    rw (ed, es, eo) (λ id pin. (λ h. cc, λ ((d', s', o', t'), reg). cc), refl)
connect_cases cfg net true true true false ed es eo et =
    rw (ed, es, eo, et) (λ id pin. (λ h. cc, λ ((d', s', o', t'), reg). cc), refl)
connect_cases cfg net true true true true ed es eo et =
    rw (ed, es, eo, et)
      (
        λ id pin. (
          λ h. ((refl, refl, refl, refl), (await_lem net.reply id pin).0 h),
          λ (up, reg). (await_lem net.reply id pin).1 reg,
        ),
        await-Tidy cfg net.reply,
      )

-- A host is registered, under the ID and the PIN that the relay sent, exactly if the relay was
-- reached, its key is the pinned one if one is pinned, the control channel opened, the request was sent and the answer
-- was a registration. The connection is left open exactly then.
pub connect-Registers :
    (cfg : HostConfig) (net : Link)
    → ((id pin : Bytes)
        → ((connect cfg net).1 ≡ connected id pin) ↔ (IsUp cfg net × Registers net.reply id pin))
      × Tidy (connect cfg net)
connect-Registers cfg net = rw (host_key_callback-checked cfg.relay_key net.shaken) (
    connect_cases cfg net net.dialed (net.shaken (host_key_callback cfg.relay_key)) net.opened
      net.sent refl refl refl refl)
