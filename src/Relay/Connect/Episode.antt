-- ===== src/Relay/Connect/Episode.antt =====
-- The life of a lockout: what trips it, who is refused while it lasts, and the one alert it raises.
use remotedesk.Prelude.{
  ℕ, ◌+◌, ◌≤◌, ◌<◌, ◌≡◌, refl, ap, sym, ◌∙◌, Bool, true, false, List, [], ◌∷◌, ◌++◌, some, Bytes,
  codes, length, replicate, map, All, arith, set, get_elem?-set_ne, get_elem?-modify_ne,
  get_elem?-modify_self, if◌then◌else◌,
}
use remotedesk.Wire.{ControlMsg, Op}
use remotedesk.Relay.{HostReg, Server}
use remotedesk.Relay.Auth.Lockout.{locked_refuses, wrong_pin_counts, wrong_pin_trips}
use remotedesk.Relay.Auth.Rate.{Timed, AllWrong}
use remotedesk.Relay.Registry.{send}
use remotedesk.Relay.Connect.{Env, rejected, invalid_pin, too_many_attempts, alert_msg, alert_text}
use remotedesk.Relay.Connect.Knocks.{
  Knock, attempt_of, IsAt, Frame, Leaves, Leaves-cons, set_found, put, put-IsAt, put-Frame, refused,
  counted, alerted, tripped,
}

-- What the host is told.
abbrev pub alert : ControlMsg
alert = record {
  op = Op.alert;
  unattended = false;
  id = [];
  pin = [];
  session = [];
  from = [];
  error =
      codes "multiple failed connection attempts detected; new attempts are temporarily blocked";
}

-- The registration under the lock: one alert more, if the control channel took it.
abbrev pub locked : Bool → ℕ → HostReg → HostReg
locked delivered until reg = record reg {
  failures = 0;
  lock_until = until;
  sent = if delivered then reg.sent ++ (alert ∷ []) else reg.sent;
}

send-locked :
    (delivered : Bool) (until : ℕ) (reg : HostReg)
    → send delivered (alert_msg alert_text) (record reg { failures = 0; lock_until = until })
      ≡ locked delivered until reg
unfolding send
send-locked true until reg = refl
send-locked false until reg = refl

alerted-IsAt :
    (env : Env) (id : Bytes) (addr until : ℕ) (reg : HostReg) (s : Server)
    → IsAt id addr reg s
    → IsAt id addr
        (locked env.alert_delivered until reg)
        (alerted env addr (record reg { failures = 0; lock_until = until }) s)
alerted-IsAt env id addr until reg s (at, found) =
    let new : HostReg = record reg { failures = 0; lock_until = until } in
    (
      at,
      get_elem?-modify_self addr (send env.alert_delivered (alert_msg alert_text))
            (set s.regs addr new) new (set_found s.regs addr new found)
          ∙ ap some (send-locked env.alert_delivered until reg),
    )

alerted-Frame :
    (env : Env) (addr : ℕ) (new : HostReg) (s : Server) → Frame addr s (alerted env addr new s)
alerted-Frame env addr new s = record {
  same_limits = refl;
  same_hosts = refl;
  same_others = λ i ne.
      get_elem?-modify_ne addr i (send env.alert_delivered (alert_msg alert_text))
        (set s.regs addr new) (λ e. ne (sym e))
      ∙ get_elem?-set_ne s.regs addr i new (λ e. ne (sym e));
}

-- While the lock lasts.
later-Leaves :
    (id : Bytes) (addr : ℕ) (reg : HostReg) (later : List Knock) (s : Server)
    → IsAt id addr reg s
    → All (λ k. k.0.now < reg.lock_until) later
    → Leaves id addr later reg (replicate (length later) (rejected too_many_attempts)) s
later-Leaves id addr reg [] s at h =
    (s, refl, at, record { same_limits = refl; same_hosts = refl; same_others = λ i ne. refl })
later-Leaves id addr reg ((env, pin) ∷ later) s at (now, h) =
    Leaves-cons id pin addr env later (rejected too_many_attempts)
      (refused env id pin addr reg reg s at (locked_refuses s.limits env.now env.trip reg pin now))
      (put-Frame addr reg s)
      (later-Leaves id addr reg later (put addr reg s) (put-IsAt id addr reg reg s at) h)

-- The last of `k ∷ rest`, which trips the lock.
abbrev pub last_knock : Knock → List Knock → Knock
last_knock k [] = k
last_knock k (l ∷ rest) = last_knock l rest

-- When the lock of that viewer ends.
abbrev pub until : ℕ → Knock → ℕ
until lockout (env, pin) = env.trip + lockout

abbrev pub episode_reg : ℕ → Knock → HostReg → HostReg
episode_reg lockout (env, pin) reg = locked env.alert_delivered (env.trip + lockout) reg

-- An online host that is not locked is asked for by viewers with wrong PINs, up to the limit, and then
-- by others within the lockout. All but the last of the first are told that the PIN is invalid. The last
-- one trips the lock: it and every later one, whatever its PIN, are told of too many attempts. The host
-- is sent one alert, by the viewer that trips the lock, if its control channel takes it, and nothing
-- else. No other registration changes. The first viewers come in the order of time.
pub lockout_episode :
    (id : Bytes) (addr start end : ℕ) (reg : HostReg) (k : Knock) (rest later : List Knock)
    (s : Server)
    → IsAt id addr reg s
    → reg.failures + length (k ∷ rest) ≡ s.limits.max_pin_attempts
    → reg.lock_until ≤ start
    → Timed start end (map attempt_of (k ∷ rest))
    → AllWrong reg.pin (map attempt_of (k ∷ rest))
    → All (λ l. l.0.now < until s.limits.lockout (last_knock k rest)) later
    → Leaves id addr
        ((k ∷ rest) ++ later)
        (episode_reg s.limits.lockout (last_knock k rest) reg)
        (replicate (length rest) (rejected invalid_pin)
          ++ (rejected too_many_attempts ∷ replicate (length later) (rejected too_many_attempts)))
        s
lockout_episode id addr start end reg (env, pin) [] later s at hn hu ht hw hl =
    let till = env.trip + s.limits.lockout in
    let new : HostReg = record reg { failures = 0; lock_until = till } in
    Leaves-cons id pin addr env later (rejected too_many_attempts)
      (tripped env id pin addr reg new s at
        (wrong_pin_trips s.limits env.now env.trip reg pin hw.0 (omega arith) (omega arith)))
      (alerted-Frame env addr new s)
      (later-Leaves id addr (locked env.alert_delivered till reg) later (alerted env addr new s)
        (alerted-IsAt env id addr till reg s at) hl)
lockout_episode id addr start end reg (env, pin) (l ∷ rest) later s at hn hu ht hw hl =
    let new : HostReg = record reg { failures = reg.failures + 1 } in
    Leaves-cons id pin addr env ((l ∷ rest) ++ later) (rejected invalid_pin)
      (counted env id pin addr reg new s at
        (wrong_pin_counts s.limits env.now env.trip reg pin hw.0 (omega arith) (omega arith)))
      (put-Frame addr new s)
      (lockout_episode id addr env.trip end new l rest later (put addr new s)
        (put-IsAt id addr reg new s at) (omega arith) (omega arith) ht.3 hw.1 hl)
