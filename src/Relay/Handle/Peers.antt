-- ===== src/Relay/Handle/Peers.antt =====
-- Which peers are served.
use remotedesk.Prelude.{
  ℕ, ◌+◌, ◌≡◌, refl, ap, ◌∙◌, Bool, true, false, ◌&&◌, List, [], ◌∷◌, ◌++◌, append-nil, map, Option,
  none, some, Bytes, leb, if◌then◌else◌,
}
use remotedesk.Wire.{ChannelType, chan_control, chan_connect, chan_data, other}
use remotedesk.Relay.{Limits}
use remotedesk.Relay.Handle.{
  authorizes, public_key_callback, Peer, Act, sets_deadline, clears_deadline, closes,
  serves_control, serves_connect, rejects_channel, dispatch, classify, after_handshake, shake,
  handle_conn,
}

-- The channels that are answered, in order.
abbrev pub answered : List Act → List Act
answered [] = []
answered (serves_control fp ∷ acts) = serves_control fp ∷ answered acts
answered (serves_connect ∷ acts) = serves_connect ∷ answered acts
answered (rejects_channel ∷ acts) = rejects_channel ∷ answered acts
answered (sets_deadline t ∷ acts) = answered acts
answered (clears_deadline ∷ acts) = answered acts
answered (closes ∷ acts) = answered acts

-- The deadline that the connection is left with.
abbrev pub deadline_after : Option ℕ → List Act → Option ℕ
deadline_after now [] = now
deadline_after now (sets_deadline t ∷ acts) = deadline_after (some t) acts
deadline_after now (clears_deadline ∷ acts) = deadline_after none acts
deadline_after now (act ∷ acts) = deadline_after now acts

abbrev pub in_window : ℕ → Option ℕ → Bool
in_window deadline none = false
in_window deadline (some t) = leb t deadline

abbrev pub first_time : List (ℕ × ChannelType) → Option ℕ
first_time [] = none
first_time ((t, kind) ∷ channels) = some t

-- A control channel is served under its peer's fingerprint, a connect channel is served, and a
-- channel of any other type is refused.
abbrev pub answer_to : Bytes → ChannelType → Act
answer_to fp chan_control = serves_control fp
answer_to fp chan_connect = serves_connect
answer_to fp chan_data = rejects_channel
answer_to fp (other text) = rejects_channel

-- There is no list of keys, or it has the key.
abbrev pub lets_in : Option (Bytes → Bool) → Bytes → Bool
lets_in none key = true
lets_in (some has) key = has key

authorizes-lets_in :
    (authorize : Option (Bytes → Bool)) (key : Bytes)
    → lets_in authorize key ≡ authorizes authorize key
authorizes-lets_in none key = refl
authorizes-lets_in (some has) key = refl

-- The key is allowed, and the handshake and the first channel come before the deadline.
abbrev pub is_served : Option (Bytes → Bool) → ℕ → Peer → Bool
is_served authorize deadline peer =
    in_window deadline peer.shakes_at
    && (lets_in authorize peer.key && in_window deadline (first_time peer.channels))

classify-answered :
    (fp : Bytes) (channels : List (ℕ × ChannelType)) (rest : List Act)
    → answered (classify fp none channels ++ rest)
      ≡ map (λ c. answer_to fp c.1) channels ++ answered rest
unfolding classify
classify-answered fp [] rest = refl
classify-answered fp ((t, chan_control) ∷ channels) rest =
    ap (◌∷◌ (serves_control fp)) (classify-answered fp channels rest)
classify-answered fp ((t, chan_connect) ∷ channels) rest =
    ap (◌∷◌ serves_connect) (classify-answered fp channels rest)
classify-answered fp ((t, chan_data) ∷ channels) rest =
    ap (◌∷◌ rejects_channel) (classify-answered fp channels rest)
classify-answered fp ((t, other text) ∷ channels) rest =
    ap (◌∷◌ rejects_channel) (classify-answered fp channels rest)

classify-deadline :
    (fp : Bytes) (channels : List (ℕ × ChannelType)) (rest : List Act)
    → deadline_after none (classify fp none channels ++ rest) ≡ deadline_after none rest
unfolding classify
classify-deadline fp [] rest = refl
classify-deadline fp ((t, chan_control) ∷ channels) rest = classify-deadline fp channels rest
classify-deadline fp ((t, chan_connect) ∷ channels) rest = classify-deadline fp channels rest
classify-deadline fp ((t, chan_data) ∷ channels) rest = classify-deadline fp channels rest
classify-deadline fp ((t, other text) ∷ channels) rest = classify-deadline fp channels rest

-- The acts are those of a peer that is served, or of one that is not.
abbrev Outcome : Bytes → ℕ → List (ℕ × ChannelType) → Bool → List Act → Type 0
Outcome fp deadline channels served acts =
    (answered acts ≡ (if served then map (λ c. answer_to fp c.1) channels else []))
    × (deadline_after (some deadline) acts ≡ (if served then none else some deadline))

channels-Outcome :
    (fp : Bytes) (deadline : ℕ) (channels : List (ℕ × ChannelType))
    → Outcome fp deadline channels
        (in_window deadline (first_time channels))
        (classify fp (some deadline) channels ++ (closes ∷ closes ∷ []))
unfolding classify
channels-Outcome fp deadline [] = (refl, refl)
channels-Outcome fp deadline ((t, kind) ∷ channels) = by_time (leb t deadline) kind
  where
    rest : List Act
    rest = closes ∷ closes ∷ []

    by_time :
        (b : Bool) (k : ChannelType)
        → Outcome fp deadline ((t, k) ∷ channels) b (
            (if b then clears_deadline ∷ dispatch fp k ∷ classify fp none channels else []) ++ rest)
    by_time false k = (refl, refl)
    by_time true chan_control = (
      classify-answered fp ((t, chan_control) ∷ channels) rest ∙ append-nil _,
      classify-deadline fp channels rest,
    )
    by_time true chan_connect = (
      classify-answered fp ((t, chan_connect) ∷ channels) rest ∙ append-nil _,
      classify-deadline fp channels rest,
    )
    by_time true chan_data = (
      classify-answered fp ((t, chan_data) ∷ channels) rest ∙ append-nil _,
      classify-deadline fp channels rest,
    )
    by_time true (other text) = (
      classify-answered fp ((t, other text) ∷ channels) rest ∙ append-nil _,
      classify-deadline fp channels rest,
    )

handshake-Outcome :
    (fingerprint : Bytes → Bytes) (authorize : Option (Bytes → Bool)) (deadline : ℕ) (peer : Peer)
    (shaken : Option ℕ)
    → Outcome
        (fingerprint peer.key)
        deadline
        peer.channels
        (in_window deadline shaken
          && (lets_in authorize peer.key && in_window deadline (first_time peer.channels)))
        (after_handshake deadline peer.channels (shake fingerprint authorize deadline peer shaken))
unfolding public_key_callback
handshake-Outcome fingerprint authorize deadline peer none = (refl, refl)
handshake-Outcome fingerprint authorize deadline peer (some t) =
    rw (authorizes-lets_in authorize peer.key)
      (by_key (leb t deadline) (authorizes authorize peer.key))
  where
    by_key :
        (b allowed : Bool)
        → Outcome
            (fingerprint peer.key)
            deadline
            peer.channels
            (b && (allowed && in_window deadline (first_time peer.channels)))
            (after_handshake deadline peer.channels
              (if b then (if allowed then some (fingerprint peer.key) else none) else none))
    by_key false allowed = (refl, refl)
    by_key true false = (refl, refl)
    by_key true true = channels-Outcome (fingerprint peer.key) deadline peer.channels

-- A peer is served if its key is allowed and its handshake and its first channel come within the
-- timeout: then each of its channels is answered, in order and by its type, under the fingerprint of
-- its key, and the deadline is gone. Any other peer has none of its channels answered and keeps the
-- deadline of the connection's start.
pub peers_served :
    (fingerprint : Bytes → Bytes) (authorize : Option (Bytes → Bool)) (limits : Limits) (now : ℕ)
    (peer : Peer)
    → let deadline = now + limits.handshake_timeout in
      let acts = handle_conn fingerprint authorize limits now peer in
      let served = is_served authorize deadline peer in
      (answered acts
        ≡ (if served then map (λ c. answer_to (fingerprint peer.key) c.1) peer.channels else []))
      × (deadline_after none acts ≡ (if served then none else some deadline))
unfolding handle_conn
peers_served fingerprint authorize limits now peer =
    handshake-Outcome fingerprint authorize (now + limits.handshake_timeout) peer peer.shakes_at
