-- ===== src/Relay/Handle.antt =====
-- `serverConfig` and `handleConn` of internal/relay/relay.go: who is let in, for how long a peer may
-- do nothing, and how its channels are told apart.
use remotedesk.Prelude.{
  ℕ, ◌+◌, ◌≤◌, Bool, true, false, ◌&&◌, List, [], ◌∷◌, ◌++◌, Option, none, some, Bytes, leb,
  if◌then◌else◌,
}
use remotedesk.Wire.{ChannelType, chan_control, chan_connect, chan_data, other}
use remotedesk.Relay.{Limits}
pub mod Peers

-- `s.authorize == nil || s.authorize(key)`
abbrev pub authorizes : Option (Bytes → Bool) → Bytes → Bool
authorizes none key = true
authorizes (some authorize) key = authorize key

-- `PublicKeyCallback`: the permissions hold the fingerprint, which the SSH library computes.
unfoldable pub public_key_callback : (Bytes → Bytes) → Option (Bytes → Bool) → Bytes → Option Bytes
public_key_callback fingerprint authorize key =
    if authorizes authorize key then some (fingerprint key) else none

-- What a peer does: the key of its handshake, if it comes that far, and the times of its channels.
pub record Peer : Type 0 where
  pub key : Bytes
  pub shakes_at : Option ℕ
  pub channels : List (ℕ × ChannelType)

pub data Act : Type 0 where
  sets_deadline : ℕ → Act
  clears_deadline closes : Act
  -- `serveControl`, until the control channel closes, and `serveConnect` in a goroutine.
  serves_control : Bytes → Act
  serves_connect rejects_channel : Act

abbrev pub dispatch : Bytes → ChannelType → Act
dispatch fp chan_control = serves_control fp
dispatch fp chan_connect = serves_connect
dispatch fp kind = rejects_channel

-- An open deadline ends the connection, so that no channel comes after it.
abbrev pub in_time : Option ℕ → ℕ → Bool
in_time none t = true
in_time (some deadline) t = leb t deadline

-- The loop: the first channel of any type clears the deadline.
unfoldable pub classify : Bytes → Option ℕ → List (ℕ × ChannelType) → List Act
classify fp deadline [] = []
classify fp none ((t, kind) ∷ channels) = dispatch fp kind ∷ classify fp none channels
classify fp (some deadline) ((t, kind) ∷ channels) =
    let later = classify fp none channels in
    if in_time (some deadline) t then clears_deadline ∷ dispatch fp kind ∷ later else []

abbrev pub after_handshake : ℕ → List (ℕ × ChannelType) → Option Bytes → List Act
after_handshake deadline channels none = closes ∷ []
after_handshake deadline channels (some fp) =
    classify fp (some deadline) channels ++ (closes ∷ closes ∷ [])

abbrev pub shake : (Bytes → Bytes) → Option (Bytes → Bool) → ℕ → Peer → Option ℕ → Option Bytes
shake fingerprint authorize deadline peer none = none
shake fingerprint authorize deadline peer (some t) =
    if leb t deadline then public_key_callback fingerprint authorize peer.key else none

-- `handleConn`, from its start at `now`. Its deferred calls close the SSH connection and the socket.
unfoldable pub handle_conn : (Bytes → Bytes) → Option (Bytes → Bool) → Limits → ℕ → Peer → List Act
handle_conn fingerprint authorize limits now peer =
    let deadline = now + limits.handshake_timeout in
    sets_deadline deadline
    ∷ after_handshake deadline peer.channels
        (shake fingerprint authorize deadline peer peer.shakes_at)
