-- ===== src/Tunnel.antt =====
-- internal/tunnel: the SSH client of the host agent and of the viewer. What `net` and the SSH
-- library do is given by their outcomes; the acts are the calls with an effect, in order.
use remotedesk.Prelude.{
  ℕ, Bool, true, false, List, [], ◌∷◌, Option, none, some, Bytes, if◌then◌else◌,
}
use remotedesk.Wire.{ControlMsg, ConnectRequest, ChannelType}
pub mod Checking
pub mod Host
pub mod Splice
pub mod Viewer
mod Tests

-- How the relay's host key is verified.
pub data KeyCheck : Type 0 where
  -- `ssh.FixedHostKey`, and `ssh.InsecureIgnoreHostKey`.
  fixed : Bytes → KeyCheck
  ignored : KeyCheck

unfoldable pub host_key_callback : Option Bytes → KeyCheck
host_key_callback (some relay_key) = fixed relay_key
host_key_callback none = ignored

-- The handshake under the check that the setting asks for: with a pinned key, that the relay has
-- this key, and with none, no check.
abbrev pub checked : Option Bytes → (KeyCheck → Bool) → Bool
checked (some key) shaken = shaken (fixed key)
checked none shaken = shaken ignored

pub data Act : Type 0 where
  dials : Bytes → Act
  shakes : Bytes → KeyCheck → Act
  opens : ChannelType → Act
  sends : ControlMsg → Act
  requests : ConnectRequest → Act
  closes : Act

-- Whether the connection is open after the acts: the dial that comes first has succeeded.
abbrev pub left_open : Bool → List Act → Bool
left_open now [] = now
left_open now (dials addr ∷ acts) = left_open true acts
left_open now (closes ∷ acts) = left_open false acts
left_open now (act ∷ acts) = left_open now acts
