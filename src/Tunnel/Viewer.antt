-- ===== src/Tunnel/Viewer.antt =====
-- internal/tunnel/viewer.go: the viewer's connection, and the local port that forwards to the host.
use remotedesk.Prelude.{
  ℕ, Bool, true, false, not, List, [], ◌∷◌, ◌++◌, map, Option, none, some, Bytes, codes,
  if◌then◌else◌,
}
use remotedesk.Wire.{ConnectRequest}
use remotedesk.Tunnel.{KeyCheck, host_key_callback, Act, dials, shakes, requests, closes}
pub mod Dialling

pub record ViewerConfig : Type 0 where
  pub relay_addr : Bytes
  pub relay_key : Option Bytes
  pub id : Bytes
  pub pin : Bytes

-- The outcomes of `net.Dial`, `ssh.NewClientConn` and `OpenChannel`.
pub record Link : Type 0 where
  pub dialed : Bool
  pub shaken : KeyCheck → Bool
  pub opened : Bool

unfoldable pub dial_viewer : ViewerConfig → Link → List Act × Bool
dial_viewer cfg net =
    let check = host_key_callback cfg.relay_key in
    let dial = dials cfg.relay_addr in
    let shake = shakes (codes "viewer") check in
    if not net.dialed
    then ([], false)
    else if not (net.shaken check)
    then (dial ∷ shake ∷ closes ∷ [], false)
    else (dial ∷ shake ∷ [], true)

abbrev pub request : ViewerConfig → ConnectRequest
request cfg = record { id = cfg.id; pin = cfg.pin }

-- `Dial` on a connection, and whether it gives a stream.
abbrev pub open_stream : ViewerConfig → Bool → List Act × Bool
open_stream cfg true = (requests (request cfg) ∷ [], true)
open_stream cfg false = (requests (request cfg) ∷ closes ∷ [], false)

abbrev pub after_dial : ViewerConfig → Bool → List Act × Bool → List Act × Bool
after_dial cfg opened (acts, false) = (acts, false)
after_dial cfg opened (acts, true) = let (more, ok) = open_stream cfg opened in (acts ++ more, ok)

unfoldable pub dial : ViewerConfig → Link → List Act × Bool
dial cfg net = after_dial cfg net.opened (dial_viewer cfg net)

-- One accepted connection: what is done with the tunnel, and with the connection.
pub data Local : Type 0 where
  tunnels : List Act → Local
  splices closes_local : Local

-- `Stream.Close` closes the channel and the connection behind it.
abbrev pub stream_close : List Act
stream_close = closes ∷ []

-- The goroutine of `LocalForwardListener`, with its deferred calls.
abbrev pub forwarded : List Act × Bool → List Local
forwarded (acts, true) = tunnels acts ∷ splices ∷ tunnels stream_close ∷ closes_local ∷ []
forwarded (acts, false) = tunnels acts ∷ closes_local ∷ []

unfoldable pub forward : ViewerConfig → Link → List Local
forward cfg net = forwarded (dial cfg net)

-- The loop, on the connections that `Accept` gives until it fails: its goroutines. The listener is
-- closed when it returns.
unfoldable pub local_forward_listener : ViewerConfig → List Link → List (List Local)
local_forward_listener cfg [] = []
local_forward_listener cfg (net ∷ links) = forward cfg net ∷ local_forward_listener cfg links
