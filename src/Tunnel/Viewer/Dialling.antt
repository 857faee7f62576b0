-- ===== src/Tunnel/Viewer/Dialling.antt =====
-- What the viewer tells whom, and that it leaves nothing open.
use remotedesk.Prelude.{
  ◌≡◌, refl, Bool, true, false, ◌&&◌, not, List, [], ◌∷◌, codes, if◌then◌else◌,
}
use remotedesk.Wire.{ConnectRequest}
use remotedesk.Tunnel.Checking.{host_key_callback-checked}
use remotedesk.Tunnel.{
  host_key_callback, checked, Act, dials, shakes, opens, sends, requests, closes, left_open,
}
use remotedesk.Tunnel.Viewer.{
  ViewerConfig, Link, dial_viewer, after_dial, dial, Local, tunnels, splices, closes_local,
  forwarded, forward, local_forward_listener,
}

-- The requests that leave the viewer.
abbrev pub told : List Act → List ConnectRequest
told [] = []
told (requests req ∷ acts) = req ∷ told acts
told (dials addr ∷ acts) = told acts
told (shakes user check ∷ acts) = told acts
told (opens kind ∷ acts) = told acts
told (sends msg ∷ acts) = told acts
told (closes ∷ acts) = told acts

-- The ID and the PIN of the configuration.
abbrev pub wanted : ViewerConfig → ConnectRequest
wanted cfg = record { id = cfg.id; pin = cfg.pin }

-- The relay's key is the pinned one, or none is pinned.
abbrev pub trusted : ViewerConfig → Link → Bool
trusted cfg net = net.dialed && checked cfg.relay_key net.shaken

abbrev Outcome : ViewerConfig → Bool → Bool → List Act × Bool → Type 0
Outcome cfg trust opened (acts, ok) =
    (ok ≡ trust && opened)
    × (left_open false acts ≡ ok)
    × (told acts ≡ (if trust then wanted cfg ∷ [] else []))

dial-Outcome :
    (cfg : ViewerConfig) (net : Link) → Outcome cfg (trusted cfg net) net.opened (dial cfg net)
unfolding dial dial_viewer
dial-Outcome cfg net =
    rw (host_key_callback-checked cfg.relay_key net.shaken)
      (by_cases net.dialed (net.shaken (host_key_callback cfg.relay_key)) net.opened)
  where
    acts : Bool → Bool → List Act × Bool
    acts dialed shaken =
        let check = host_key_callback cfg.relay_key in
        let dial = dials cfg.relay_addr in
        let shake = shakes (codes "viewer") check in
        if not dialed
        then ([], false)
        else if not shaken
        then (dial ∷ shake ∷ closes ∷ [], false)
        else (dial ∷ shake ∷ [], true)

    by_cases :
        (dialed shaken opened : Bool)
        → Outcome cfg (dialed && shaken) opened (after_dial cfg opened (acts dialed shaken))
    by_cases false shaken opened = (refl, refl, refl)
    by_cases true false opened = (refl, refl, refl)
    by_cases true true true = (refl, refl, refl)
    by_cases true true false = (refl, refl, refl)

-- The viewer sends the ID and the PIN in one request, and only to a relay that it has reached and
-- whose host key is the pinned one, if one is pinned. It has a stream if the relay then opens the
-- channel, and otherwise leaves no connection open.
pub dial_tells :
    (cfg : ViewerConfig) (net : Link)
    → ((dial cfg net).1 ≡ trusted cfg net && net.opened)
      × (left_open false (dial cfg net).0 ≡ (dial cfg net).1)
      × (told (dial cfg net).0 ≡ (if trusted cfg net then wanted cfg ∷ [] else []))
dial_tells cfg net = dial-Outcome cfg net

-- What the goroutine has open of the tunnel.
abbrev pub tunnel_open : Bool → List Local → Bool
tunnel_open now [] = now
tunnel_open now (tunnels acts ∷ rest) = tunnel_open (left_open now acts) rest
tunnel_open now (splices ∷ rest) = tunnel_open now rest
tunnel_open now (closes_local ∷ rest) = tunnel_open now rest

-- Whether the accepted connection is open.
abbrev pub local_open : List Local → Bool
local_open [] = true
local_open (closes_local ∷ rest) = false
local_open (tunnels acts ∷ rest) = local_open rest
local_open (splices ∷ rest) = local_open rest

abbrev pub spliced : List Local → Bool
spliced [] = false
spliced (splices ∷ rest) = true
spliced (tunnels acts ∷ rest) = spliced rest
spliced (closes_local ∷ rest) = spliced rest

-- The goroutine's end, for a connection.
abbrev pub Finished : ViewerConfig → Link → List Local → Type 0
Finished cfg net acts =
    (spliced acts ≡ trusted cfg net && net.opened)
    × (tunnel_open false acts ≡ false)
    × (local_open acts ≡ false)

abbrev pub AllFinished : ViewerConfig → List Link → List (List Local) → Type 0
AllFinished cfg [] [] = Unit {0}
AllFinished cfg (net ∷ links) (acts ∷ more) = Finished cfg net acts × AllFinished cfg links more
AllFinished cfg links more = ⊥

forwarded-Finished :
    (cfg : ViewerConfig) (net : Link) (acts : List Act) (ok : Bool)
    → ok ≡ trusted cfg net && net.opened
    → left_open false acts ≡ ok
    → Finished cfg net (forwarded (acts, ok))
forwarded-Finished cfg net acts true e h = (e, refl, refl)
forwarded-Finished cfg net acts false e h = (e, h, refl)

-- Each connection to the forwarded port gets one goroutine, in the order of the connections. It
-- splices its connection to a stream of its own if the tunnel comes up, and in every case ends with
-- the tunnel and the connection closed.
pub forwards_finish :
    (cfg : ViewerConfig) (links : List Link)
    → AllFinished cfg links (local_forward_listener cfg links)
unfolding local_forward_listener forward
forwards_finish cfg [] = tt
forwards_finish cfg (net ∷ links) =
    let (e, h, told_it) = dial_tells cfg net in
    (forwarded-Finished cfg net (dial cfg net).0 (dial cfg net).1 e h, forwards_finish cfg links)
