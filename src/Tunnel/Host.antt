-- ===== src/Tunnel/Host.antt =====
-- internal/tunnel/host.go: the host agent's registration and its loop over the relay's messages.
use remotedesk.Prelude.{
  ℕ, Bool, true, false, ◌&&◌, ◌||◌, not, List, [], ◌∷◌, ◌++◌, Option, none, some, Bytes, codes,
  if◌then◌else◌,
}
use remotedesk.Wire.{ControlMsg, Op, ChannelType, chan_control, chan_data}
use remotedesk.Tunnel.{KeyCheck, host_key_callback, Act, dials, shakes, opens, sends, closes}
pub mod Connecting
pub mod Consent
pub mod Replies

-- The callbacks are given by whether they are set; what they answer is the environment's.
pub record HostConfig : Type 0 where
  pub relay_addr : Bytes
  pub relay_key : Option Bytes
  pub unattended : Bool
  pub has_handler : Bool
  pub has_prompt : Bool
  pub has_alert : Bool

-- The outcomes of `net.Dial`, `ssh.NewClientConn`, `OpenChannel`, `Encode` and `Decode`.
pub record Link : Type 0 where
  pub dialed : Bool
  pub shaken : KeyCheck → Bool
  pub opened : Bool
  pub sent : Bool
  pub reply : Option ControlMsg

pub data Failure : Type 0 where
  no_dial no_handshake no_channel no_send no_reply : Failure
  unexpected_op : Op → Failure

pub data Connected : Type 0 where
  connected : Bytes → Bytes → Connected
  fails : Failure → Connected

abbrev pub register_msg : HostConfig → ControlMsg
register_msg cfg = record {
  op = Op.register;
  unattended = cfg.unattended;
  id = [];
  pin = [];
  session = [];
  from = [];
  error = [];
}

-- `if msg.Op != wire.OpRegistered`
unfoldable pub registration : Op → ControlMsg → List Act × Connected
registration Op.registered msg = ([], connected msg.id msg.pin)
registration op msg = (closes ∷ [], fails (unexpected_op op))

unfoldable pub await_registration : Option ControlMsg → List Act × Connected
unfolding registration
await_registration none = (closes ∷ [], fails no_reply)
await_registration (some msg) = registration msg.op msg

-- After an act of the function, the acts of its rest.
abbrev pub after : List Act → List Act × Connected → List Act × Connected
after acts (later, res) = (acts ++ later, res)

unfoldable pub connect : HostConfig → Link → List Act × Connected
unfolding await_registration
connect cfg net =
    let check = host_key_callback cfg.relay_key in
    let dial = dials cfg.relay_addr in
    let shake = shakes (codes "host") check in
    let control = opens chan_control in
    let register = sends (register_msg cfg) in
    if not net.dialed
    then ([], fails no_dial)
    else if not (net.shaken check)
    then (dial ∷ shake ∷ closes ∷ [], fails no_handshake)
    else if not net.opened
    then (dial ∷ shake ∷ control ∷ closes ∷ [], fails no_channel)
    else if not net.sent
    then (dial ∷ shake ∷ control ∷ register ∷ closes ∷ [], fails no_send)
    else after (dial ∷ shake ∷ control ∷ register ∷ []) (await_registration net.reply)

-- One message of the relay: what `OnIncoming` answers if it is called, and whether the reply is
-- delivered.
pub record Input : Type 0 where
  pub msg : ControlMsg
  pub says : Bool
  pub delivered : Bool

pub data Deed : Type 0 where
  asks : Bytes → Deed
  replies : ControlMsg → Deed
  alerts logs : Bytes → Deed

-- `!h.cfg.Unattended && h.cfg.OnIncoming != nil`
abbrev pub prompts : HostConfig → Bool
prompts cfg = not cfg.unattended && cfg.has_prompt

abbrev pub reply_op : Bool → Op
reply_op true = Op.accept
reply_op false = Op.reject

abbrev pub reply_msg : Bool → Bytes → ControlMsg
reply_msg ok session = record {
  op = reply_op ok;
  unattended = false;
  id = [];
  pin = [];
  session = session;
  from = [];
  error = [];
}

-- What the host says to a session.
abbrev pub consents : HostConfig → Bool → Bool
consents cfg says = if prompts cfg then says else true

-- `case wire.OpIncoming`, up to the reply, and whether the loop goes on.
on_incoming : HostConfig → Input → List Deed × Bool
on_incoming cfg i =
    let session = i.msg.session in
    let asked = if prompts cfg then asks session ∷ [] else [] in
    if i.delivered
    then (asked ++ (replies (reply_msg (consents cfg i.says) session) ∷ []), true)
    else (asked, false)

unfoldable pub on_message : HostConfig → Op → Input → List Deed × Bool
unfolding on_incoming
on_message cfg Op.incoming i = on_incoming cfg i
on_message cfg Op.alert i =
    ((if cfg.has_alert then alerts i.msg.error else logs i.msg.error) ∷ [], true)
on_message cfg op i = ([], true)

-- `Serve`, on what `Decode` gives until it fails. The loop ends where a reply is not delivered.
unfoldable pub serve : HostConfig → List Input → List Deed
serve cfg [] = []
serve cfg (i ∷ inputs) =
    let (deeds, goes_on) = on_message cfg i.msg.op i in
    let later = serve cfg inputs in if goes_on then deeds ++ later else deeds

-- The kinds of `acceptData`'s answer to a channel, and the outcomes of `Accept` and `net.Dial`.
pub data Bridge : Type 0 where
  refused dropped handled unreachable forwarded : Bridge

unfoldable pub handle_data : HostConfig → Bool → Bool → Bridge
handle_data cfg accepted reached =
    if not accepted
    then dropped
    else if cfg.has_handler
    then handled
    else if reached
    then forwarded
    else unreachable

unfoldable pub accept_data : HostConfig → ChannelType → Bool → Bool → Bridge
accept_data cfg chan_data accepted reached = handle_data cfg accepted reached
accept_data cfg kind accepted reached = refused
