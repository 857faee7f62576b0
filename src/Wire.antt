-- ===== src/Wire.antt =====
-- internal/wire/wire.go: the messages that ride inside SSH channels. A message is the value that
-- `encoding/json` decodes; an `op` that none of the constants names is `unknown`.
use remotedesk.Prelude.{Bool, Bytes}

pub data Op : Type 0 where
  register registered incoming accept reject alert error : Op
  unknown : Bytes → Op

pub record ControlMsg : Type 0 where
  pub op : Op
  pub unattended : Bool
  pub id : Bytes
  pub pin : Bytes
  pub session : Bytes
  pub from : Bytes
  pub error : Bytes

pub record ConnectRequest : Type 0 where
  pub id : Bytes
  pub pin : Bytes

-- The channel types that a peer may open.
pub data ChannelType : Type 0 where
  chan_control chan_connect chan_data : ChannelType
  other : Bytes → ChannelType
