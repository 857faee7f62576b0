-- ===== src/Tunnel/Checking.antt =====
-- `hostKeyCallback`: which check of the relay's host key it sets.
use remotedesk.Prelude.{◌≡◌, refl, Bool, Option, none, some, Bytes}
use remotedesk.Tunnel.{KeyCheck, host_key_callback, checked}

pub host_key_callback-checked :
    (relay_key : Option Bytes) (shaken : KeyCheck → Bool)
    → checked relay_key shaken ≡ shaken (host_key_callback relay_key)
unfolding host_key_callback
host_key_callback-checked (some key) shaken = refl
host_key_callback-checked none shaken = refl
