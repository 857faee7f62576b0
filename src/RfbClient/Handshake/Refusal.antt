-- ===== src/RfbClient/Handshake/Refusal.antt =====
-- A client with a wrong password.
use remotedesk.Prelude.{false, ◌∷◌, ◌++◌, Bytes}
use remotedesk.Rfb.Handshake.{version, security_result}

-- What each side writes up to the refusal.
abbrev pub host_refusal : Bytes → Bytes
host_refusal challenge = version ++ (1 ∷ 2 ∷ (challenge ++ security_result false))

abbrev pub client_attempt : Bytes → Bytes
client_attempt response = version ++ (2 ∷ response)
