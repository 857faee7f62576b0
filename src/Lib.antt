-- ===== src/Lib.antt =====
-- remotedesk: a remote desktop over an SSH relay. A host agent keeps a control channel to the
-- relay, which gives it a connection ID and a PIN. A viewer sends both to the relay, which checks
-- the PIN, asks the host's user for consent, and splices the viewer's channel to one it opens to
-- the host. RFB (VNC) runs inside that channel.
--
-- The files, and the code that each one models:
-- - Prelude: the names of the library that the other modules use, Boolean tests, lists over the
--   native numbers, byte strings and association lists.
-- - Id (internal/id/id.go): `NewID` is `new_id`, `NewPIN` is `new_pin`, `randDigits` is
--   `rand_digits`.
-- - Wire (internal/wire/wire.go): the messages of the control channel and the viewer's request.
-- - Relay (internal/relay/relay.go): the state of `Server` and `hostReg`. Its children are
--   Relay.Auth (`authenticate`), Relay.Registry (`register`, `unregister`, `send`), Relay.Consent
--   (`awaitConsent`, `resolve`), Relay.Connect (`serveConnect`), Relay.Control (`serveControl`),
--   Relay.Accept (the loop of `Serve`), Relay.Handle (`serverConfig`, `handleConn`), Relay.Splice
--   (`splice`, and the deferred closing of the two channels), and Relay.System, where
--   the goroutines of `handleConn` run in any interleaving. Relay.Store and Relay.Change say what
--   each operation may write.
-- - Input (internal/input/input.go): `PointerEvent` is `pointer_event`. Input.Keys has the
--   tables of internal/input/keysym.go and cmd/viewer/keymap.go.
-- - Tunnel (internal/tunnel): Tunnel.Host is host.go (`Connect`, `Serve`, `acceptData`),
--   Tunnel.Viewer is viewer.go (`Dial`, `LocalForwardListener`) and Tunnel.Splice the `splice` of
--   common.go. Tunnel.Host.Consent puts the host's loop and the relay together.
-- - Tray (internal/tray): the console's `Confirm`, and Tray.Systray for systray.go.
-- - Config (internal/config/config.go): `LoadOrCreateSigner`, `ParseRelayKey`, `Dir`.
-- - Relayd (cmd/relayd/main.go): `loadAuthorizedKeys` and `main`.
-- - Host (cmd/host/main.go): `serveWithReconnect`; Host.Command is `main` and `serveLocal`, and
--   Host.Command.Terminal puts the command, its console, its agent and the relay together.
-- - Window (cmd/viewer/game.go): `Update` and the pull loop; Window.Command is `main` of
--   cmd/viewer/main.go. Window.Drives follows an input from the window to the host's robot.
-- - BigEndian: the words of `encoding/binary`. Stream: reading from and writing to a connection.
-- - Rfb (internal/rfb): the frames and `pixelFormat`. Its children are Rfb.Format (`write`, `read`)
--   and Rfb.Pixel (`encodeRectInto`) for pixel.go, Rfb.Diff (`dirtyRects`, `tileDiffers`) for
--   diff.go, Rfb.Session (`loop` and the messages it reads and writes) for server.go, and Rfb.Auth
--   (`checkVNCAuth`, and the client's `vncAuthResponse`) for auth.go. Rfb.Handshake is `handshake` of
--   server.go.
-- - RfbClient (internal/rfbclient): the messages that the viewer sends. Its children are
--   RfbClient.Decode (`readFramebufferUpdate` and what it calls), RfbClient.Run (`Run`),
--   RfbClient.Handshake (`handshake`, `doSecurity`), RfbClient.Dialogue and RfbClient.Unfailing, where
--   the server reads the client's messages, and RfbClient.Run.Mirror, where each side reads the other's.
--
-- How the code corresponds: a struct is a record, an error or a panic is `none`, and code that
-- mutates a struct takes it and returns it. A `*hostReg` that goroutines share is an index of
-- `Server.regs`, and a Go channel of capacity 1 is an index of `Server.results`. A goroutine is
-- cut where it blocks, and a step of Relay.System is what one goroutine does between two such
-- points; the mutexes of the source guard what a step writes. Times are numbers of nanoseconds.
-- What a library or the operating system does (`net.Dial`, the SSH handshake, a parser of keys, a
-- file, a click) is an argument: an outcome, a function, or an event in a list. In the two splices a
-- pending `Read` of a closed channel ends only by such an event, its failure: closing an SSH channel
-- sends a message, and the peer's answer ends the read. The acts of a
-- function with effects are listed in their order; a deferred call stands where it is run.
-- A byte stream is a list of bytes, which ends where the peer disconnects. A frame is its bounds,
-- its stride and the byte at each offset. Random numbers, the clock, and the success of the relay's
-- writes to a control channel are arguments. So is the point at which the writing of an update fails;
-- the writes of the two RFB handshakes succeed.
--
-- Bounds: the decimal digits of `v` are taken in `suc v` rounds, which are enough since each one
-- divides by ten; the loop of `register` runs on the list of the random draws, and a theorem says
-- how many of them are enough. The counters of the source are `int` and have no limit here;
-- `authenticate` resets the failures when they come to `max_pin_attempts`.
--
-- The loops over tiles run once per tile, which covers the frame. The loop of the RFB server takes
-- one environment per message, and that of the client one unit of fuel; `n` updates need `n + 1`.
--
-- The loop over the authorized keys runs on the length of the file, which is enough if each parsed
-- line is taken off it.
--
-- Not modelled: the SSH protocol itself, the text of JSON and of log lines, the drawing of the window
-- and of the tray's menu, the screen capture (calls of a platform library), the version string, and
-- the key generation of `wire.NewSigner`. They are calls of libraries, or have no logic.
pub mod BigEndian
pub mod Config
pub mod Host
pub mod Id
pub mod Input
pub mod Prelude
pub mod Relay
pub mod Relayd
pub mod Rfb
pub mod RfbClient
pub mod Stream
pub mod Tray
pub mod Tunnel
pub mod Window
pub mod Wire
