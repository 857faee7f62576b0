-- ===== src/Tray/Systray.antt =====
-- internal/tray/systray.go: the tray icon and its menu. Each lock's critical section is one step.
use remotedesk.Prelude.{
  ℕ, ◌≡◌, refl, Bool, true, false, not, List, [], ◌∷◌, ◌++◌, Option, none, some, Bytes, codes,
  bytes_eq, length, set, get_elem?, if◌then◌else◌,
}
pub mod Clicks
pub mod Titles

-- A menu item's title and whether it is shown; `pending` is a channel's place among the channels
-- of capacity 1 that `Confirm` has made.
pub record SystrayUi : Type 0 where
  pub ready : Bool
  pub id : Bytes
  pub pin : Bytes
  pub id_item : Bytes
  pub pin_item : Bytes
  pub status : Bytes
  pub choices_shown : Bool
  pub tooltip : Bytes
  pub pending : Option ℕ
  pub channels : List (Option Bool)

abbrev pub new_systray : SystrayUi
new_systray = record {
  ready = false;
  id = [];
  pin = [];
  id_item = [];
  pin_item = [];
  status = [];
  choices_shown = false;
  tooltip = [];
  pending = none;
  channels = [];
}

unfoldable pub apply_identity_locked : SystrayUi → SystrayUi
apply_identity_locked s = record s {
  id_item = codes "ID:  " ++ s.id;
  pin_item = codes "PIN: " ++ s.pin;
}

-- The titles of the placeholders end in U+2014.
abbrev dash : Bytes
dash = 0xe2 ∷ 0x80 ∷ 0x94 ∷ []

-- The critical section of `onReady`.
unfoldable pub on_ready : SystrayUi → SystrayUi
unfolding apply_identity_locked
on_ready s =
    let made = record s {
      ready = true;
      id_item = codes "ID: " ++ dash;
      pin_item = codes "PIN: " ++ dash;
      status = codes "Idle";
      choices_shown = false;
      tooltip = codes "remotedesk " ++ (dash ++ codes " waiting for connections");
    } in
    if not (bytes_eq s.id []) then apply_identity_locked made else made

unfoldable pub set_identity : Bytes → Bytes → SystrayUi → SystrayUi
unfolding apply_identity_locked
set_identity id pin s =
    let known = record s { id = id; pin = pin } in
    if s.ready then apply_identity_locked known else known

-- The new channel is pending, and the menu offers the choice.
abbrev pub asked : Bytes → SystrayUi → SystrayUi
asked session s = record s {
  channels = s.channels ++ (none ∷ []);
  pending = some (length s.channels);
  status = codes "Incoming: " ++ session;
  choices_shown = true;
  tooltip = codes "remotedesk " ++ (dash ++ codes " incoming connection");
}

-- `Confirm` up to its wait: the channel it waits on, or none where it answers false at once.
unfoldable pub ask : Bytes → SystrayUi → SystrayUi × Option ℕ
ask session s = if not s.ready then (s, none) else (asked session s, some (length s.channels))

-- The channel that `Confirm` waits on keeps the first value sent: a second send is dropped.
abbrev pub offer : Bool → Option (Option Bool) → Option Bool
offer ok (some (some old)) = some old
offer ok held = some ok

abbrev pub send : Option ℕ → Bool → List (Option Bool) → List (Option Bool)
send none ok channels = channels
send (some c) ok channels = set channels c (offer ok (get_elem? channels c))

unfoldable pub resolve : Bool → SystrayUi → SystrayUi
resolve ok s = record s { pending = none; channels = send s.pending ok s.channels }

unfoldable pub finish_confirm : SystrayUi → SystrayUi
finish_confirm s = record s {
  choices_shown = false;
  status = codes "Idle";
  tooltip = codes "remotedesk " ++ (dash ++ (codes " ID " ++ s.id));
}

-- What the goroutines do to the UI: a click is what the click loop answers to.
pub data Event : Type 0 where
  readies finishes : Event
  identifies : Bytes → Bytes → Event
  clicks : Bool → Event
  begins : Bytes → Event

unfoldable pub step : Event → SystrayUi → SystrayUi
step readies s = on_ready s
step finishes s = finish_confirm s
step (identifies id pin) s = set_identity id pin s
step (clicks ok) s = resolve ok s
step (begins session) s = (ask session s).0

unfoldable pub runs : List Event → SystrayUi → SystrayUi
runs [] s = s
runs (e ∷ es) s = runs es (step e s)

-- The `select`: a value that has come, unless the timeout is chosen.
abbrev pub outcome : Bool → Option (Option Bool) → Bool
outcome false (some (some ok)) = ok
outcome timed_out held = false

-- The end of `Confirm`, with what other goroutines do until then.
abbrev pub await : Bool → SystrayUi → Option ℕ → SystrayUi × Bool
await timed_out s none = (s, false)
await timed_out s (some c) = (finish_confirm s, outcome timed_out (get_elem? s.channels c))

unfoldable pub confirm : Bytes → List Event → Bool → SystrayUi → SystrayUi × Bool
confirm session meanwhile timed_out s =
    let (t, channel) = ask session s in await timed_out (runs meanwhile t) channel
