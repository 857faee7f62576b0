-- ===== src/Host/Command/Terminal.antt =====
-- The relay, the host agent as its command starts it, and the console together.
use remotedesk.Prelude.{
  ℕ, ◌≡◌, inl, inr, refl, ap, sym, subst, ◌∙◌, Bool, true, false, ◌&&◌, not, List, [], ◌∷◌, map,
  Option, some, Bytes, Any, All, get_elem?, if◌then◌else◌,
}
use remotedesk.Config.{KeyLib, World}
use remotedesk.Relay.{Limits}
use remotedesk.Relay.Connect.{bridged}
use remotedesk.Relay.System.{System, Event, Reach}
use remotedesk.Tray.{ConsoleUi, confirm}
use remotedesk.Tray.Console.{Accepts, confirm_iff}
use remotedesk.Tunnel.Host.{HostConfig, Input, prompts}
use remotedesk.Tunnel.Host.Replies.{is_incoming}
use remotedesk.Tunnel.Host.Consent.{FromHost, SaysYes, AsksNobody, bridged-Allowed}
use remotedesk.Host.Command.{Flags, Ui, console, systray, Agent, runs, new_ui, main}
use remotedesk.Host.Command.Guards.{Guarded, main-Built, host_guards}

-- A message of the relay, and what is read from the terminal if it asks.
abbrev pub Prompted : Type 0
Prompted = Input × Option Bytes

abbrev pub inputs_of : List Prompted → List Input
inputs_of prompted = map (λ p. p.0) prompted

-- The answer is the console's.
abbrev pub AskedOn : ConsoleUi → Prompted → Type 0
AskedOn ui (i, read) = i.says ≡ confirm ui read

-- `OnIncoming` is the `Confirm` of the agent's UI; nothing is said of the tray's.
abbrev pub AskedBy : Ui → Prompted → Type 0
AskedBy (console ui) p = AskedOn ui p
AskedBy systray p = Unit {0}

-- The terminal was asked for the session, and a yes was typed.
abbrev pub TypedYes : Bytes → Prompted → Type 0
TypedYes session (i, read) =
    (is_incoming i.msg.op ≡ true)
    × (i.msg.session ≡ session)
    × ((line : Bytes) × (read ≡ some line) × Accepts line)

typed :
    (ui : ConsoleUi) (session : Bytes) (prompted : List Prompted)
    → ui.auto_accept ≡ false
    → All (AskedOn ui) prompted
    → Any (SaysYes session) (inputs_of prompted)
    → Any (TypedYes session) prompted
typed ui session [] off asked h = absurd h
typed ui session ((i, read) ∷ prompted) off (same, asked) (inl (incoming, for, says)) =
    elim ((confirm_iff ui read).0 (sym same ∙ says)) [
      | inl auto ↦ cc
      | inr line ↦ inl (incoming, for, line)
    ]
typed ui session ((i, read) ∷ prompted) off (same, asked) (inr h) =
    inr (typed ui session prompted off asked h)

not-false : (b : Bool) → b ≡ false → not b ≡ true
not-false true h = cc
not-false false h = refl

-- A guarded agent that is not unattended asks.
and-false : (b : Bool) → (b && false) ≡ false
and-false true = refl
and-false false = refl

prompts_not : (cfg : HostConfig) → cfg.has_prompt ≡ false → prompts cfg ≡ false
prompts_not cfg h = ap (not cfg.unattended &&◌) h ∙ and-false (not cfg.unattended)

asks_someone :
    (flags : Flags) (a : Agent) → Guarded flags a → flags.unattended ≡ false → AsksNobody a.cfg → ⊥
asks_someone flags a g off (inl unattended) = cc (sym g.mode ∙ unattended, off)
asks_someone flags a g off (inr no_prompt) =
    cc (prompts_not a.cfg no_prompt, g.asks, not-false flags.unattended off)

console_ui :
    (flags : Flags)
    → flags.use_tray ≡ false
    → new_ui flags ≡ console (record { auto_accept = flags.unattended })
console_ui flags h =
    ap (λ b. if b then systray else console (record { auto_accept = flags.unattended })) h

-- The command, not told to be unattended or to use the tray, starts an agent on a terminal. Whatever
-- then happens at the relay, in every interleaving: if all that the relay reads on the agent's
-- connection is what the agent sends, and its answers are the console's, a viewer's channel is spliced to
-- this host only if the terminal was asked for that viewer's session and a yes was typed.
pub terminal_consents :
    {limits : Limits} {past : List Event} {sys : System} (lib : KeyLib) (flags : Flags)
    (world : World) (has_screen : Bool) (a : Agent) (i addr : ℕ) (session : Bytes)
    (prompted : List Prompted)
    → (main lib flags world has_screen).1 ≡ runs a
    → flags.unattended ≡ false
    → flags.use_tray ≡ false
    → Reach limits past sys
    → All (FromHost addr a.cfg (inputs_of prompted)) past
    → All (AskedBy a.ui) prompted
    → get_elem? sys.viewers i ≡ some (bridged addr session)
    → Any (TypedYes session) prompted
terminal_consents lib flags world has_screen a i addr session prompted starts off terminal r from
      asked found =
    let built = (main-Built lib flags world has_screen).0 a starts in
    let guarded = (host_guards lib flags world has_screen).0 a starts in
    let ui : ConsoleUi = record { auto_accept = flags.unattended } in
    let is_console : a.ui ≡ console ui =
      ap (λ (x : Agent). x.ui) built.2 ∙ console_ui flags terminal in
    elim (bridged-Allowed i addr session a.cfg (inputs_of prompted) r found from) [
      | inl nobody ↦ absurd (asks_someone flags a guarded off nobody)
      | inr says ↦
          typed ui session prompted off (subst (λ u. All (AskedBy u) prompted) is_console asked)
            says
    ]
