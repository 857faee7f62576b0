-- ===== src/Tray/Tests.antt =====
-- The consent prompts, run on concrete inputs.
use remotedesk.Prelude.{
  ◌≡◌, refl, ◌↔◌, ◌⊎◌, Bool, true, false, List, [], ◌∷◌, ◌++◌, Option, none, some, Bytes, codes,
}
use remotedesk.Tray.{ConsoleUi, confirm}
use remotedesk.Tray.Console.{Accepts, confirm_iff}
use remotedesk.Tray.Systray.{
  SystrayUi, Event, readies, finishes, identifies, clicks, begins, runs, new_systray,
}
use remotedesk.Tray.Systray.{confirm as tray_confirm}
use remotedesk.Tray.Systray.Clicks.{first_click, decided, confirm-clicks}
use remotedesk.Tray.Systray.Titles.{Shows, runs-Shows}

abbrev asking : ConsoleUi
asking = record { auto_accept = false }

yes_line : confirm asking (some (codes "  Yes" ++ (13 ∷ 10 ∷ []))) ≡ true
unfolding confirm remotedesk.Tray.is_yes remotedesk.Prelude.trim_left remotedesk.Prelude.trim_right
    remotedesk.Prelude.bytes_eq
yes_line = refl

confirm_iff_example :
    (confirm asking (some (codes "yep")) ≡ true)
    ↔ ((false ≡ true) ⊎ ((line : Bytes) × (some (codes "yep") ≡ some line) × Accepts line))
confirm_iff_example = confirm_iff asking (some (codes "yep"))

-- The tray comes up after the relay has assigned the identity.
abbrev starting : List Event
starting =
    identifies (codes "123456789") (codes "4711")
    ∷ readies
    ∷ begins (codes "s1")
    ∷ clicks true
    ∷ finishes
    ∷ []

abbrev up : SystrayUi
up = record new_systray { ready = true }

confirm-clicks_example :
    (tray_confirm (codes "s1") (finishes ∷ clicks true ∷ clicks false ∷ []) false up).1
    ≡ decided true false (first_click (finishes ∷ clicks true ∷ clicks false ∷ []))
confirm-clicks_example =
    confirm-clicks (codes "s1") (finishes ∷ clicks true ∷ clicks false ∷ []) false up

runs-Shows_example : Shows (runs starting new_systray) (codes "123456789") (codes "4711")
runs-Shows_example = runs-Shows starting refl (λ e. cc)
