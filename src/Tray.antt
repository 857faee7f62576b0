-- ===== src/Tray.antt =====
-- internal/tray/tray.go: the console, which asks for consent on the terminal.
use remotedesk.Prelude.{
  trim_space, ℕ, ◌+◌, ◌*◌, Bool, true, false, ◌&&◌, ◌||◌, List, [], ◌∷◌, map, Option, none, some,
  Bytes, codes, bytes_eq, leb, ◌==◌, if◌then◌else◌,
}
pub mod Console
pub mod Systray
mod Tests

-- In nanoseconds.
abbrev pub confirm_timeout : ℕ
confirm_timeout = 45 * 1_000_000_000

pub record ConsoleUi : Type 0 where
  pub auto_accept : Bool

-- `unicode.ToLower` where it is the letter y, e or s: only A to Z become a letter of ASCII that is
-- not k or i.
abbrev pub to_lower : ℕ → ℕ
to_lower c = if leb 65 c && leb c 90 then c + 32 else c

unfoldable pub is_yes : Bytes → Bool
is_yes line =
    let ans = map to_lower (trim_space line) in
    bytes_eq ans (codes "y") || bytes_eq ans (codes "yes")

-- What `ReadString('\n')` gives: a failure is a refusal.
abbrev pub is_answered : Option Bytes → Bool
is_answered none = false
is_answered (some line) = is_yes line

unfoldable pub confirm : ConsoleUi → Option Bytes → Bool
confirm ui read = if ui.auto_accept then true else is_answered read
