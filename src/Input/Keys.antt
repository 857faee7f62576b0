-- ===== src/Input/Keys.antt =====
-- internal/input/keysym.go and `KeyEvent` of internal/input/input.go, and the viewer's key map in
-- cmd/viewer/keymap.go. The calls of `robotgo.KeyToggle` are a list of actions.
use remotedesk.Prelude.{
  ℕ, ◌+◌, ◌*◌, ◌/◌, ◌%◌, Bool, true, false, ◌&&◌, List, [], ◌∷◌, Option, none, some, Bytes, codes,
  lookup, bytes_eq, leb, ltb, ◌==◌, if◌then◌else◌,
}
pub mod Resolve
mod Tests

-- `m[k]` of a map literal.
unfoldable pub find {ℓ} : {A : Type ℓ} → ℕ → List (ℕ × A) → Option A
find k [] = none
find k ((j, v) ∷ entries) = let later = find k entries in if k == j then some v else later

unfoldable pub keysym_name : List (ℕ × Bytes)
keysym_name =
    (0xff08, codes "backspace")
    ∷ (0xff09, codes "tab")
    ∷ (0xff0d, codes "enter")
    ∷ (0xff1b, codes "esc")
    ∷ (0xff63, codes "insert")
    ∷ (0xffff, codes "delete")
    ∷ (0xff50, codes "home")
    ∷ (0xff57, codes "end")
    ∷ (0xff55, codes "pageup")
    ∷ (0xff56, codes "pagedown")
    ∷ (0xff51, codes "left")
    ∷ (0xff52, codes "up")
    ∷ (0xff53, codes "right")
    ∷ (0xff54, codes "down")
    ∷ (0xffe1, codes "shift")
    ∷ (0xffe2, codes "shift")
    ∷ (0xffe3, codes "ctrl")
    ∷ (0xffe4, codes "ctrl")
    ∷ (0xffe9, codes "alt")
    ∷ (0xffea, codes "alt")
    ∷ (0xffeb, codes "cmd")
    ∷ (0xffec, codes "cmd")
    ∷ (0xffbe, codes "f1")
    ∷ (0xffbf, codes "f2")
    ∷ (0xffc0, codes "f3")
    ∷ (0xffc1, codes "f4")
    ∷ (0xffc2, codes "f5")
    ∷ (0xffc3, codes "f6")
    ∷ (0xffc4, codes "f7")
    ∷ (0xffc5, codes "f8")
    ∷ (0xffc6, codes "f9")
    ∷ (0xffc7, codes "f10")
    ∷ (0xffc8, codes "f11")
    ∷ (0xffc9, codes "f12")
    ∷ (0x0020, codes "space")
    ∷ []

-- `string(r)` of a rune below 0x100, in UTF-8.
abbrev pub rune_text : ℕ → Bytes
rune_text r = if ltb r 0x80 then r ∷ [] else (0xc0 + r / 64) ∷ (0x80 + r % 64) ∷ []

-- `r += 'a' - 'A'`
abbrev pub lower : ℕ → ℕ
lower r = if leb b'A' r && leb r b'Z' then r + 32 else r

unfoldable pub latin_name : ℕ → Bytes
latin_name keysym = if leb 0x21 keysym && leb keysym 0xff then rune_text (lower keysym) else []

unfoldable pub name_or : Option Bytes → ℕ → Bytes
name_or (some name) keysym = name
name_or none keysym = latin_name keysym

unfoldable pub key_name : ℕ → Bytes
key_name keysym = name_or (find keysym keysym_name) keysym

-- `robotgo.KeyToggle(name, "down")` and `robotgo.KeyToggle(name, "up")`.
pub data KeyAction : Type 0 where
  key_down key_up : Bytes → KeyAction

unfoldable pub key_event : ℕ → Bool → List KeyAction
key_event keysym is_down =
    let name = key_name keysym in
    if bytes_eq name [] then [] else if is_down then key_down name ∷ [] else key_up name ∷ []

-- A key of `ebiten`, whose letters, digits and function keys are numbered in order. `special` has
-- the constant's name without its prefix.
pub data Key : Type 0 where
  letter digit function : ℕ → Key
  special : Bytes → Key

unfoldable pub special_keys : List (Bytes × ℕ)
special_keys =
    (codes "Space", 0x20)
    ∷ (codes "Enter", 0xff0d)
    ∷ (codes "Backspace", 0xff08)
    ∷ (codes "Tab", 0xff09)
    ∷ (codes "Escape", 0xff1b)
    ∷ (codes "Delete", 0xffff)
    ∷ (codes "Insert", 0xff63)
    ∷ (codes "Home", 0xff50)
    ∷ (codes "End", 0xff57)
    ∷ (codes "PageUp", 0xff55)
    ∷ (codes "PageDown", 0xff56)
    ∷ (codes "ArrowLeft", 0xff51)
    ∷ (codes "ArrowUp", 0xff52)
    ∷ (codes "ArrowRight", 0xff53)
    ∷ (codes "ArrowDown", 0xff54)
    ∷ (codes "ShiftLeft", 0xffe1)
    ∷ (codes "ShiftRight", 0xffe2)
    ∷ (codes "ControlLeft", 0xffe3)
    ∷ (codes "ControlRight", 0xffe4)
    ∷ (codes "AltLeft", 0xffe9)
    ∷ (codes "AltRight", 0xffea)
    ∷ (codes "MetaLeft", 0xffeb)
    ∷ (codes "MetaRight", 0xffec)
    ∷ (codes "Minus", 0x2d)
    ∷ (codes "Equal", 0x3d)
    ∷ (codes "BracketLeft", 0x5b)
    ∷ (codes "BracketRight", 0x5d)
    ∷ (codes "Backslash", 0x5c)
    ∷ (codes "Semicolon", 0x3b)
    ∷ (codes "Quote", 0x27)
    ∷ (codes "Comma", 0x2c)
    ∷ (codes "Period", 0x2e)
    ∷ (codes "Slash", 0x2f)
    ∷ (codes "Backquote", 0x60)
    ∷ []

unfoldable pub or_zero : Option ℕ → ℕ
or_zero none = 0
or_zero (some v) = v

unfoldable pub keysym : Key → ℕ
unfolding or_zero special_keys
keysym (letter n) = 0x61 + n
keysym (digit n) = 0x30 + n
keysym (function n) = 0xffbe + n
keysym (special name) = or_zero (lookup name special_keys)
