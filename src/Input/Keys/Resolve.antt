-- ===== src/Input/Keys/Resolve.antt =====
-- The viewer's keys at the host.
use remotedesk.Prelude.{
  ℕ, suc, ◌+◌, ◌<◌, ◌≡◌, refl, ap, subst, ◌∙◌, if◌then◌else◌, Bool, true, false, ◌&&◌, not, List,
  [], ◌∷◌, Option, none, some, Bytes, codes, bytes_eq, bytes_eq_iff, lookup, all_below,
  all_below_holds, ltb, arith,
}
use remotedesk.Id.{decimal, decimal_loop}
use remotedesk.Input.Keys.{
  Key, letter, digit, function, special, find, keysym_name, latin_name, name_or, key_name,
  special_keys, or_zero, keysym, KeyAction, key_down, key_up, key_event,
}

-- The key of the host that stands for a special key of the viewer, by its name.
abbrev pub special_meant : List (Bytes × Bytes)
special_meant =
    (codes "Space", codes "space")
    ∷ (codes "Enter", codes "enter")
    ∷ (codes "Backspace", codes "backspace")
    ∷ (codes "Tab", codes "tab")
    ∷ (codes "Escape", codes "esc")
    ∷ (codes "Delete", codes "delete")
    ∷ (codes "Insert", codes "insert")
    ∷ (codes "Home", codes "home")
    ∷ (codes "End", codes "end")
    ∷ (codes "PageUp", codes "pageup")
    ∷ (codes "PageDown", codes "pagedown")
    ∷ (codes "ArrowLeft", codes "left")
    ∷ (codes "ArrowUp", codes "up")
    ∷ (codes "ArrowRight", codes "right")
    ∷ (codes "ArrowDown", codes "down")
    ∷ (codes "ShiftLeft", codes "shift")
    ∷ (codes "ShiftRight", codes "shift")
    ∷ (codes "ControlLeft", codes "ctrl")
    ∷ (codes "ControlRight", codes "ctrl")
    ∷ (codes "AltLeft", codes "alt")
    ∷ (codes "AltRight", codes "alt")
    ∷ (codes "MetaLeft", codes "cmd")
    ∷ (codes "MetaRight", codes "cmd")
    ∷ (codes "Minus", codes "-")
    ∷ (codes "Equal", codes "=")
    ∷ (codes "BracketLeft", codes "[")
    ∷ (codes "BracketRight", codes "]")
    ∷ (codes "Backslash", 92 ∷ [])
    ∷ (codes "Semicolon", codes ";")
    ∷ (codes "Quote", codes "'")
    ∷ (codes "Comma", codes ",")
    ∷ (codes "Period", codes ".")
    ∷ (codes "Slash", codes "/")
    ∷ (codes "Backquote", codes "`")
    ∷ []

-- The key that a person means: a letter and a digit are themselves, the function keys are f1 to f12.
-- Other special keys have no meaning at the host.
abbrev pub meant : Key → Option Bytes
meant (letter n) = some ((b'a' + n) ∷ [])
meant (digit n) = some ((b'0' + n) ∷ [])
meant (function n) = some (b'f' ∷ decimal (suc n))
meant (special name) = lookup name special_meant

abbrev pub toggles : Option Bytes → Bool → List KeyAction
toggles none is_down = []
toggles (some name) true = key_down name ∷ []
toggles (some name) false = key_up name ∷ []

-- The keys that exist.
abbrev pub Exists : Key → Type 0
Exists (letter n) = n < 26
Exists (digit n) = n < 10
Exists (function n) = n < 12
Exists (special name) = Unit {0}

letters : all_below 26 (λ n. bytes_eq (key_name (0x61 + n)) ((b'a' + n) ∷ [])) ≡ true
unfolding all_below key_name find keysym_name name_or latin_name bytes_eq
letters = refl

digits : all_below 10 (λ n. bytes_eq (key_name (0x30 + n)) ((b'0' + n) ∷ [])) ≡ true
unfolding all_below key_name find keysym_name name_or latin_name bytes_eq
digits = refl

functions : all_below 12 (λ n. bytes_eq (key_name (0xffbe + n)) (b'f' ∷ decimal (suc n))) ≡ true
unfolding all_below key_name find keysym_name name_or latin_name bytes_eq decimal decimal_loop
functions = refl

-- Two texts that a table shows to be the same, from a row of a table.
from_table :
    (n bound : ℕ) (f g : ℕ → Bytes)
    → all_below bound (λ x. bytes_eq (f x) (g x)) ≡ true
    → n < bound
    → f n ≡ g n
from_table n bound f g h lt =
    (bytes_eq_iff (f n) (g n)).0 (all_below_holds bound (λ x. bytes_eq (f x) (g x)) n h lt)

-- Row by row, two tables have the same keys, and each keysym has the name that is meant and fits.
agree : List (Bytes × ℕ) → List (Bytes × Bytes) → Bool
agree [] [] = true
agree ((key, v) ∷ rows) ((other, name) ∷ names) =
    bytes_eq key other
    && (bytes_eq (key_name v) name
        && (not (bytes_eq name []) && (ltb v 0x100000000 && agree rows names)))
agree rows names = false

specials_agree : agree special_keys special_meant ≡ true
unfolding agree special_keys key_name find keysym_name name_or latin_name bytes_eq
specials_agree = refl

-- The keysym has the name that is meant, or there is none of either.
abbrev Named : ℕ → Option Bytes → Type 0
Named v none = v ≡ 0
Named v (some name) = (key_name v ≡ name) × (bytes_eq name [] ≡ false) × (v < 0x100000000)

both : (a b : Bool) → (a && b) ≡ true → (a ≡ true) × (b ≡ true)
both true b h = (refl, h)
both false b h = cc

below : (v : ℕ) → ltb v 0x100000000 ≡ true → v < 0x100000000
below v h = ground arith

not-true : (b : Bool) → not b ≡ true → b ≡ false
not-true false h = refl
not-true true h = cc

row-Named :
    (hit : Bool) (v : ℕ) (name : Bytes) (o : Option ℕ) (m : Option Bytes)
    → Named v (some name)
    → Named (or_zero o) m
    → Named (or_zero (if hit then some v else o)) (if hit then some name else m)
unfolding or_zero
row-Named true v name o m h k = h
row-Named false v name o m h k = k

lookup-Named :
    (key : Bytes) (rows : List (Bytes × ℕ)) (names : List (Bytes × Bytes))
    → agree rows names ≡ true
    → Named (or_zero (lookup key rows)) (lookup key names)
unfolding agree lookup or_zero
lookup-Named key [] [] h = refl
lookup-Named key [] (n ∷ names) h = cc
lookup-Named key (r ∷ rows) [] h = cc
lookup-Named key ((row, v) ∷ rows) ((other, name) ∷ names) h =
    let (same, h1) = both _ _ h in
    let (named, h2) = both _ _ h1 in
    let (full, h3) = both _ _ h2 in
    let (fits, later) = both _ _ h3 in
    subst
      (λ q.
        Named (or_zero (if bytes_eq row key then some v else lookup key rows))
          (if bytes_eq q key then some name else lookup key names))
      ((bytes_eq_iff row other).0 same)
      (row-Named (bytes_eq row key) v name (lookup key rows) (lookup key names)
        ((bytes_eq_iff (key_name v) name).0 named, not-true (bytes_eq name []) full, below v fits)
        (lookup-Named key rows names later))

key-Named : (k : Key) → Exists k → Named (keysym k) (meant k)
unfolding keysym bytes_eq
key-Named (letter n) h =
    (from_table n 26 (λ x. key_name (0x61 + x)) (λ x. (b'a' + x) ∷ []) letters h, refl, omega arith)
key-Named (digit n) h =
    (from_table n 10 (λ x. key_name (0x30 + x)) (λ x. (b'0' + x) ∷ []) digits h, refl, omega arith)
key-Named (function n) h = (
  from_table n 12 (λ x. key_name (0xffbe + x)) (λ x. b'f' ∷ decimal (suc x)) functions h,
  refl,
  omega arith,
)
key-Named (special name) h = lookup-Named name special_keys special_meant specials_agree

pub key_event-zero : (is_down : Bool) → key_event 0 is_down ≡ []
unfolding key_event key_name find keysym_name name_or latin_name bytes_eq
key_event-zero is_down = refl

Named-fits : (v : ℕ) (m : Option Bytes) → Named v m → v < 0x100000000
Named-fits v none h = omega (arith, h)
Named-fits v (some name) (named, full, fits) = fits

Named-toggles :
    (v : ℕ) (m : Option Bytes) (is_down : Bool)
    → Named v m
    → key_event v is_down ≡ toggles m is_down
unfolding key_event
Named-toggles v none is_down h = ap (λ x. key_event x is_down) h ∙ key_event-zero is_down
Named-toggles v (some name) true (named, full, fits) = rw named (rw full refl)
Named-toggles v (some name) false (named, full, fits) = rw named (rw full refl)

pub keysym_fits : (k : Key) → Exists k → keysym k < 0x100000000
keysym_fits k h = Named-fits (keysym k) (meant k) (key-Named k h)

-- For every key that exists, the keysym that the viewer sends makes the host press, or release, the
-- key that the person means: a letter or a digit by its own name, a function key by f and its number,
-- and each of 34 special keys by its name at the host. The host does nothing for any other key.
pub keys-toggles :
    (k : Key) (is_down : Bool) → Exists k → key_event (keysym k) is_down ≡ toggles (meant k) is_down
keys-toggles k is_down h = Named-toggles (keysym k) (meant k) is_down (key-Named k h)
