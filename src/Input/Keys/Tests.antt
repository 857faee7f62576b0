-- ===== src/Input/Keys/Tests.antt =====
-- Runs of the key tables.
use remotedesk.Prelude.{◌≡◌, refl, true, false, [], ◌∷◌, codes, lookup, bytes_eq}
use remotedesk.Input.Keys.{
  special, key_down, key_up, keysym, find, keysym_name, latin_name, name_or, key_name, key_event,
}
use remotedesk.Input.Keys.Resolve.{meant, toggles, keys-toggles}

-- The capital letter and the small one are the same key.
test_letter : key_event 0x41 true ≡ (key_down (codes "a") ∷ [])
unfolding key_event key_name find keysym_name name_or latin_name bytes_eq
test_letter = refl

test_unknown : key_event 0xffe5 true ≡ []
unfolding key_event key_name find keysym_name name_or latin_name bytes_eq
test_unknown = refl

-- A letter beyond ASCII takes two bytes.
test_umlaut : key_name 0xe4 ≡ (0xc3 ∷ 0xa4 ∷ [])
unfolding key_name find keysym_name name_or latin_name
test_umlaut = refl

keys-toggles_example :
    key_event (keysym (special (codes "ArrowLeft"))) false
    ≡ toggles (meant (special (codes "ArrowLeft"))) false
keys-toggles_example = keys-toggles (special (codes "ArrowLeft")) false tt

-- Which is the release of the arrow.
test_arrow : key_event (keysym (special (codes "ArrowLeft"))) false ≡ key_up (codes "left") ∷ []
unfolding keysym key_event key_name find keysym_name name_or latin_name lookup bytes_eq
test_arrow = refl
