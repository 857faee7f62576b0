-- ===== src/Config/Tests.antt =====
-- Keys and pins on a small disk.
use remotedesk.Prelude.{
  ℕ, ◌≡◌, ◌↔◌, ◌<◌, refl, ap, sym, subst, ◌∙◌, Bool, true, false, List, [], ◌∷◌, ◌++◌, Option, none,
  some, Bytes, codes, Spaces, length, arith,
}
use remotedesk.Config.{
  KeyLib, Lawful, Disk, WriteOutcome, stored, cut, signs, load_or_create_signer, RelayKey, unpinned,
  pinned, parse_relay_key,
}
use remotedesk.Config.Keys.{Kept, Untouched, signer-Kept}
use remotedesk.Config.Pinning.{Names, parse_relay_key_pins}
pub mod Library
use remotedesk.Config.Tests.Library.{lib, lib-Lawful}

abbrev empty : Disk
empty = record { files = []; searchable = λ path. true }

abbrev path : Bytes
path = codes "host_key"

abbrev filled : Disk
filled = (load_or_create_signer lib (some (codes "me")) stored path empty).0

created : (load_or_create_signer lib (some (codes "me")) stored path empty).1 ≡ signs (codes "me")
unfolding load_or_create_signer remotedesk.Config.read_file remotedesk.Config.write_file
    remotedesk.Prelude.lookup
created = refl

signer-Kept_example :
    ((signer : Bytes)
      → (load_or_create_signer lib (some (codes "me")) stored path empty).1 ≡ signs signer
      → Kept lib path signer filled)
    × Untouched empty filled
signer-Kept_example = signer-Kept lib (some (codes "me")) stored path empty lib-Lawful

parse_relay_key_pins_example :
    ((parse_relay_key lib empty (codes " ssh-x ") ≡ unpinned) ↔ Spaces (codes " ssh-x "))
    × ((key : Bytes)
        → parse_relay_key lib empty (codes " ssh-x ") ≡ pinned key
        → Names lib empty (codes " ssh-x ") key)
parse_relay_key_pins_example = parse_relay_key_pins lib empty (codes " ssh-x ")
