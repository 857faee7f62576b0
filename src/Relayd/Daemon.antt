-- ===== src/Relayd/Daemon.antt =====
-- `main`: what the relay serves with.
use remotedesk.Prelude.{
  ◌≡◌, ◌≢◌, Any, ◌↔◌, ◌⊎◌, inl, inr, refl, ap, sym, Bool, true, false, not, List, [], Option, none,
  some, Bytes, bytes_eq, bytes_eq_iff, ne_of_bytes_eq, subst, codes, lookup, if◌then◌else◌,
}
use remotedesk.Config.{
  KeyLib, Lawful, Disk, World, Loaded, signs, refuses, ReadResult, read_file, load_or_create_signer,
  path_or_default, File,
}
use remotedesk.Config.Keys.{Untouched, signer-Kept}
use remotedesk.Config.Others.{OnlyAt, signer-OnlyAt, read_file-Held}
use remotedesk.Relayd.{
  Flags, Setup, prints_version, serves, load_authorized_keys, listening, restricted, authorized,
  with_path, main,
}
use remotedesk.Relayd.Authorized.{Yields, Loads, Decides, authorized_keys_load}

-- The keys that the file of a path has on a disk, which is not none of them.
abbrev pub KeysOf : KeyLib → Bytes → Disk → List Bytes → Type 0
KeysOf lib path disk keys =
    (file : File) × (lookup path disk.files ≡ some file)
    × (file.readable ≡ true)
    × Yields lib file.content keys
    × (keys ≢ [])

-- The predicate lets in exactly the keys of the file.
abbrev pub Restricts : KeyLib → Bytes → Disk → Setup → Type 0
Restricts lib auth_keys disk setup =
    (keys : List Bytes) × (authorize : Bytes → Bool) × (setup.authorize ≡ some authorize)
    × KeysOf lib auth_keys disk keys
    × ((key : Bytes) → (authorize key ≡ true) ↔ Any (λ k. k ≡ key) keys)

-- The keys that the served relay lets in: all of them without a file, and otherwise those of the file.
abbrev pub Chosen : KeyLib → Bytes → Disk → Setup → Type 0
Chosen lib auth_keys disk setup =
    ((auth_keys ≡ []) × (setup.authorize ≡ none))
    ⊎ ((auth_keys ≢ []) × Restricts lib auth_keys disk setup)

-- On a disk where no file was changed, and none was added but the relay's own key.
abbrev pub LetsIn : KeyLib → Flags → World → Setup → Type 0
LetsIn lib flags world setup =
    (path : Bytes) × (disk : Disk) × (path_or_default flags.key_path (codes "relay_host_key")
        world.base world.made
      ≡ some path)
    × Untouched world.disk disk
    × OnlyAt path world.disk disk
    × Chosen lib flags.auth_keys disk setup

serves_inj : {x y : Setup} → serves x ≡ serves y → x ≡ y
serves_inj h = cc

listening-serves :
    (listens : Bool) (new setup : Setup) → listening listens new ≡ serves setup → new ≡ setup
listening-serves true new setup h = serves_inj h
listening-serves false new setup h = cc

-- A predicate stands for some keys.
loaded-keys :
    (lib : KeyLib) (r : ReadResult) (o : Option (Bytes → Bool)) (authorize : Bytes → Bool)
    → o ≡ some authorize
    → Loads lib o r
    → (text : Bytes) × (keys : List Bytes) × (r ≡ ReadResult.found text)
      × Yields lib text keys
      × (keys ≢ [])
      × ((key : Bytes) → (authorize key ≡ true) ↔ Any (λ k. k ≡ key) keys)
loaded-keys lib ReadResult.missing o authorize e h = cc
loaded-keys lib ReadResult.broken o authorize e h = cc
loaded-keys lib (ReadResult.found text) o authorize e (keys, yields, decides) =
    let (some_keys, says) = subst (λ x. Decides x keys) e decides in
    (text, keys, refl, yields, some_keys, says)

restricted-Chosen :
    (lib : KeyLib) (flags : Flags) (listens : Bool) (signer : Bytes) (disk : Disk)
    (o result : Option (Bytes → Bool)) (setup : Setup)
    → flags.auth_keys ≢ []
    → o ≡ result
    → Loads lib o (read_file flags.auth_keys disk)
    → restricted listens signer flags.options result ≡ serves setup
    → Chosen lib flags.auth_keys disk setup
restricted-Chosen lib flags listens signer disk o none setup ne e loads h = cc
restricted-Chosen lib flags listens signer disk o (some authorize) setup ne e loads h =
    let (text, keys, read, yields, some_keys, decides) = loaded-keys lib _ o authorize e loads in
    let (file, at, readable, same_text) = read_file-Held flags.auth_keys text disk read in
    let same =
      listening-serves listens
        (record { signer = signer; authorize = some authorize; options = flags.options }) setup h in
    let authorizes : setup.authorize ≡ some authorize =
      sym (ap (λ (s : Setup). s.authorize) same) in
    let of_file : Yields lib file.content keys =
      subst (λ t. Yields lib t keys) (sym same_text) yields in
    inr (ne, (keys, authorize, authorizes, (file, at, readable, of_file, some_keys), decides))

authorized-Chosen :
    (lib : KeyLib) (flags : Flags) (listens : Bool) (disk : Disk) (loaded : Loaded) (setup : Setup)
    → Lawful lib
    → authorized lib flags listens (disk, loaded) ≡ serves setup
    → Chosen lib flags.auth_keys disk setup
authorized-Chosen lib flags listens disk (refuses failure) setup laws h = cc
authorized-Chosen lib flags listens disk (signs signer) setup laws h =
    by_flag (bytes_eq flags.auth_keys []) refl h
  where
    open_to_all : Setup
    open_to_all = record { signer = signer; authorize = none; options = flags.options }

    by_flag :
        (b : Bool)
        → bytes_eq flags.auth_keys [] ≡ b
        → (if not b
            then restricted listens signer flags.options
                (load_authorized_keys lib disk flags.auth_keys)
            else listening listens open_to_all)
          ≡ serves setup
        → Chosen lib flags.auth_keys disk setup
    by_flag true e h = inl (
      (bytes_eq_iff flags.auth_keys []).0 e,
      sym (ap (λ (s : Setup). s.authorize) (listening-serves listens open_to_all setup h)),
    )
    by_flag false e h =
        restricted-Chosen lib flags listens signer disk
          (load_authorized_keys lib disk flags.auth_keys) _ setup
          (ne_of_bytes_eq flags.auth_keys [] e) refl
          (authorized_keys_load lib disk flags.auth_keys laws) h

with_path-LetsIn :
    (lib : KeyLib) (flags : Flags) (world : World) (listens : Bool) (path : Option Bytes)
    (setup : Setup)
    → Lawful lib
    → path_or_default flags.key_path (codes "relay_host_key") world.base world.made ≡ path
    → with_path lib flags world listens path ≡ serves setup
    → LetsIn lib flags world setup
with_path-LetsIn lib flags world listens none setup laws from h = cc
with_path-LetsIn lib flags world listens (some path) setup laws from h =
    let (disk, loaded) = load_or_create_signer lib world.fresh world.write path world.disk in
    (
      path,
      disk,
      from,
      (signer-Kept lib world.fresh world.write path world.disk laws).1,
      signer-OnlyAt lib world.fresh world.write path world.disk,
      authorized-Chosen lib flags listens disk loaded setup laws h,
    )

-- A relay that comes up lets in every key if its command names no file, and otherwise exactly the keys
-- that the text of this file yields, up to its end or to what does not parse: the file is there, can be
-- read and has at least one key. Until then no file was changed, and none was added but the relay's own
-- key. Each parsed line is taken off the text.
pub relay-LetsIn :
    (lib : KeyLib) (flags : Flags) (world : World) (listens : Bool) (setup : Setup)
    → Lawful lib
    → main lib flags world listens ≡ serves setup
    → LetsIn lib flags world setup
unfolding main
relay-LetsIn lib flags world listens setup laws h = by_flag flags.show_version h
  where
    path : Option Bytes
    path = path_or_default flags.key_path (codes "relay_host_key") world.base world.made

    by_flag :
        (b : Bool)
        → (if b then prints_version else with_path lib flags world listens path) ≡ serves setup
        → LetsIn lib flags world setup
    by_flag true h = cc
    by_flag false h = with_path-LetsIn lib flags world listens path setup laws refl h
