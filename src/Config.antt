-- ===== src/Config.antt =====
-- internal/config/config.go: the keys of an agent, kept in files. The SSH library's parsers are
-- parameters; a signer stands for its private key. The text of a flag is the list of its runes, as
-- `strings.TrimSpace` reads it; for ASCII these are its bytes.
use remotedesk.Prelude.{
  ℕ, ◌≡◌, ◌<◌, Bool, true, false, ◌&&◌, ◌||◌, not, List, [], ◌∷◌, ◌++◌, Option, none, some, Bytes,
  codes, bytes_eq, lookup, insert, take, length, ◌==◌, trim_space, if◌then◌else◌,
}
pub mod Keys
pub mod Others
pub mod Pinning
pub mod Tests

-- `ssh.ParseAuthorizedKey`, with the key and the rest of the data, `ssh.ParsePrivateKey`, and
-- `ssh.MarshalPrivateKey` with `pem.EncodeToMemory`.
pub record KeyLib : Type 0 where
  pub parse_authorized : Bytes → Option (Bytes × Bytes)
  pub parse_private : Bytes → Option Bytes
  pub marshal_private : Bytes → Option Bytes

-- What the SSH library documents: a marshalled key parses to itself, and a parsed line is taken off
-- the data.
pub record Lawful (lib : KeyLib) : Type 0 where
  pub private_back :
      (signer pem : Bytes)
      → lib.marshal_private signer ≡ some pem
      → lib.parse_private pem ≡ some signer
  pub rest_shorter :
      (content key rest : Bytes)
      → lib.parse_authorized content ≡ some (key, rest)
      → length rest < length content

pub record File : Type 0 where
  pub content : Bytes
  pub readable : Bool

-- The files, and whether a path's directory can be searched.
pub record Disk : Type 0 where
  pub files : List (Bytes × File)
  pub searchable : Bytes → Bool

pub data ReadResult : Type 0 where
  found : Bytes → ReadResult
  missing broken : ReadResult

abbrev pub read_entry : Option File → ReadResult
read_entry none = missing
read_entry (some file) = if file.readable then found file.content else broken

-- `os.ReadFile`
unfoldable pub read_file : Bytes → Disk → ReadResult
read_file path disk = if disk.searchable path then read_entry (lookup path disk.files) else broken

-- The outcome of `os.WriteFile`: a failed write may leave a first part of the data.
pub data WriteOutcome : Type 0 where
  stored untouched : WriteOutcome
  cut : ℕ → WriteOutcome

unfoldable pub write_file : WriteOutcome → Bytes → Bytes → Disk → Disk × Bool
write_file stored path content disk = (
  record disk { files = insert path (record { content = content; readable = true }) disk.files },
  true,
)
write_file (cut n) path content disk = (
  record disk {
    files = insert path (record { content = take n content; readable = true }) disk.files;
  },
  false,
)
write_file untouched path content disk = (disk, false)

pub data Failure : Type 0 where
  bad_key unreadable no_key no_encoding no_write : Failure

pub data Loaded : Type 0 where
  signs : Bytes → Loaded
  refuses : Failure → Loaded

abbrev pub parsed : Option Bytes → Loaded
parsed none = refuses bad_key
parsed (some signer) = signs signer

abbrev pub written : Bytes → Disk × Bool → Disk × Loaded
written signer (disk, true) = (disk, signs signer)
written signer (disk, false) = (disk, refuses no_write)

abbrev pub persist : WriteOutcome → Bytes → Bytes → Option Bytes → Disk → Disk × Loaded
persist w path signer none disk = (disk, refuses no_encoding)
persist w path signer (some pem) disk = written signer (write_file w path pem disk)

-- The key that `wire.NewSigner` generates, if it does.
abbrev pub create : KeyLib → Option Bytes → WriteOutcome → Bytes → Disk → Disk × Loaded
create lib none w path disk = (disk, refuses no_key)
create lib (some signer) w path disk = persist w path signer (lib.marshal_private signer) disk

abbrev pub on_read :
    KeyLib → Option Bytes → WriteOutcome → Bytes → ReadResult → Disk → Disk × Loaded
on_read lib fresh w path (found content) disk = (disk, parsed (lib.parse_private content))
on_read lib fresh w path broken disk = (disk, refuses unreadable)
on_read lib fresh w path missing disk = create lib fresh w path disk

unfoldable pub load_or_create_signer :
    KeyLib → Option Bytes → WriteOutcome → Bytes → Disk → Disk × Loaded
load_or_create_signer lib fresh w path disk = on_read lib fresh w path (read_file path disk) disk

-- `Dir`, on what `os.UserConfigDir` gives and whether `os.MkdirAll` succeeds.
unfoldable pub dir : Option Bytes → Bool → Option Bytes
dir none made = none
dir (some base) made = if made then some (base ++ codes "/remotedesk") else none

-- `strings.HasPrefix`
unfoldable pub has_prefix : Bytes → Bytes → Bool
has_prefix s [] = true
has_prefix [] (p ∷ ps) = false
has_prefix (c ∷ s) (p ∷ ps) = c == p && has_prefix s ps

pub data RelayKey : Type 0 where
  unpinned : RelayKey
  pinned : Bytes → RelayKey
  no_file bad_line : RelayKey

abbrev pub parse_line : Option (Bytes × Bytes) → RelayKey
parse_line none = bad_line
parse_line (some (key, rest)) = pinned key

abbrev pub from_file : KeyLib → ReadResult → RelayKey
from_file lib (found content) = parse_line (lib.parse_authorized content)
from_file lib result = no_file

abbrev pub is_inline : Bytes → Bool
is_inline value = has_prefix value (codes "ssh-") || has_prefix value (codes "ecdsa-")

unfoldable pub parse_relay_key : KeyLib → Disk → Bytes → RelayKey
parse_relay_key lib disk value =
    let trimmed = trim_space value in
    if bytes_eq trimmed []
    then unpinned
    else if is_inline trimmed
    then parse_line (lib.parse_authorized trimmed)
    else from_file lib (read_file trimmed disk)

-- The path of a flag, or that of a file in the config directory.
unfoldable pub path_or_default : Bytes → Bytes → Option Bytes → Bool → Option Bytes
unfolding dir
path_or_default path name base made = if bytes_eq path [] then joined (dir base made) else some path
  where
    joined : Option Bytes → Option Bytes
    joined none = none
    joined (some config_dir) = some (config_dir ++ (codes "/" ++ name))

-- What the machine answers at the start of a command: the directory of the configuration, whether it
-- could be made, the disk, a fresh key, and how it is written.
pub record World : Type 0 where
  pub base : Option Bytes
  pub made : Bool
  pub disk : Disk
  pub fresh : Option Bytes
  pub write : WriteOutcome
