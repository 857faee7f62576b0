-- ===== src/Config/Others.antt =====
-- `LoadOrCreateSigner`: which files it leaves alone.
use remotedesk.Prelude.{
  ◌≡◌, ◌≢◌, refl, sym, ◌∙◌, Bool, true, false, Option, none, some, Bytes, bytes_eq, bytes_eq_iff,
  lookup, insert, lookup-insert, if◌then◌else◌,
}
use remotedesk.Config.{
  KeyLib, File, Disk, ReadResult, found, missing, broken, read_entry, read_file, WriteOutcome,
  stored, untouched, cut, write_file, persist, on_read, load_or_create_signer,
}

-- The file at any other path is the same, or is missing, on both disks.
abbrev pub OnlyAt : Bytes → Disk → Disk → Type 0
OnlyAt path before after =
    (other : Bytes) → other ≢ path → lookup other after.files ≡ lookup other before.files

insert-OnlyAt :
    (path : Bytes) (file : File) (disk : Disk)
    → OnlyAt path disk (record disk { files = insert path file disk.files })
insert-OnlyAt path file disk other ne =
    lookup-insert path other file disk.files ∙ by_path (bytes_eq path other) refl
  where
    by_path :
        (b : Bool)
        → bytes_eq path other ≡ b
        → (if b then some file else lookup other disk.files) ≡ lookup other disk.files
    by_path true same = absurd (ne (sym ((bytes_eq_iff path other).0 same)))
    by_path false differs = refl

persist-OnlyAt :
    (path signer : Bytes) (pem : Option Bytes) (w : WriteOutcome) (disk : Disk)
    → OnlyAt path disk (persist w path signer pem disk).0
unfolding write_file
persist-OnlyAt path signer none w disk = λ other ne. refl
persist-OnlyAt path signer (some pem) stored disk = insert-OnlyAt path _ disk
persist-OnlyAt path signer (some pem) (cut n) disk = insert-OnlyAt path _ disk
persist-OnlyAt path signer (some pem) untouched disk = λ other ne. refl

on_read-OnlyAt :
    (lib : KeyLib) (fresh : Option Bytes) (w : WriteOutcome) (path : Bytes) (r : ReadResult)
    (disk : Disk)
    → OnlyAt path disk (on_read lib fresh w path r disk).0
on_read-OnlyAt lib fresh w path (found content) disk = λ other ne. refl
on_read-OnlyAt lib fresh w path broken disk = λ other ne. refl
on_read-OnlyAt lib none w path missing disk = λ other ne. refl
on_read-OnlyAt lib (some new) w path missing disk =
    persist-OnlyAt path new (lib.marshal_private new) w disk

pub signer-OnlyAt :
    (lib : KeyLib) (fresh : Option Bytes) (w : WriteOutcome) (path : Bytes) (disk : Disk)
    → OnlyAt path disk (load_or_create_signer lib fresh w path disk).0
unfolding load_or_create_signer
signer-OnlyAt lib fresh w path disk = on_read-OnlyAt lib fresh w path (read_file path disk) disk

-- What can be read is the content of a file that is there.
pub read_file-Held :
    (path text : Bytes) (disk : Disk)
    → read_file path disk ≡ found text
    → (file : File) × (lookup path disk.files ≡ some file)
      × (file.readable ≡ true)
      × (file.content ≡ text)
unfolding read_file
read_file-Held path text disk h = by_entry (disk.searchable path) (lookup path disk.files) refl h
  where
    by_readable :
        (file : File) (b : Bool)
        → file.readable ≡ b
        → (if b then found file.content else broken) ≡ found text
        → (file.readable ≡ true) × (file.content ≡ text)
    by_readable file true e h = (e, cc)
    by_readable file false e h = cc

    by_entry :
        (b : Bool) (entry : Option File)
        → lookup path disk.files ≡ entry
        → (if b then read_entry entry else broken) ≡ found text
        → (file : File) × (lookup path disk.files ≡ some file)
          × (file.readable ≡ true)
          × (file.content ≡ text)
    by_entry true none e h = cc
    by_entry true (some file) e h =
        let (readable, same) = by_readable file file.readable refl h in (file, e, readable, same)
    by_entry false entry e h = cc
