-- ===== src/Config/Keys.antt =====
-- `LoadOrCreateSigner`: a key that was handed out once is kept.
use remotedesk.Prelude.{
  ◌≡◌, refl, ap, sym, ◌∙◌, Bool, true, false, Option, none, some, Bytes, bytes_eq, bytes_eq_iff,
  bytes_eq_refl, lookup, insert, lookup-insert, if◌then◌else◌,
}
use remotedesk.Config.{
  KeyLib, Lawful, File, Disk, ReadResult, found, missing, broken, read_entry, read_file,
  WriteOutcome, stored, untouched, cut, write_file, signs, parsed, persist, on_read,
  load_or_create_signer,
}

-- A further call gives the same signer and leaves the disk as it is.
abbrev pub Kept : KeyLib → Bytes → Bytes → Disk → Type 0
Kept lib path signer disk =
    (fresh : Option Bytes) (w : WriteOutcome)
    → load_or_create_signer lib fresh w path disk ≡ (disk, signs signer)

-- The files that the first disk has are the same on the second.
abbrev pub Untouched : Disk → Disk → Type 0
Untouched before after =
    (path : Bytes) (file : File)
    → lookup path before.files ≡ some file
    → lookup path after.files ≡ some file

found-Kept :
    (lib : KeyLib) (path signer content : Bytes) (disk : Disk)
    → read_file path disk ≡ found content
    → lib.parse_private content ≡ some signer
    → Kept lib path signer disk
unfolding load_or_create_signer
found-Kept lib path signer content disk e p fresh w =
    ap (λ r. on_read lib fresh w path r disk) e ∙ ap (λ o. (disk, parsed o)) p

read_back :
    (path content : Bytes) (disk : Disk)
    → disk.searchable path ≡ true
    → read_file path (write_file stored path content disk).0 ≡ found content
unfolding read_file write_file
read_back path content disk e =
    let entry : File = record { content = content; readable = true } in
    rw e (
      ap read_entry (
        lookup-insert path path entry disk.files
        ∙ ap (λ b. if b then some entry else lookup path disk.files) (bytes_eq_refl path)))

signs_inj : {x y : Bytes} → signs x ≡ signs y → x ≡ y
signs_inj h = cc

persist-Kept :
    (lib : KeyLib) (path fresh signer : Bytes) (pem : Option Bytes) (w : WriteOutcome) (disk : Disk)
    → Lawful lib
    → lib.marshal_private fresh ≡ pem
    → disk.searchable path ≡ true
    → (persist w path fresh pem disk).1 ≡ signs signer
    → Kept lib path signer (persist w path fresh pem disk).0
unfolding write_file
persist-Kept lib path fresh signer none w disk laws m at h = cc
persist-Kept lib path fresh signer (some pem) stored disk laws m at h =
    let same : fresh ≡ signer = signs_inj h in
    found-Kept lib path signer pem (write_file stored path pem disk).0 (read_back path pem disk at)
      (laws.private_back fresh pem m ∙ ap some same)
persist-Kept lib path fresh signer (some pem) untouched disk laws m at h = cc
persist-Kept lib path fresh signer (some pem) (cut n) disk laws m at h = cc

missing_searchable :
    (path : Bytes) (disk : Disk) → read_file path disk ≡ missing → disk.searchable path ≡ true
unfolding read_file
missing_searchable path disk h = by_bool (disk.searchable path) h
  where
    by_bool :
        (b : Bool)
        → (if b then read_entry (lookup path disk.files) else broken) ≡ missing
        → b ≡ true
    by_bool true h = refl
    by_bool false h = cc

on_read-Kept :
    (lib : KeyLib) (fresh : Option Bytes) (w : WriteOutcome) (path signer : Bytes) (r : ReadResult)
    (disk : Disk)
    → Lawful lib
    → read_file path disk ≡ r
    → (on_read lib fresh w path r disk).1 ≡ signs signer
    → Kept lib path signer (on_read lib fresh w path r disk).0
on_read-Kept lib fresh w path signer (found content) disk laws e h =
    by_parse (lib.parse_private content) refl h
  where
    by_parse :
        (o : Option Bytes)
        → lib.parse_private content ≡ o
        → parsed o ≡ signs signer
        → Kept lib path signer disk
    by_parse none p h = cc
    by_parse (some s) p h = found-Kept lib path signer content disk e (p ∙ ap some (signs_inj h))
on_read-Kept lib (some new) w path signer missing disk laws e h =
    persist-Kept lib path new signer (lib.marshal_private new) w disk laws refl
      (missing_searchable path disk e) h
on_read-Kept lib none w path signer missing disk laws e h = cc
on_read-Kept lib fresh w path signer broken disk laws e h = cc

insert-Untouched :
    (path : Bytes) (file : File) (disk : Disk)
    → lookup path disk.files ≡ none
    → Untouched disk (record disk { files = insert path file disk.files })
insert-Untouched path file disk h q old e =
    lookup-insert path q file disk.files ∙ by_path (bytes_eq path q) refl
  where
    by_path :
        (b : Bool) → bytes_eq path q ≡ b → (if b then some file else lookup q disk.files) ≡ some old
    by_path true same =
        absurd (no_file (sym h ∙ ap (λ k. lookup k disk.files) ((bytes_eq_iff path q).0 same) ∙ e))
      where
        no_file : none ≡ some old → ⊥
        no_file p = cc
    by_path false differs = e

missing-lookup :
    (path : Bytes) (disk : Disk) → read_file path disk ≡ missing → lookup path disk.files ≡ none
unfolding read_file
missing-lookup path disk h = by_entry (disk.searchable path) (lookup path disk.files) refl h
  where
    by_entry :
        (b : Bool) (entry : Option File)
        → lookup path disk.files ≡ entry
        → (if b then read_entry entry else broken) ≡ missing
        → lookup path disk.files ≡ none
    by_entry b none e h = e
    by_entry false (some file) e h = cc
    by_entry true (some file) e h = absurd (never file.readable h)
      where
        never : (readable : Bool) → (if readable then found file.content else broken) ≡ missing → ⊥
        never true h = cc
        never false h = cc

persist-Untouched :
    (path signer : Bytes) (pem : Option Bytes) (w : WriteOutcome) (disk : Disk)
    → lookup path disk.files ≡ none
    → Untouched disk (persist w path signer pem disk).0
unfolding write_file
persist-Untouched path signer none w disk h = λ q old e. e
persist-Untouched path signer (some pem) stored disk h = insert-Untouched path _ disk h
persist-Untouched path signer (some pem) (cut n) disk h = insert-Untouched path _ disk h
persist-Untouched path signer (some pem) untouched disk h = λ q old e. e

on_read-Untouched :
    (lib : KeyLib) (fresh : Option Bytes) (w : WriteOutcome) (path : Bytes) (r : ReadResult)
    (disk : Disk)
    → read_file path disk ≡ r
    → Untouched disk (on_read lib fresh w path r disk).0
on_read-Untouched lib fresh w path (found content) disk e = λ q old h. h
on_read-Untouched lib fresh w path broken disk e = λ q old h. h
on_read-Untouched lib none w path missing disk e = λ q old h. h
on_read-Untouched lib (some new) w path missing disk e =
    persist-Untouched path new (lib.marshal_private new) w disk (missing-lookup path disk e)

-- A key that was given is given again by every later call, which then writes nothing and needs no new
-- key, if a marshalled key parses to itself. No existing file is changed, whatever fails.
pub signer-Kept :
    (lib : KeyLib) (fresh : Option Bytes) (w : WriteOutcome) (path : Bytes) (disk : Disk)
    → Lawful lib
    → ((signer : Bytes)
        → (load_or_create_signer lib fresh w path disk).1 ≡ signs signer
        → Kept lib path signer (load_or_create_signer lib fresh w path disk).0)
      × Untouched disk (load_or_create_signer lib fresh w path disk).0
unfolding load_or_create_signer
signer-Kept lib fresh w path disk laws = (
  λ signer h. on_read-Kept lib fresh w path signer (read_file path disk) disk laws refl h,
  on_read-Untouched lib fresh w path (read_file path disk) disk refl,
)
