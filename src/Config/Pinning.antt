-- ===== src/Config/Pinning.antt =====
-- `ParseRelayKey`: what the flag pins.
use remotedesk.Prelude.{
  ◌≡◌, ◌↔◌, ◌⊎◌, inl, inr, refl, ap, sym, subst, ◌∙◌, Bool, true, false, [], ◌++◌, Option, none,
  some, Bytes, bytes_eq, bytes_eq_iff, All-append, Spaces, trim_space, trim_space_cut,
  trim_space-Spaces, if◌then◌else◌,
}
use remotedesk.Config.{
  KeyLib, Disk, ReadResult, found, missing, broken, read_file, RelayKey, unpinned, pinned,
  parse_line, from_file, is_inline, parse_relay_key,
}

-- The key stands in a line: the value itself or the file that it names.
abbrev pub Names : KeyLib → Disk → Bytes → Bytes → Type 0
Names lib disk value key =
    (line rest : Bytes) × ((line ≡ trim_space value)
      ⊎ (read_file (trim_space value) disk ≡ found line))
    × (lib.parse_authorized line ≡ some (key, rest))

blank-Spaces : (s : Bytes) → trim_space s ≡ [] → Spaces s
blank-Spaces s e =
    let (before, behind, h, k, p) = trim_space_cut s in
    subst Spaces (sym (p ∙ ap (λ t. before ++ (t ++ behind)) e)) (All-append _ before behind h k)

line_key :
    (lib : KeyLib) (line key : Bytes) (o : Option (Bytes × Bytes))
    → lib.parse_authorized line ≡ o
    → parse_line o ≡ pinned key
    → (rest : Bytes) × (lib.parse_authorized line ≡ some (key, rest))
line_key lib line key none e h = cc
line_key lib line key (some (k, rest)) e h = (rest, e ∙ ap (λ x. some (x, rest)) (pinned_inj h))
  where
    pinned_inj : {x y : Bytes} → pinned x ≡ pinned y → x ≡ y
    pinned_inj h = cc

line_pins : (o : Option (Bytes × Bytes)) → parse_line o ≡ unpinned → ⊥
line_pins none h = cc
line_pins (some (k, rest)) h = cc

file_pins : (lib : KeyLib) (r : ReadResult) → from_file lib r ≡ unpinned → ⊥
file_pins lib (found line) h = line_pins (lib.parse_authorized line) h
file_pins lib missing h = cc
file_pins lib broken h = cc

-- The result for a value that is not blank.
abbrev given : KeyLib → Disk → Bytes → Bool → RelayKey
given lib disk trimmed inline =
    if inline
    then parse_line (lib.parse_authorized trimmed)
    else from_file lib (read_file trimmed disk)

given_pins :
    (lib : KeyLib) (disk : Disk) (trimmed : Bytes) (inline : Bool)
    → given lib disk trimmed inline ≡ unpinned
    → ⊥
given_pins lib disk trimmed true h = line_pins (lib.parse_authorized trimmed) h
given_pins lib disk trimmed false h = file_pins lib (read_file trimmed disk) h

file-Names :
    (lib : KeyLib) (disk : Disk) (value key : Bytes) (r : ReadResult)
    → read_file (trim_space value) disk ≡ r
    → from_file lib r ≡ pinned key
    → Names lib disk value key
file-Names lib disk value key (found line) e h =
    let (rest, p) = line_key lib line key (lib.parse_authorized line) refl h in
    (line, rest, inr e, p)
file-Names lib disk value key missing e h = cc
file-Names lib disk value key broken e h = cc

given-Names :
    (lib : KeyLib) (disk : Disk) (value key : Bytes) (inline : Bool)
    → given lib disk (trim_space value) inline ≡ pinned key
    → Names lib disk value key
given-Names lib disk value key true h =
    let (rest, p) =
      line_key lib (trim_space value) key (lib.parse_authorized (trim_space value)) refl h in
    (trim_space value, rest, inl refl, p)
given-Names lib disk value key false h =
    file-Names lib disk value key (read_file (trim_space value) disk) refl h

-- The relay's key goes unchecked only for a flag that is blank: any other value pins a key or is an
-- error. A pinned key is the one of the line that the flag holds, or of the file that it names.
pub parse_relay_key_pins :
    (lib : KeyLib) (disk : Disk) (value : Bytes)
    → ((parse_relay_key lib disk value ≡ unpinned) ↔ Spaces value)
      × ((key : Bytes) → parse_relay_key lib disk value ≡ pinned key → Names lib disk value key)
unfolding parse_relay_key
parse_relay_key_pins lib disk value = by_blank (bytes_eq (trim_space value) []) refl
  where
    by_blank :
        (b : Bool)
        → bytes_eq (trim_space value) [] ≡ b
        → (((if b
                then unpinned
                else given lib disk (trim_space value) (is_inline (trim_space value)))
              ≡ unpinned)
            ↔ Spaces value)
          × ((key : Bytes)
              → (if b
                  then unpinned
                  else given lib disk (trim_space value) (is_inline (trim_space value)))
                ≡ pinned key
              → Names lib disk value key)
    by_blank true e = (
      (λ h. blank-Spaces value ((bytes_eq_iff (trim_space value) []).0 e), λ h. refl),
      λ key h. cc,
    )
    by_blank false e = (
      (
        λ h. absurd (given_pins lib disk (trim_space value) (is_inline (trim_space value)) h),
        λ h. cc (e, (bytes_eq_iff (trim_space value) []).1 (trim_space-Spaces value h)),
      ),
      λ key h. given-Names lib disk value key (is_inline (trim_space value)) h,
    )
