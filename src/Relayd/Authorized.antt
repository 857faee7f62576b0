-- ===== src/Relayd/Authorized.antt =====
-- `loadAuthorizedKeys`: who may connect.
use remotedesk.Prelude.{
  ℕ, zero, suc, ◌≡◌, ◌≢◌, ◌≤◌, ◌<◌, ◌↔◌, ◌⊎◌, inl, inr, refl, ap, sym, ◌∙◌, Bool, true, false, ◌||◌,
  List, [], ◌∷◌, Option, none, some, Bytes, Any, bytes_eq, bytes_eq_iff, lookup, insert,
  lookup-insert, lookup-nil, length, arith, if◌then◌else◌,
}
use remotedesk.Config.{KeyLib, Lawful, Disk, ReadResult, found, missing, broken, read_file}
use remotedesk.Relayd.{collect, is_allowed, predicate, from_read, load_authorized_keys}

-- The keys that a text yields: one after the other, up to its end or to what does not parse.
pub data Yields (lib : KeyLib) : Bytes → List Bytes → Type 0 where
  at_end : Yields lib [] []
  stops : {text : Bytes} → lib.parse_authorized text ≡ none → Yields lib text []
  takes :
      {text key rest : Bytes} {keys : List Bytes}
      → length text ≢ 0
      → lib.parse_authorized text ≡ some (key, rest)
      → Yields lib rest keys
      → Yields lib text (key ∷ keys)

abbrev has : Bytes → List (Bytes × Bool) → Bool
has key allowed = is_allowed (lookup key allowed)

has-insert :
    (key other : Bytes) (allowed : List (Bytes × Bool))
    → has other (insert key true allowed) ≡ bytes_eq key other || has other allowed
has-insert key other allowed =
    ap is_allowed (lookup-insert key other true allowed) ∙ by_key (bytes_eq key other)
  where
    by_key :
        (b : Bool)
        → is_allowed (if b then some true else lookup other allowed) ≡ b || has other allowed
    by_key true = refl
    by_key false = refl

insert-Any :
    (key other : Bytes) (keys : List Bytes) (allowed : List (Bytes × Bool)) (x : Bool)
    → (x ≡ true) ↔ (Any (λ k. k ≡ other) keys ⊎ (has other (insert key true allowed) ≡ true))
    → (x ≡ true) ↔ (Any (λ k. k ≡ other) (key ∷ keys) ⊎ (has other allowed ≡ true))
insert-Any key other keys allowed x (to, from) = (
  λ e. elim (to e) [
    | inl later ↦ inl (inr later)
    | inr now ↦ by_key (bytes_eq key other) refl (sym (has-insert key other allowed) ∙ now)
  ],
  λ h. elim h [
    | inl (inl same) ↦ from (
        inr (
          has-insert key other allowed
          ∙ ap (λ b. b || has other allowed) ((bytes_eq_iff key other).1 same)))
    | inl (inr later) ↦ from (inl later)
    | inr old ↦ from (inr (has-insert key other allowed ∙ or_right (bytes_eq key other) old))
  ],
)
  where
    by_key :
        (b : Bool)
        → bytes_eq key other ≡ b
        → (b || has other allowed) ≡ true
        → Any (λ k. k ≡ other) (key ∷ keys) ⊎ (has other allowed ≡ true)
    by_key true e h = inl (inl ((bytes_eq_iff key other).0 e))
    by_key false e h = inr h

    or_right : (b : Bool) → has other allowed ≡ true → (b || has other allowed) ≡ true
    or_right true h = refl
    or_right false h = h

collect-none :
    (lib : KeyLib) (n c : ℕ) (text : Bytes) (allowed : List (Bytes × Bool))
    → lib.parse_authorized (c ∷ text) ≡ none
    → collect lib (suc n) (c ∷ text) allowed ≡ allowed
unfolding collect
collect-none lib n c text allowed e = rw (e, collect) refl

collect-some :
    (lib : KeyLib) (n c : ℕ) (text : Bytes) (allowed : List (Bytes × Bool)) (key rest : Bytes)
    → lib.parse_authorized (c ∷ text) ≡ some (key, rest)
    → collect lib (suc n) (c ∷ text) allowed ≡ collect lib n rest (insert key true allowed)
unfolding collect
collect-some lib n c text allowed key rest e = rw (e, collect) refl

-- The map after the loop, for a text that yields some keys.
abbrev Collected : KeyLib → ℕ → Bytes → List (Bytes × Bool) → List Bytes → Type 0
Collected lib n text allowed keys =
    Yields lib text keys
    × (keys ≡ [] → collect lib n text allowed ≡ allowed)
    × ((key : Bytes)
        → (has key (collect lib n text allowed) ≡ true)
          ↔ (Any (λ k. k ≡ key) keys ⊎ (has key allowed ≡ true)))

collect-Collected :
    (lib : KeyLib) (n : ℕ) (text : Bytes) (allowed : List (Bytes × Bool))
    → Lawful lib
    → length text ≤ n
    → (keys : List Bytes) × Collected lib n text allowed keys
unfolding collect
collect-Collected lib n [] allowed laws h = ([], (at_end, (λ e. unchanged n), by_fuel n))
  where
    unchanged : (n : ℕ) → collect lib n [] allowed ≡ allowed
    unchanged zero = refl
    unchanged (suc n) = refl

    by_fuel :
        (n : ℕ) (key : Bytes)
        → (has key (collect lib n [] allowed) ≡ true)
          ↔ (Any (λ k. k ≡ key) [] ⊎ (has key allowed ≡ true))
    by_fuel zero key = ((λ e. inr e), λ e. elim e [ inl x ↦ absurd x | inr y ↦ y ])
    by_fuel (suc n) key = ((λ e. inr e), λ e. elim e [ inl x ↦ absurd x | inr y ↦ y ])
collect-Collected lib zero (c ∷ text) allowed laws h = absurd (omega arith)
collect-Collected lib (suc n) (c ∷ text) allowed laws h =
    by_parse (lib.parse_authorized (c ∷ text)) refl (λ key rest shorter.
      collect-Collected lib n rest (insert key true allowed) laws (omega arith))
  where
    by_parse :
        (o : Option (Bytes × Bytes))
        → lib.parse_authorized (c ∷ text) ≡ o
        → ((key rest : Bytes)
            → length rest < length (c ∷ text)
            → (keys : List Bytes) × Collected lib n rest (insert key true allowed) keys)
        → (keys : List Bytes) × Collected lib (suc n) (c ∷ text) allowed keys
    by_parse none e more = (
      [],
      (
        stops e,
        (λ same. collect-none lib n c text allowed e),
        λ key.
            rw (collect-none lib n c text allowed e)
              ((λ x. inr x), λ x. elim x [ inl y ↦ absurd y | inr y ↦ y ]),
      ),
    )
    by_parse (some (key, rest)) e more =
        let (keys, (yields, unchanged, says)) =
          more key rest (laws.rest_shorter (c ∷ text) key rest e) in
        (
          key ∷ keys,
          (
            takes (omega arith) e yields,
            (λ same. cc),
            λ other.
                rw (collect-some lib n c text allowed key rest e)
                  (insert-Any key other keys allowed _ (says other)),
          ),
        )

-- The predicate is that of the keys.
abbrev pub Decides : Option (Bytes → Bool) → List Bytes → Type 0
Decides none keys = keys ≡ []
Decides (some authorize) keys =
    (keys ≢ []) × ((key : Bytes) → (authorize key ≡ true) ↔ Any (λ k. k ≡ key) keys)

nothing-false : (key : Bytes) → has key [] ≡ true → ⊥
nothing-false key h = cc (ap is_allowed (lookup-nil {V = Bool} key), h)

predicate-Decides :
    (allowed : List (Bytes × Bool)) (keys : List Bytes)
    → (keys ≡ [] → allowed ≡ [])
    → ((key : Bytes) → (has key allowed ≡ true) ↔ (Any (λ k. k ≡ key) keys ⊎ (has key [] ≡ true)))
    → Decides (predicate allowed) keys
predicate-Decides [] [] empty h = refl
predicate-Decides [] (key ∷ keys) empty h = absurd (nothing-false key ((h key).1 (inl (inl refl))))
predicate-Decides (entry ∷ allowed) keys empty h = (
  (λ e. cc (empty e)),
  λ key. (
    λ e. elim ((h key).0 e) [ inl there ↦ there | inr never ↦ absurd (nothing-false key never) ],
    λ there. (h key).1 (inl there),
  ),
)

abbrev pub Loads : KeyLib → Option (Bytes → Bool) → ReadResult → Type 0
Loads lib result (found text) = (keys : List Bytes) × Yields lib text keys × Decides result keys
Loads lib result missing = result ≡ none
Loads lib result broken = result ≡ none

from_read-Loads : (lib : KeyLib) (r : ReadResult) → Lawful lib → Loads lib (from_read lib r) r
from_read-Loads lib missing laws = refl
from_read-Loads lib broken laws = refl
from_read-Loads lib (found text) laws =
    let (keys, (yields, unchanged, says)) =
      collect-Collected lib (length text) text [] laws (omega arith) in
    (keys, yields, predicate-Decides (collect lib (length text) text []) keys unchanged says)

-- The keys that may connect are those that the file's text yields, up to its end or to what does not
-- parse, if each parsed line is taken off the text. A file that cannot be read and a file without a
-- key are errors.
pub authorized_keys_load :
    (lib : KeyLib) (disk : Disk) (path : Bytes)
    → Lawful lib
    → Loads lib (load_authorized_keys lib disk path) (read_file path disk)
unfolding load_authorized_keys
authorized_keys_load lib disk path laws = from_read-Loads lib (read_file path disk) laws
