-- ===== src/Tray/Console.antt =====
-- `ConsoleUI.Confirm`: the lines that accept.
use remotedesk.Prelude.{
  is_space, trim_space, Spaces, Solid, trim_space-padded, trim_space_cut, ℕ, ◌≡◌, subst, refl, ap,
  ◌∙◌, ◌⊎◌, ◌↔◌, inl, inr, Bool, true, false, [], ◌∷◌, ◌++◌, map, Option, none, some, Bytes, codes,
  bytes_eq_iff, leb, All, if◌then◌else◌, arith,
}
use remotedesk.Tray.{ConsoleUi, to_lower, is_yes, is_answered, confirm}

-- A word is the lower-case word in some mix of cases.
abbrev pub Spells : Bytes → Bytes → Type 0
Spells word text = map to_lower text ≡ word

abbrev pub IsYes : Bytes → Type 0
IsYes text = Spells (codes "y") text ⊎ Spells (codes "yes") text

-- Spaces, a yes, and spaces.
abbrev pub Accepts : Bytes → Type 0
Accepts line =
    (before text behind : Bytes) × Spaces before
    × Spaces behind
    × IsYes text
    × (line ≡ before ++ (text ++ behind))

-- A rune that becomes a letter is no space.
lower_solid :
    (c : ℕ) → leb 97 (to_lower c) ≡ true → leb (to_lower c) 122 ≡ true → is_space c ≡ false
lower_solid c h k = ground arith

Spells-Solid :
    (word text : Bytes)
    → All (λ c. (leb 97 c ≡ true) × (leb c 122 ≡ true)) word
    → Spells word text
    → Solid text
Spells-Solid word [] h e = tt
Spells-Solid [] (c ∷ text) h e = cc
Spells-Solid (d ∷ word) (c ∷ text) ((h, k), more) e =
    let head : to_lower c ≡ d = cc in
    let tail : map to_lower text ≡ word = cc in
    (
      lower_solid c (ap (leb 97) head ∙ h) (ap (λ n. leb n 122) head ∙ k),
      Spells-Solid word text more tail,
    )

Spells-first :
    (word text : Bytes) (d : ℕ) (more : Bytes)
    → word ≡ d ∷ more
    → Spells word text
    → (c : ℕ) × (rest : Bytes) × (text ≡ c ∷ rest)
Spells-first word [] d more w e = cc
Spells-first word (c ∷ rest) d more w e = (c, rest, refl)

abbrev Letters : Bytes → Type 0
Letters = All (λ c. (leb 97 c ≡ true) × (leb c 122 ≡ true))

padded :
    (d : ℕ) (more line before text behind : Bytes)
    → Letters (d ∷ more)
    → Spaces before
    → Spaces behind
    → Spells (d ∷ more) text
    → line ≡ before ++ (text ++ behind)
    → map to_lower (trim_space line) ≡ d ∷ more
padded d more line before text behind word h k e p =
    let (c, rest, q) = Spells-first (d ∷ more) text d more refl e in
    ap (λ l. map to_lower (trim_space l)) p
    ∙ ap (map to_lower)
        (trim_space-padded before text behind c rest q h k (Spells-Solid (d ∷ more) text word e))
    ∙ e

is_yes_padded : (line : Bytes) → Accepts line → is_yes line ≡ true
unfolding is_yes
is_yes_padded line (before, text, behind, h, k, said, p) = elim said [
  | inl e ↦
      let ans = padded 121 [] line before text behind ((refl, refl), tt) h k e p in
      ground (arith, bytes_eq_iff (map to_lower (trim_space line)) (codes "y"))
  | inr e ↦
      let ans =
        padded 121 (101 ∷ 115 ∷ []) line before text behind
          ((refl, refl), ((refl, refl), ((refl, refl), tt))) h k e p in
      ground (arith, bytes_eq_iff (map to_lower (trim_space line)) (codes "yes"))
]

is_yes-Accepts : (line : Bytes) → is_yes line ≡ true → Accepts line
unfolding is_yes
is_yes-Accepts line e =
    let (before, behind, h, k, p) = trim_space_cut line in
    let said : IsYes (trim_space line) = ground (
      arith,
      bytes_eq_iff (map to_lower (trim_space line)) (codes "y"),
      bytes_eq_iff (map to_lower (trim_space line)) (codes "yes"),
    ) in
    (before, trim_space line, behind, h, k, said, p)

line_Accepts : (l line : Bytes) → some line ≡ some l → Accepts l → Accepts line
line_Accepts l line p q = let same : l ≡ line = cc in subst Accepts same q

-- The console accepts a viewer if it is set to, and otherwise for the lines that are y or yes, in
-- upper or lower case, with spaces before and after; a line that cannot be read refuses.
pub confirm_iff :
    (ui : ConsoleUi) (read : Option Bytes)
    → (confirm ui read ≡ true)
      ↔ ((ui.auto_accept ≡ true) ⊎ ((line : Bytes) × (read ≡ some line) × Accepts line))
unfolding confirm
confirm_iff ui read = by_auto ui.auto_accept refl read
  where
    by_auto :
        (b : Bool)
        → ui.auto_accept ≡ b
        → (read : Option Bytes)
        → ((if ui.auto_accept then true else is_answered read) ≡ true)
          ↔ ((ui.auto_accept ≡ true) ⊎ ((line : Bytes) × (read ≡ some line) × Accepts line))
    by_auto true e read = (λ h. inl e, λ h. rw e refl)
    by_auto false e none = (λ h. cc, λ h. elim h [ inl a ↦ cc | inr (line, p, q) ↦ cc ])
    by_auto false e (some line) = (
      λ h. inr (line, refl, is_yes-Accepts line (cc (h, e))),
      λ h. elim h [
        | inl a ↦ cc
        | inr (l, p, q) ↦ rw e (is_yes_padded line (line_Accepts l line p q))
      ],
    )
