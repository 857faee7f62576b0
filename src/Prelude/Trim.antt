-- ===== src/Prelude/Trim.antt =====
-- `strings.TrimSpace`: a text is the list of its runes.
use Prim.Native.Nat.{ℕ}
use mathlib.Core.Path.{◌≡◌, refl, sym, ap, ◌∙◌, subst}
use mathlib.Core.Bool.{Bool, true, false, ◌&&◌, ◌||◌}
use mathlib.Core.List.{[], ◌∷◌, ◌++◌}
use remotedesk.Prelude.Tests.{◌==◌, leb, if◌then◌else◌}
use remotedesk.Prelude.ByteStrings.{Bytes}
use remotedesk.Prelude.Lists.{All}

-- `unicode.IsSpace` of a rune. A line is the list of its runes.
abbrev pub is_space : ℕ → Bool
is_space c =
    leb 9 c && leb c 13
    || c == 32
    || c == 0x85
    || c == 0xa0
    || c == 0x1680
    || leb 0x2000 c && leb c 0x200a
    || c == 0x2028
    || c == 0x2029
    || c == 0x202f
    || c == 0x205f
    || c == 0x3000

unfoldable pub trim_left : Bytes → Bytes
trim_left [] = []
trim_left (c ∷ s) = let rest = trim_left s in if is_space c then rest else c ∷ s

-- A rune before what is kept of its line.
abbrev pub keep : ℕ → Bytes → Bytes
keep c [] = if is_space c then [] else c ∷ []
keep c (d ∷ kept) = c ∷ d ∷ kept

unfoldable pub trim_right : Bytes → Bytes
trim_right [] = []
trim_right (c ∷ s) = keep c (trim_right s)

-- `strings.TrimSpace`
abbrev pub trim_space : Bytes → Bytes
trim_space s = trim_right (trim_left s)

abbrev pub Spaces : Bytes → Type 0
Spaces = All (λ c. is_space c ≡ true)

abbrev pub Solid : Bytes → Type 0
Solid = All (λ c. is_space c ≡ false)

trim_left_cut : (s : Bytes) → (before : Bytes) × Spaces before × (s ≡ before ++ trim_left s)
unfolding trim_left
trim_left_cut [] = ([], tt, refl)
trim_left_cut (c ∷ s) = by_space (is_space c) refl (trim_left_cut s)
  where
    by_space :
        (b : Bool)
        → is_space c ≡ b
        → (before : Bytes) × Spaces before × (s ≡ before ++ trim_left s)
        → (before : Bytes) × Spaces before × (c ∷ s ≡ before ++ trim_left (c ∷ s))
    by_space true e (before, h, p) = (c ∷ before, (e, h), rw e (ap (◌∷◌ c) p))
    by_space false e (before, h, p) = ([], tt, rw e refl)

keep_cut :
    (c : ℕ) (kept behind : Bytes)
    → Spaces behind
    → (after : Bytes) × Spaces after × (c ∷ (kept ++ behind) ≡ keep c kept ++ after)
keep_cut c [] behind h = by_space (is_space c) refl
  where
    by_space :
        (b : Bool)
        → is_space c ≡ b
        → (after : Bytes) × Spaces after × (c ∷ behind ≡ keep c [] ++ after)
    by_space true e = (c ∷ behind, (e, h), rw e refl)
    by_space false e = (behind, h, rw e refl)
keep_cut c (d ∷ kept) behind h = (behind, h, refl)

trim_right_cut : (s : Bytes) → (behind : Bytes) × Spaces behind × (s ≡ trim_right s ++ behind)
unfolding trim_right
trim_right_cut [] = ([], tt, refl)
trim_right_cut (c ∷ s) =
    let (behind, h, p) = trim_right_cut s in
    let (after, k, q) = keep_cut c (trim_right s) behind h in (after, k, ap (◌∷◌ c) p ∙ q)

trim_left-append : (before s : Bytes) → Spaces before → trim_left (before ++ s) ≡ trim_left s
unfolding trim_left
trim_left-append [] s h = refl
trim_left-append (c ∷ before) s h = rw h.0 (trim_left-append before s h.1)

trim_left_solid : (c : ℕ) (s : Bytes) → is_space c ≡ false → trim_left (c ∷ s) ≡ c ∷ s
unfolding trim_left
trim_left_solid c s h = rw h refl

trim_right-Spaces : (s : Bytes) → Spaces s → trim_right s ≡ []
unfolding trim_right
trim_right-Spaces [] h = refl
trim_right-Spaces (c ∷ s) h = rw (trim_right-Spaces s h.1, h.0) refl

keep_solid : (c : ℕ) (s : Bytes) → is_space c ≡ false → keep c s ≡ c ∷ s
keep_solid c [] h = rw h refl
keep_solid c (d ∷ s) h = refl

trim_right-Solid :
    (text behind : Bytes) → Solid text → Spaces behind → trim_right (text ++ behind) ≡ text
unfolding trim_right
trim_right-Solid [] behind h k = trim_right-Spaces behind k
trim_right-Solid (c ∷ text) behind h k =
    ap (keep c) (trim_right-Solid text behind h.1 k) ∙ keep_solid c text h.0

pub trim_space-padded :
    (before text behind : Bytes) (c : ℕ) (rest : Bytes)
    → text ≡ c ∷ rest
    → Spaces before
    → Spaces behind
    → Solid text
    → trim_space (before ++ (text ++ behind)) ≡ text
trim_space-padded before text behind c rest e h k solid =
    ap trim_right (
      trim_left-append before (text ++ behind) h
      ∙ ap (λ w. trim_left (w ++ behind)) e
      ∙ trim_left_solid c (rest ++ behind) (subst Solid e solid).0
      ∙ ap (λ w. w ++ behind) (sym e))
    ∙ trim_right-Solid text behind solid k

pub trim_space_cut :
    (line : Bytes)
    → (before behind : Bytes) × Spaces before
      × Spaces behind
      × (line ≡ before ++ (trim_space line ++ behind))
trim_space_cut line =
    let (before, h, p) = trim_left_cut line in
    let (behind, k, q) = trim_right_cut (trim_left line) in
    (before, behind, h, k, p ∙ ap (before ++◌) q)

trim_left-Spaces : (s : Bytes) → Spaces s → trim_left s ≡ []
unfolding trim_left
trim_left-Spaces [] h = refl
trim_left-Spaces (c ∷ s) h = rw h.0 (trim_left-Spaces s h.1)

pub trim_space-Spaces : (s : Bytes) → Spaces s → trim_space s ≡ []
unfolding trim_right
trim_space-Spaces s h = ap trim_right (trim_left-Spaces s h)
