-- ===== src/Input/Buttons.antt =====
-- The buttons that the machine sees held down.
use remotedesk.Prelude.{
  ℕ, ◌≡◌, refl, sym, subst, ◌∙◌, ap, Bool, true, false, List, [], ◌∷◌, ◌++◌, arith,
}
use remotedesk.Input.{
  Button, left, center, right, Action, moves, presses, releases, scrolls, Robot, is_set,
  pointer_event, btn_left, btn_middle, btn_right,
}

-- Which buttons are down.
pub record Held : Type 0 where
  pub left_down : Bool
  pub center_down : Bool
  pub right_down : Bool

abbrev pub holds : Held → Button → Bool
holds h left = h.left_down
holds h center = h.center_down
holds h right = h.right_down

abbrev pub put : Bool → Button → Held → Held
put b left h = record h { left_down = b }
put b center h = record h { center_down = b }
put b right h = record h { right_down = b }

abbrev pub apply : Action → Held → Held
apply (presses b) h = put true b h
apply (releases b) h = put false b h
apply (moves x y) h = h
apply (scrolls d) h = h

abbrev pub apply_all : List Action → Held → Held
apply_all [] h = h
apply_all (a ∷ rest) h = apply_all rest (apply a h)

-- A press is of a button that is up, and a release of one that is down.
abbrev pub Fitting : Action → Held → Type 0
Fitting (presses b) h = holds h b ≡ false
Fitting (releases b) h = holds h b ≡ true
Fitting (moves x y) h = Unit {0}
Fitting (scrolls d) h = Unit {0}

abbrev pub AllFitting : List Action → Held → Type 0
AllFitting [] h = Unit {0}
AllFitting (a ∷ rest) h = Fitting a h × AllFitting rest (apply a h)

-- The buttons of an RFB mask.
abbrev pub held_in : ℕ → Held
held_in mask = record {
  left_down = is_set mask btn_left;
  center_down = is_set mask btn_middle;
  right_down = is_set mask btn_right;
}

-- One pointer event, as the viewer sends it.
pub record Pointer : Type 0 where
  pub x : ℕ
  pub y : ℕ
  pub buttons : ℕ

unfoldable pub pointer_events : Robot → List Pointer → Robot × List Action
pointer_events r [] = (r, [])
pointer_events r (p ∷ rest) =
    let (r', acts) = pointer_event r p.x p.y p.buttons in
    let (last, more) = pointer_events r' rest in (last, acts ++ more)

pointer_event_holds :
    (r : Robot) (x y buttons : ℕ)
    → (apply_all (pointer_event r x y buttons).1 (held_in r.prev_buttons) ≡ held_in buttons)
      × AllFitting (pointer_event r x y buttons).1 (held_in r.prev_buttons)
unfolding pointer_event
pointer_event_holds r x y buttons = ground arith

apply_all-append :
    (xs ys : List Action) (h : Held) → apply_all (xs ++ ys) h ≡ apply_all ys (apply_all xs h)
apply_all-append [] ys h = refl
apply_all-append (x ∷ xs) ys h = apply_all-append xs ys (apply x h)

AllFitting-append :
    (xs ys : List Action) (h : Held)
    → AllFitting xs h
    → AllFitting ys (apply_all xs h)
    → AllFitting (xs ++ ys) h
AllFitting-append [] ys h hx hy = hy
AllFitting-append (x ∷ xs) ys h hx hy = (hx.0, AllFitting-append xs ys (apply x h) hx.1 hy)

-- The mask of the last event.
abbrev pub last_mask : ℕ → List Pointer → ℕ
last_mask mask [] = mask
last_mask mask (p ∷ rest) = last_mask p.buttons rest

next_prev : (r : Robot) (x y buttons : ℕ) → (pointer_event r x y buttons).0.prev_buttons ≡ buttons
unfolding pointer_event
next_prev r x y buttons = refl

-- After any pointer events the buttons that are down are those of the last mask, and no button was
-- pressed while down or released while up. The machine starts with the buttons of the robot's mask.
pub pointer_events_hold :
    (r : Robot) (events : List Pointer)
    → (apply_all (pointer_events r events).1 (held_in r.prev_buttons)
        ≡ held_in (last_mask r.prev_buttons events))
      × AllFitting (pointer_events r events).1 (held_in r.prev_buttons)
unfolding pointer_events
pointer_events_hold r [] = (refl, tt)
pointer_events_hold r (p ∷ rest) =
    let r' = (pointer_event r p.x p.y p.buttons).0 in
    let acts = (pointer_event r p.x p.y p.buttons).1 in
    let (held, fit) = pointer_event_holds r p.x p.y p.buttons in
    let (held', fit') = pointer_events_hold r' rest in
    let e : held_in r'.prev_buttons ≡ held_in p.buttons =
      ap held_in (next_prev r p.x p.y p.buttons) in
    let reached : apply_all acts (held_in r.prev_buttons) ≡ held_in r'.prev_buttons =
      held ∙ sym e in
    let more = (pointer_events r' rest).1 in
    (
      apply_all-append acts more (held_in r.prev_buttons)
          ∙ ap (apply_all more) reached
          ∙ held'
          ∙ ap (λ m. held_in (last_mask m rest)) (next_prev r p.x p.y p.buttons),
      AllFitting-append acts more (held_in r.prev_buttons) fit
          (subst (AllFitting more) (sym reached) fit'),
    )
