-- ===== src/RfbClient/Unfailing.antt =====
-- The viewer's own client against the server: how a session with it can end.
use remotedesk.Prelude.{
  ℕ, ◌<◌, ◌≡◌, refl, sym, subst, ◌⊎◌, inl, inr, Bool, List, [], ◌∷◌, Option, none, some, Bytes, All,
  Any, arith, if◌then◌else◌,
}
use remotedesk.Rfb.{Image, Rectangle, PixelFormat}
use remotedesk.Rfb.Session.{
  Session, Env, Effect, End, clean, failed, panicked, waits, Step, goes, ends, put_update, pace,
  update_rects, sent, deliver, send_framebuffer_update, loop, continue, prepend,
}
use remotedesk.Rfb.Session.Panics.Encoding.{IsWide, put_update-none}
use remotedesk.RfbClient.{Client}
use remotedesk.RfbClient.Dialogue.{
  Call, set_pixel_format, set_encodings, request_update, send_pointer, send_key, messages,
  HasScreen, Fits, answer, answers, messages_understood,
}

-- The screen cannot be captured, or a write to the client fails.
abbrev pub Fails : Env → Type 0
Fails env = (env.capture ≡ none) ⊎ ((n : ℕ) × (env.breaks ≡ some n))

abbrev Narrow : PixelFormat → Type 0
Narrow pf = pf.bits_per_pixel < 40

abbrev EndsFor : Env → End → Type 0
EndsFor env clean = Unit {0}
EndsFor env waits = Unit {0}
EndsFor env failed = Fails env
EndsFor env panicked = ⊥

abbrev Unfailing : Env → Step → Type 0
Unfailing env (goes s1 effects rest) = Narrow s1.pf
Unfailing env (ends effects fin) = EndsFor env fin

not_wide : (pf : PixelFormat) → Narrow pf → IsWide pf → ⊥
not_wide pf h k = omega arith

module _ (env : Env) (s : Session) (h : Narrow s.pf) (pauses : List Effect) (rest : Bytes) where
  deliver-Unfailing :
      (img : Image) (bs : Bytes) (o : Option ℕ)
      → env.breaks ≡ o
      → Unfailing env (deliver env s img pauses rest bs o)
  unfolding deliver
  deliver-Unfailing img bs none e = h
  deliver-Unfailing img bs (some n) e = inr (n, e)

  sent-Unfailing :
      (img : Image) (rects : List Rectangle) (o : Option Bytes)
      → put_update s.pf img rects ≡ o
      → Unfailing env (sent env s img pauses rest o)
  unfolding sent
  sent-Unfailing img rects none e = not_wide s.pf h (put_update-none s.pf img rects e)
  sent-Unfailing img rects (some bs) e = deliver-Unfailing img bs env.breaks refl

  update-Unfailing :
      (incremental : Bool) (o : Option Image)
      → env.capture ≡ o
      → Unfailing env (send_framebuffer_update env incremental o s pauses rest)
  unfolding send_framebuffer_update
  update-Unfailing incremental none e = inl e
  update-Unfailing incremental (some img) e =
      sent-Unfailing img (update_rects incremental s.prev img) _ refl

answer-Unfailing :
    (env : Env) (c : Client) (s : Session) (rest : Bytes) (call : Call)
    → Narrow s.pf
    → Unfailing env (answer env c s rest call)
answer-Unfailing env c s rest set_pixel_format h = omega arith
answer-Unfailing env c s rest (set_encodings encodings) h = h
answer-Unfailing env c s rest (request_update incremental) h =
    update-Unfailing env s h (if incremental then pace s env.now s.last_frame else []) rest
      incremental env.capture refl
answer-Unfailing env c s rest (send_pointer x y buttons) h = h
answer-Unfailing env c s rest (send_key keysym is_down) h = h

-- The session has ended cleanly or goes on, or it has failed with its screen or its connection.
abbrev pub EndsWell : List Env → End → Type 0
EndsWell envs fin = (fin ≡ clean) ⊎ (fin ≡ waits) ⊎ ((fin ≡ failed) × Any Fails envs)

later-EndsWell :
    (env : Env) (envs : List Env) (fin : End) → EndsWell envs fin → EndsWell (env ∷ envs) fin
later-EndsWell env envs fin (inl e) = inl e
later-EndsWell env envs fin (inr (inl e)) = inr (inl e)
later-EndsWell env envs fin (inr (inr (e, h))) = inr (inr (e, inr h))

continue-EndsWell :
    (env : Env) (envs : List Env) (step : Step) (f : Session → Bytes → List Effect × End)
    → Unfailing env step
    → ((s1 : Session) (rest : Bytes) → Narrow s1.pf → EndsWell envs (f s1 rest).1)
    → EndsWell (env ∷ envs) (continue step f).1
unfolding continue prepend
continue-EndsWell env envs (goes s1 effects rest) f h again =
    later-EndsWell env envs (f s1 rest).1 (again s1 rest h)
continue-EndsWell env envs (ends effects clean) f h again = inl refl
continue-EndsWell env envs (ends effects waits) f h again = inr (inl refl)
continue-EndsWell env envs (ends effects failed) f h again = inr (inr (refl, inl h))
continue-EndsWell env envs (ends effects panicked) f h again = absurd h

answers-EndsWell :
    (c : Client) (envs : List Env) (s : Session) (calls : List Call)
    → Narrow s.pf
    → EndsWell envs (answers c envs s calls).1
answers-EndsWell c [] s calls h = inr (inl refl)
answers-EndsWell c (env ∷ envs) s [] h = inl refl
answers-EndsWell c (env ∷ envs) s (call ∷ calls) h =
    continue-EndsWell env envs (answer env c s [] call) (λ s1 rest. answers c envs s1 calls)
      (answer-Unfailing env c s [] call h) (λ s1 rest k. answers-EndsWell c envs s1 calls k)

-- Whatever the viewer's client is called to send, its bytes never make the host's session panic, and the
-- session fails only if the screen could not be captured or a write to the viewer failed. The screen has
-- a positive size, the calls' arguments fit the source's types, and the session starts in a format of
-- fewer than forty bits per pixel.
pub viewer-EndsWell :
    (c : Client) (envs : List Env) (s : Session) (calls : List Call)
    → HasScreen c
    → All Fits calls
    → s.pf.bits_per_pixel < 40
    → EndsWell envs (loop envs s (messages c calls)).1
viewer-EndsWell c envs s calls screen fit h =
    subst (λ (q : List Effect × End). EndsWell envs q.1)
      (sym (messages_understood c envs s calls screen fit)) (answers-EndsWell c envs s calls h)
