-- ===== src/Rfb/Session/Panics.antt =====
-- When a session panics: only for a client that has asked for forty bits per pixel or more.
use remotedesk.Prelude.{
  ◌+◌, ℕ, zero, suc, ◌≤◌, ◌≡◌, refl, sym, ap, subst, ◌⊎◌, inl, inr, Bool, List, [], ◌∷◌, Option,
  none, some, Bytes, arith,
}
use remotedesk.Rfb.{PixelFormat, Image, Rectangle, dx, dy}
use remotedesk.Rfb.Format.{read}
use remotedesk.Rfb.Pixel.{encode_pixel, then_bytes, encode_row, encode_rows, encode_rect_into}
use remotedesk.Rfb.Session.{
  Session, Env, Effect, End, failed, panicked, clean, waits, Step, goes, ends,
  read_set_pixel_format, put_rect, put_rects, put_update, update_rects, sent, deliver,
  send_framebuffer_update, on_format, on_skipped, on_fbur, on_event, round, loop, continue, prepend,
}
use remotedesk.Stream.{some_inj}
use remotedesk.Rfb.Session.Rounds.{dispatch-Has}
use remotedesk.Rfb.Session.Panics.Encoding.{IsWide, put_update-none}
pub mod Encoding

-- The format that is read has the bits per pixel of its first byte.
read-bits :
    (bs : Bytes) (p : PixelFormat × Bytes)
    → read bs ≡ some p
    → (bits : ℕ) × (more : Bytes) × (bs ≡ bits ∷ more) × (p.0.bits_per_pixel ≡ bits)
unfolding read
read-bits ([]) p h = cc
read-bits (b0 ∷ []) p h = cc
read-bits (b0 ∷ b1 ∷ []) p h = cc
read-bits (b0 ∷ b1 ∷ b2 ∷ []) p h = cc
read-bits (b0 ∷ b1 ∷ b2 ∷ b3 ∷ []) p h = cc
read-bits (b0 ∷ b1 ∷ b2 ∷ b3 ∷ b4 ∷ []) p h = cc
read-bits (b0 ∷ b1 ∷ b2 ∷ b3 ∷ b4 ∷ b5 ∷ []) p h = cc
read-bits (b0 ∷ b1 ∷ b2 ∷ b3 ∷ b4 ∷ b5 ∷ b6 ∷ []) p h = cc
read-bits (b0 ∷ b1 ∷ b2 ∷ b3 ∷ b4 ∷ b5 ∷ b6 ∷ b7 ∷ []) p h = cc
read-bits (b0 ∷ b1 ∷ b2 ∷ b3 ∷ b4 ∷ b5 ∷ b6 ∷ b7 ∷ b8 ∷ []) p h = cc
read-bits (b0 ∷ b1 ∷ b2 ∷ b3 ∷ b4 ∷ b5 ∷ b6 ∷ b7 ∷ b8 ∷ b9 ∷ []) p h = cc
read-bits (b0 ∷ b1 ∷ b2 ∷ b3 ∷ b4 ∷ b5 ∷ b6 ∷ b7 ∷ b8 ∷ b9 ∷ b10 ∷ []) p h = cc
read-bits (b0 ∷ b1 ∷ b2 ∷ b3 ∷ b4 ∷ b5 ∷ b6 ∷ b7 ∷ b8 ∷ b9 ∷ b10 ∷ b11 ∷ []) p h = cc
read-bits (b0 ∷ b1 ∷ b2 ∷ b3 ∷ b4 ∷ b5 ∷ b6 ∷ b7 ∷ b8 ∷ b9 ∷ b10 ∷ b11 ∷ b12 ∷ []) p h = cc
read-bits (b0 ∷ b1 ∷ b2 ∷ b3 ∷ b4 ∷ b5 ∷ b6 ∷ b7 ∷ b8 ∷ b9 ∷ b10 ∷ b11 ∷ b12 ∷ b13 ∷ []) p h = cc
read-bits (b0 ∷ b1 ∷ b2 ∷ b3 ∷ b4 ∷ b5 ∷ b6 ∷ b7 ∷ b8 ∷ b9 ∷ b10 ∷ b11 ∷ b12 ∷ b13 ∷ b14 ∷ []) p h =
    cc
read-bits
      (b0 ∷ b1 ∷ b2 ∷ b3 ∷ b4 ∷ b5 ∷ b6 ∷ b7 ∷ b8 ∷ b9 ∷ b10 ∷ b11 ∷ b12 ∷ b13 ∷ b14 ∷ b15 ∷ rest) p
      h =
    (b0, _, refl, ap (λ (q : PixelFormat × Bytes). q.0.bits_per_pixel) (sym (some_inj h)))

-- The message asks for this format.
abbrev pub Formats : Bytes → PixelFormat → Type 0
Formats bs pf =
    (p0 p1 p2 bits : ℕ) × (more : Bytes) × (bs ≡ 0 ∷ p0 ∷ p1 ∷ p2 ∷ bits ∷ more)
    × (pf.bits_per_pixel ≡ bits)

abbrev EndExplained : PixelFormat → End → Type 0
EndExplained pf panicked = IsWide pf
EndExplained pf fin = Unit {0}

-- A step changes the format only for a message that asks for it, and panics only in a wide one.
abbrev Explained : Session → Bytes → Step → Type 0
Explained s bs (goes s1 effects rest) = (s1.pf ≡ s.pf) ⊎ Formats bs s1.pf
Explained s bs (ends effects fin) = EndExplained s.pf fin

on_format-Explained :
    (s : Session) (rest : Bytes) (o : Option (PixelFormat × Bytes))
    → read_set_pixel_format rest ≡ o
    → Explained s (0 ∷ rest) (on_format s o)
unfolding read_set_pixel_format on_format
on_format-Explained s (p0 ∷ p1 ∷ p2 ∷ rest) (some p) e =
    let (bits, more, same, wide) = read-bits rest p e in
    inr (p0, p1, p2, bits, more, ap (λ bs. 0 ∷ p0 ∷ p1 ∷ p2 ∷ bs) same, wide)
on_format-Explained s rest none e = tt
on_format-Explained s [] (some p) e = cc
on_format-Explained s (p0 ∷ []) (some p) e = cc
on_format-Explained s (p0 ∷ p1 ∷ []) (some p) e = cc

on_skipped-Explained :
    (s : Session) (bs : Bytes) (o : Option Bytes) → Explained s bs (on_skipped s o)
unfolding on_skipped
on_skipped-Explained s bs none = tt
on_skipped-Explained s bs (some rest) = inl refl

on_event-Explained :
    (s : Session) (bs : Bytes) (o : Option (Effect × Bytes)) → Explained s bs (on_event s o)
unfolding on_event
on_event-Explained s bs none = tt
on_event-Explained s bs (some (effect, rest)) = inl refl

deliver-Explained :
    (env : Env) (s : Session) (img : Image) (pauses : List Effect) (rest out bs : Bytes)
    (o : Option ℕ)
    → Explained s bs (deliver env s img pauses rest out o)
unfolding deliver
deliver-Explained env s img pauses rest out bs none = inl refl
deliver-Explained env s img pauses rest out bs (some n) = tt

sent-Explained :
    (env : Env) (s : Session) (img : Image) (pauses : List Effect) (rest bs : Bytes)
    (rects : List Rectangle) (o : Option Bytes)
    → put_update s.pf img rects ≡ o
    → Explained s bs (sent env s img pauses rest o)
unfolding sent
sent-Explained env s img pauses rest bs rects none e = put_update-none s.pf img rects e
sent-Explained env s img pauses rest bs rects (some out) e =
    deliver-Explained env s img pauses rest out bs env.breaks

send_framebuffer_update-Explained :
    (env : Env) (incremental : Bool) (o : Option Image) (s : Session) (pauses : List Effect)
    (rest bs : Bytes)
    → Explained s bs (send_framebuffer_update env incremental o s pauses rest)
unfolding send_framebuffer_update
send_framebuffer_update-Explained env incremental none s pauses rest bs = tt
send_framebuffer_update-Explained env incremental (some img) s pauses rest bs =
    sent-Explained env s img pauses rest bs (update_rects incremental s.prev img) _ refl

on_fbur-Explained :
    (env : Env) (s : Session) (bs : Bytes) (o : Option (Bool × Bytes))
    → Explained s bs (on_fbur env s o)
unfolding on_fbur
on_fbur-Explained env s bs none = tt
on_fbur-Explained env s bs (some (incremental, rest)) =
    send_framebuffer_update-Explained env incremental env.capture s _ rest bs

round-Explained : (env : Env) (s : Session) (bs : Bytes) → Explained s bs (round env s bs)
unfolding round
round-Explained env s [] = tt
round-Explained env s (typ ∷ rest) =
    dispatch-Has (Explained s (typ ∷ rest)) env s typ rest (record {
      formats = λ e.
          subst (λ t. Explained s (t ∷ rest) (on_format s (read_set_pixel_format rest))) (sym e)
            (on_format-Explained s rest _ refl);
      encodings = on_skipped-Explained s _ _;
      request = on_fbur-Explained env s _ _;
      key = on_event-Explained s _ _;
      pointer = on_event-Explained s _ _;
      cut_text = on_skipped-Explained s _ _;
      unknown = tt;
    })

-- The rounds that the loop runs, each of which has read one message.
pub data Reads : Session → Bytes → Session → Bytes → Type 0 where
  here : {s : Session} {bs : Bytes} → Reads s bs s bs
  next :
      {s1 s2 : Session} {bs rest more : Bytes} {effects : List Effect} (env : Env) (s : Session)
      → round env s bs ≡ goes s1 effects rest
      → Reads s1 rest s2 more
      → Reads s bs s2 more

-- The loop comes to a message that asks for forty bits per pixel or more.
abbrev pub AsksWide : Session → Bytes → Type 0
AsksWide s bs =
    (at : Session) × (p0 p1 p2 bits : ℕ) × (more : Bytes) × Reads s bs at
      (0 ∷ p0 ∷ p1 ∷ p2 ∷ bits ∷ more)
    × (40 ≤ bits)

next-AsksWide :
    (env : Env) (s s1 : Session) (bs rest : Bytes) (effects : List Effect)
    → round env s bs ≡ goes s1 effects rest
    → (s1.pf ≡ s.pf) ⊎ Formats bs s1.pf
    → IsWide s1.pf ⊎ AsksWide s1 rest
    → IsWide s.pf ⊎ AsksWide s bs
next-AsksWide env s s1 bs rest effects e why (inr (at, p0, p1, p2, bits, more, reads, wide)) =
    inr (at, p0, p1, p2, bits, more, next env s e reads, wide)
next-AsksWide env s s1 bs rest effects e (inl same) (inl wide) = inl (subst IsWide same wide)
next-AsksWide env s s1 bs rest effects e (inr (p0, p1, p2, bits, more, asks, set)) (inl wide) =
    inr (s, p0, p1, p2, bits, more, subst (Reads s bs s) asks here, subst (λ n. 40 ≤ n) set wide)

continue-AsksWide :
    (env : Env) (envs : List Env) (s : Session) (bs : Bytes) (step : Step)
    → round env s bs ≡ step
    → Explained s bs step
    → ((s1 : Session) (rest : Bytes)
        → (loop envs s1 rest).1 ≡ panicked
        → IsWide s1.pf ⊎ AsksWide s1 rest)
    → (continue step (λ s1 rest. loop envs s1 rest)).1 ≡ panicked
    → IsWide s.pf ⊎ AsksWide s bs
unfolding continue prepend
continue-AsksWide env envs s bs (goes s1 effects rest) e why again h =
    next-AsksWide env s s1 bs rest effects e why (again s1 rest h)
continue-AsksWide env envs s bs (ends effects panicked) e why again h = inl why
continue-AsksWide env envs s bs (ends effects failed) e why again h = cc
continue-AsksWide env envs s bs (ends effects clean) e why again h = cc
continue-AsksWide env envs s bs (ends effects waits) e why again h = cc

-- A session panics only if it began with forty bits per pixel or more, or if it has come, reading whole
-- messages, to a SetPixelFormat that asks for them.
pub session_panics :
    (envs : List Env) (s : Session) (bs : Bytes)
    → (loop envs s bs).1 ≡ panicked
    → IsWide s.pf ⊎ AsksWide s bs
unfolding loop
session_panics [] s bs h = cc
session_panics (env ∷ envs) s bs h =
    continue-AsksWide env envs s bs (round env s bs) refl (round-Explained env s bs)
      (session_panics envs) h
