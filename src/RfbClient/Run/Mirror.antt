-- ===== src/RfbClient/Run/Mirror.antt =====
-- The client and the server together: the requests of the client through the server's loop, and the
-- server's bytes through the client's.
use remotedesk.Prelude.{
  ℕ, suc, ◌-◌, ◌≡◌, refl, ap, sym, ◌∙◌, Bool, true, false, List, [], ◌∷◌, ◌++◌, map, Bytes, Option,
  none, some, length, append_assoc, append-nil, if◌then◌else◌, IfSome, subst, All, ltb,
}
use remotedesk.Rfb.{Image, default_pixel_format}
use remotedesk.Rfb.Pixel.Direct.{HasBytes}
use remotedesk.Rfb.Session.{
  Session, Env, Effect, End, sends, key_event, pointer_event, sleeps, loop, pace, prepend,
  update_rects, put_update,
}
use remotedesk.Rfb.Session.Resume.{update-goes}
use remotedesk.RfbClient.{Client}
use remotedesk.RfbClient.Dialogue.{
  Call, Fits, request_update, messages, HasScreen, answers, messages_understood,
}
use remotedesk.RfbClient.Decode.{Framebuffer, decoded, read_framebuffer_update, and_then}
use remotedesk.RfbClient.Decode.Rects.{HasSize}
use remotedesk.RfbClient.Decode.Update.{
  Shows, HasRoom, update_bytes, put_update-direct, read_update-Shows,
}
use remotedesk.RfbClient.Run.{run, read_message, after_message, clean}

-- A request, and the frame that the screen captures for it.
pub record Exchange : Type 0 where
  pub incremental : Bool
  pub now : ℕ
  pub image : Image
  pub done : ℕ

abbrev pub env_of : Exchange → Env
env_of e = record { now = e.now; capture = some e.image; breaks = none; done = e.done }

abbrev pub call_of : Exchange → Call
call_of e = request_update e.incremental

-- What the server has written.
abbrev pub stream : List Effect → Bytes
stream [] = []
stream (sends bs ∷ effects) = bs ++ stream effects
stream (effect ∷ effects) = stream effects

-- The screen has the size that the client was told, which leaves room for the count of the tiles.
pub record IsGood (c : Client) (img : Image) : Type 0 where
  pub has_size : HasSize img
  pub has_bytes : HasBytes img
  pub has_room : HasRoom img
  pub same_width : c.width ≡ img.width
  pub same_height : c.height ≡ img.height

abbrev pub Mirrored : List Exchange → List Framebuffer → Type 0
Mirrored [] [] = Unit
Mirrored (e ∷ exchanges) (fb ∷ frames) = Shows e.image fb × Mirrored exchanges frames
Mirrored exchanges frames = ⊥

stream-append : (xs ys : List Effect) → stream (xs ++ ys) ≡ stream xs ++ stream ys
stream-append [] ys = refl
stream-append (sends bs ∷ xs) ys =
    ap (◌++◌ bs) (stream-append xs ys) ∙ sym (append_assoc bs (stream xs) (stream ys))
stream-append (key_event keysym is_down ∷ xs) ys = stream-append xs ys
stream-append (pointer_event x y buttons ∷ xs) ys = stream-append xs ys
stream-append (sleeps d ∷ xs) ys = stream-append xs ys

stream-pause : (b : Bool) (d : ℕ) → stream (if b then sleeps d ∷ [] else []) ≡ []
stream-pause true d = refl
stream-pause false d = refl

stream-pace : (s : Session) (now : ℕ) (last : Option ℕ) → stream (pace s now last) ≡ []
unfolding pace
stream-pace s now none = refl
stream-pace s now (some last) =
    stream-pause (ltb (now - last) s.min_frame) (s.min_frame - (now - last))

-- What the server waits before an update.
abbrev pauses : Session → Exchange → List Effect
pauses s e = if e.incremental then pace s e.now s.last_frame else []

stream-pauses :
    (s : Session) (e : Exchange) (b : Bool)
    → stream (if b then pace s e.now s.last_frame else []) ≡ []
stream-pauses s e true = stream-pace s e.now s.last_frame
stream-pauses s e false = refl

run_update :
    (n : ℕ) (bs more : Bytes) (fb done : Framebuffer) (frames : List Framebuffer)
    → read_framebuffer_update (bs ++ more) fb ≡ decoded (done, more)
    → run n more done ≡ (frames, clean)
    → run (suc n) ((0 ∷ bs) ++ more) fb ≡ (done ∷ frames, clean)
unfolding run read_message after_message and_then
run_update n bs more fb done frames e r = rw (e, r)

-- The session after an update.
abbrev updated : Session → Exchange → Session
updated s e = record s { prev = some e.image; last_frame = some e.done }

stream-prepend :
    (before : List Effect) (bs : Bytes) (later : List Effect × End)
    → stream before ≡ []
    → stream (prepend (before ++ (sends bs ∷ [])) later).0 ≡ bs ++ stream later.0
unfolding prepend
stream-prepend before bs later h =
    stream-append (before ++ (sends bs ∷ [])) later.0
    ∙ ap (λ q. q ++ stream later.0)
        (stream-append before (sends bs ∷ []) ∙ ap (λ q. q ++ (bs ++ [])) h ∙ append-nil bs)

answers-stream :
    (c : Client) (e : Exchange) (exchanges : List Exchange) (s : Session) (bs : Bytes)
    → put_update s.pf e.image (update_rects e.incremental s.prev e.image) ≡ some bs
    → stream (answers c (map env_of (e ∷ exchanges)) s (map call_of (e ∷ exchanges))).0
      ≡ bs ++ stream (answers c (map env_of exchanges) (updated s e) (map call_of exchanges)).0
answers-stream c e exchanges s bs h =
    let later = answers c (map env_of exchanges) (updated s e) (map call_of exchanges) in
    ap (λ q. stream q.0)
      (update-goes (env_of e) e.incremental e.image s (pauses s e) [] bs
        (λ s' rest. answers c (map env_of exchanges) s' (map call_of exchanges)) h refl)
    ∙ stream-prepend (pauses s e) bs later (stream-pauses s e e.incremental)

Shows-last :
    (img : Image) (fb : Framebuffer) (q : Image) → Shows img fb → some img ≡ some q → Shows q fb
Shows-last img fb q h e = subst (λ o. IfSome (λ i. Shows i fb) o) e h

answers-Mirrored :
    (c : Client) (exchanges : List Exchange) (s : Session) (fb : Framebuffer)
    → s.pf ≡ default_pixel_format
    → All (λ e. IsGood c e.image) exchanges
    → ((p : Image) → s.prev ≡ some p → Shows p fb)
    → fb.width ≡ c.width
    → fb.height ≡ c.height
    → (frames : List Framebuffer) × (run
          (suc (length exchanges))
          (stream (answers c (map env_of exchanges) s (map call_of exchanges)).0)
          fb
        ≡ (frames, clean))
      × Mirrored exchanges frames
unfolding run
answers-Mirrored c [] s fb f g p ew eh = ([], refl, tt)
answers-Mirrored c (e ∷ exchanges) s fb f (good, goods) p ew eh =
    let rects = update_rects e.incremental s.prev e.image in
    let bs = update_bytes e.image rects in
    let more = stream (answers c (map env_of exchanges) (updated s e) (map call_of exchanges)).0 in
    let encoded =
      ap (λ pf. put_update pf e.image rects) f ∙ put_update-direct e.image rects good.has_bytes in
    let (done, read, shows) =
      read_update-Shows e.incremental s.prev e.image fb more good.has_size p (ew ∙ good.same_width)
        (eh ∙ good.same_height) good.has_room in
    let (frames, ran, mirrored) =
      answers-Mirrored c exchanges (updated s e) done f goods
        (λ q h. Shows-last e.image done q shows h) (shows.same_width ∙ sym good.same_width)
        (shows.same_height ∙ sym good.same_height) in
    (
      done ∷ frames,
      ap (λ q. run (suc (suc (length exchanges))) q fb)
            (answers-stream c e exchanges s (0 ∷ bs) encoded)
          ∙ run_update (suc (length exchanges)) bs more fb done frames read ran,
      (shows, mirrored),
    )

requests-Fits : (exchanges : List Exchange) → All Fits (map call_of exchanges)
requests-Fits [] = tt
requests-Fits (e ∷ exchanges) = (tt, requests-Fits exchanges)

-- A viewer that asks for updates, full or incremental in any order, sees the host's screen: the
-- server answers each request, the client decodes every byte without an error or a panic, and the
-- framebuffer of the client after the k-th update shows the k-th frame that the server captured.
-- The frames are made of bytes, have the client's dimensions, which are positive and fit 16 bits,
-- and have fewer than 65536 tiles; the session starts in the client's format, and with the
-- framebuffer showing the last frame that was sent, if there is one.
pub screen-Mirrored :
    (c : Client) (exchanges : List Exchange) (s : Session) (fb : Framebuffer)
    → HasScreen c
    → s.pf ≡ default_pixel_format
    → All (λ e. IsGood c e.image) exchanges
    → ((p : Image) → s.prev ≡ some p → Shows p fb)
    → fb.width ≡ c.width
    → fb.height ≡ c.height
    → (frames : List Framebuffer) × (run
          (suc (length exchanges))
          (stream (loop (map env_of exchanges) s (messages c (map call_of exchanges))).0)
          fb
        ≡ (frames, clean))
      × Mirrored exchanges frames
screen-Mirrored c exchanges s fb screen f g p ew eh =
    let (frames, ran, mirrored) = answers-Mirrored c exchanges s fb f g p ew eh in
    let understood =
      messages_understood c (map env_of exchanges) s (map call_of exchanges) screen
        (requests-Fits exchanges) in
    (frames, ap (λ q. run (suc (length exchanges)) (stream q.0) fb) understood ∙ ran, mirrored)
