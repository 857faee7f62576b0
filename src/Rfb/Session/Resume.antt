-- ===== src/Rfb/Session/Resume.antt =====
-- An update leaves the rest of the stream as it is.
use remotedesk.Prelude.{ℕ, ◌∙◌, Bool, ◌≡◌, refl, ap, List, [], ◌∷◌, ◌++◌, Option, none, some, Bytes}
use remotedesk.Rfb.{Image}
use remotedesk.Rfb.Session.{
  Session, Env, Effect, End, sends, continue, send_framebuffer_update, sent, deliver, prepend,
  put_update, update_rects,
}

module _ (env : Env) (s : Session) (pauses : List Effect) (rest rest' : Bytes)
    (f g : Session → Bytes → List Effect × End) (h : (s' : Session) → f s' rest ≡ g s' rest') where
  deliver-resume :
      (img : Image) (bs : Bytes) (o : Option ℕ)
      → continue (deliver env s img pauses rest bs o) f
        ≡ continue (deliver env s img pauses rest' bs o) g
  unfolding deliver continue
  deliver-resume img bs none = ap (prepend _) (h _)
  deliver-resume img bs (some n) = refl

  sent-resume :
      (img : Image) (o : Option Bytes)
      → continue (sent env s img pauses rest o) f ≡ continue (sent env s img pauses rest' o) g
  unfolding sent continue
  sent-resume img none = refl
  sent-resume img (some bs) = deliver-resume img bs env.breaks

  pub update-resume :
      (incremental : Bool) (o : Option Image)
      → continue (send_framebuffer_update env incremental o s pauses rest) f
        ≡ continue (send_framebuffer_update env incremental o s pauses rest') g
  unfolding send_framebuffer_update continue
  update-resume incremental none = refl
  update-resume incremental (some img) =
      sent-resume img (put_update s.pf img (update_rects incremental s.prev img))

pub update-goes :
    (env : Env) (incremental : Bool) (img : Image) (s : Session) (pauses : List Effect)
    (rest bs : Bytes) (g : Session → Bytes → List Effect × End)
    → put_update s.pf img (update_rects incremental s.prev img) ≡ some bs
    → env.breaks ≡ none
    → continue (send_framebuffer_update env incremental (some img) s pauses rest) g
      ≡ prepend
          (pauses ++ (sends bs ∷ []))
          (g (record s { prev = some img; last_frame = some env.done }) rest)
unfolding send_framebuffer_update continue sent deliver
update-goes env incremental img s pauses rest bs g e whole =
    ap (λ o. continue (sent env s img pauses rest o) g) e
    ∙ ap (λ o. continue (deliver env s img pauses rest bs o) g) whole
