-- ===== src/Rfb/Session/Rounds.antt =====
-- A round of the loop, by the type of its message.
use remotedesk.Prelude.{ℕ, ◌≡◌, refl, Bool, true, false, [], Bytes, ◌==◌, if◌then◌else◌, arith}
use remotedesk.Rfb.{
  msg_set_pixel_format, msg_set_encodings, msg_framebuffer_update_request, msg_key_event,
  msg_pointer_event, msg_client_cut_text,
}
use remotedesk.Rfb.Session.{
  Session, Env, failed, Step, ends, read_set_pixel_format, read_set_encodings, read_fbur,
  read_key_event, read_pointer_event, read_client_cut_text, on_format, on_skipped, on_fbur,
  on_event, dispatch,
}

if-Has {ℓ κ} :
    {A : Type ℓ} (P : A → Type κ) (b : Bool) {x y : A}
    → (b ≡ true → P x)
    → P y
    → P (if b then x else y)
if-Has P true t e = t refl
if-Has P false t e = e

-- What each message may do, for a claim on the step of any.
pub record EachHas (P : Step → Type 0) (env : Env) (s : Session) (typ : ℕ) (rest : Bytes)
    : Type 0 where
  pub formats : typ ≡ 0 → P (on_format s (read_set_pixel_format rest))
  pub encodings : P (on_skipped s (read_set_encodings rest))
  pub request : P (on_fbur env s (read_fbur rest))
  pub key : P (on_event s (read_key_event rest))
  pub pointer : P (on_event s (read_pointer_event rest))
  pub cut_text : P (on_skipped s (read_client_cut_text rest))
  pub unknown : P (ends [] failed)

is_zero : (n : ℕ) → (n == 0) ≡ true → n ≡ 0
is_zero n h = ground arith

pub dispatch-Has :
    (P : Step → Type 0) (env : Env) (s : Session) (typ : ℕ) (rest : Bytes)
    → EachHas P env s typ rest
    → P (dispatch env s typ rest)
unfolding dispatch
dispatch-Has P env s typ rest h =
    if-Has P (typ == msg_set_pixel_format) (λ e. h.formats (is_zero typ e))
      (if-Has P (typ == msg_set_encodings) (λ e. h.encodings)
        (if-Has P (typ == msg_framebuffer_update_request) (λ e. h.request)
          (if-Has P (typ == msg_key_event) (λ e. h.key)
            (if-Has P (typ == msg_pointer_event) (λ e. h.pointer)
              (if-Has P (typ == msg_client_cut_text) (λ e. h.cut_text) h.unknown)))))
