-- ===== src/RfbClient/Dialogue.antt =====
-- The viewer's messages, read by the server: the bytes of internal/rfbclient/io.go through the loop
-- of internal/rfb/server.go.
use mathlib.Core.Path.{ap₂}
use remotedesk.Prelude.{
  ℕ, zero, suc, ◌-◌, ◌*◌, ◌/◌, ◌%◌, ◌<◌, ◌≡◌, refl, ap, ◌∙◌, min, Bool, true, false, List, [], ◌∷◌,
  ◌++◌, some, Bytes, ℤ, pos, negsuc, All, length, drop-append, length-append, arith, if◌then◌else◌,
}
use remotedesk.BigEndian.{get_u16}
use remotedesk.Rfb.{default_pixel_format}
use remotedesk.Rfb.Session.{
  Session, Env, Effect, End, Step, key_event, pointer_event, goes, waits, clean, round, loop,
  continue, dispatch, on_format, on_event, on_skipped, on_fbur, read_set_pixel_format,
  read_set_encodings, read_fbur, read_key_event, read_pointer_event, discard,
  send_framebuffer_update, pace, prepend,
}
use remotedesk.Rfb.Session.Resume.{update-resume}
use remotedesk.Rfb.Format.{read}
use remotedesk.RfbClient.{
  Client, wrap, clamp, set_pixel_format_msg, put_encodings, set_encodings_msg, request_update_msg,
  pointer_msg, key_msg,
}

-- The calls of a client.
pub data Call : Type 0 where
  set_pixel_format : Call
  set_encodings : List ℤ → Call
  request_update : Bool → Call
  send_pointer : ℤ → ℤ → ℕ → Call
  send_key : ℕ → Bool → Call

abbrev pub message : Client → Call → Bytes
message c set_pixel_format = set_pixel_format_msg
message c (set_encodings encodings) = set_encodings_msg encodings
message c (request_update incremental) = request_update_msg c incremental
message c (send_pointer x y buttons) = pointer_msg c x y buttons
message c (send_key keysym is_down) = key_msg keysym is_down

abbrev pub messages : Client → List Call → Bytes
messages c [] = []
messages c (call ∷ calls) = message c call ++ messages c calls

-- The arguments have the widths of the source's types.
abbrev pub Fits : Call → Type 0
Fits (set_encodings encodings) = length encodings < 65536
Fits (send_key keysym is_down) = keysym < 4294967296
Fits call = Unit {0}

-- The nearest position on a screen of a positive size.
abbrev pub nearest : ℤ → ℕ → ℕ
nearest (pos x) size = min x (size - 1)
nearest (negsuc x) size = 0

-- What a call means to the server.
abbrev pub answer : Env → Client → Session → Bytes → Call → Step
answer env c s rest set_pixel_format = goes (record s { pf = default_pixel_format }) [] rest
answer env c s rest (set_encodings encodings) = goes s [] rest
answer env c s rest (request_update incremental) =
    send_framebuffer_update env incremental env.capture s
      (if incremental then pace s env.now s.last_frame else []) rest
answer env c s rest (send_pointer x y buttons) =
    goes s (pointer_event (nearest x c.width) (nearest y c.height) buttons ∷ []) rest
answer env c s rest (send_key keysym is_down) = goes s (key_event keysym is_down ∷ []) rest

wrap-clamp : (v : ℤ) (max : ℕ) → 0 < max → max < 65536 → wrap 65536 (clamp v max) ≡ nearest v max
unfolding wrap clamp
wrap-clamp (negsuc n) max h k = refl
wrap-clamp (pos v) zero h k = absurd (omega arith)
wrap-clamp (pos v) (suc max) h k = ground arith

nearest-lt : (v : ℤ) (max : ℕ) → 0 < max → nearest v max < max
nearest-lt (pos v) max h = omega arith
nearest-lt (negsuc v) max h = h

read-clamp :
    (v : ℤ) (max : ℕ)
    → 0 < max
    → max < 65536
    → get_u16 (wrap 65536 (clamp v max) / 256 % 256) (wrap 65536 (clamp v max) % 256)
      ≡ nearest v max
read-clamp v max h k = omega (arith, wrap-clamp v max h k, nearest-lt v max h)

length-put_encodings :
    (encodings : List ℤ) → length (put_encodings encodings) ≡ length encodings * 4
unfolding put_encodings
length-put_encodings [] = refl
length-put_encodings (e ∷ encodings) = omega (arith, length-put_encodings encodings)

discard-append : (n : ℕ) (xs rest : Bytes) → length xs ≡ n → discard n (xs ++ rest) ≡ some rest
unfolding discard
discard-append n xs rest h = ground (arith, length-append xs rest, drop-append xs rest)

module _ (env : Env) (c : Client) (s : Session) (rest : Bytes) where
  round-format : round env s (set_pixel_format_msg ++ rest) ≡ answer env c s rest set_pixel_format
  unfolding round dispatch set_pixel_format_msg read_set_pixel_format read on_format
  round-format = refl

  round-encodings :
      (encodings : List ℤ)
      → length encodings < 65536
      → round env s (set_encodings_msg encodings ++ rest)
        ≡ answer env c s rest (set_encodings encodings)
  unfolding round dispatch set_encodings_msg read_set_encodings on_skipped
  round-encodings encodings h = ap (on_skipped s) (
      discard-append (get_u16 (length encodings / 256 % 256) (length encodings % 256) * 4)
        (put_encodings encodings) rest (omega (arith, length-put_encodings encodings)))

  round-request :
      (incremental : Bool)
      → round env s (request_update_msg c incremental ++ rest)
        ≡ answer env c s rest (request_update incremental)
  unfolding round dispatch request_update_msg read_fbur on_fbur
  round-request true = refl
  round-request false = refl

  round-pointer :
      (x y : ℤ) (buttons : ℕ)
      → 0 < c.width
      → c.width < 65536
      → 0 < c.height
      → c.height < 65536
      → round env s (pointer_msg c x y buttons ++ rest)
        ≡ answer env c s rest (send_pointer x y buttons)
  unfolding round dispatch pointer_msg read_pointer_event on_event
  round-pointer x y buttons w0 w1 h0 h1 =
      ap₂ (λ a b. goes s (pointer_event a b buttons ∷ []) rest) (read-clamp x c.width w0 w1)
        (read-clamp y c.height h0 h1)

  round-key :
      (keysym : ℕ) (is_down : Bool)
      → keysym < 4294967296
      → round env s (key_msg keysym is_down ++ rest) ≡ answer env c s rest (send_key keysym is_down)
  unfolding round dispatch key_msg read_key_event on_event
  round-key keysym true h = ap (λ k. goes s (key_event k true ∷ []) rest) (omega arith)
  round-key keysym false h = ap (λ k. goes s (key_event k false ∷ []) rest) (omega arith)

-- The screen has a positive size, in 16 bits.
pub record HasScreen (c : Client) : Type 0 where
  pub width_pos : 0 < c.width
  pub width_fits : c.width < 65536
  pub height_pos : 0 < c.height
  pub height_fits : c.height < 65536

round-message :
    (env : Env) (c : Client) (s : Session) (rest : Bytes) (call : Call)
    → HasScreen c
    → Fits call
    → round env s (message c call ++ rest) ≡ answer env c s rest call
round-message env c s rest set_pixel_format v h = round-format env c s rest
round-message env c s rest (set_encodings encodings) v h = round-encodings env c s rest encodings h
round-message env c s rest (request_update incremental) v h = round-request env c s rest incremental
round-message env c s rest (send_pointer x y buttons) v h =
    round-pointer env c s rest x y buttons v.width_pos v.width_fits v.height_pos v.height_fits
round-message env c s rest (send_key keysym is_down) v h = round-key env c s rest keysym is_down h

-- The server's loop, had it been given the calls in place of their bytes.
abbrev pub answers : Client → List Env → Session → List Call → List Effect × End
answers c [] s calls = ([], waits)
answers c (env ∷ envs) s [] = ([], clean)
answers c (env ∷ envs) s (call ∷ calls) =
    continue (answer env c s [] call) (λ s' rest. answers c envs s' calls)

clean_end : (env : Env) (s : Session) (envs : List Env) → loop (env ∷ envs) s [] ≡ ([], clean)
unfolding loop continue round
clean_end env s envs = refl

answer-resume :
    (env : Env) (c : Client) (s : Session) (rest : Bytes)
    (f g : Session → Bytes → List Effect × End)
    → ((s' : Session) → f s' rest ≡ g s' [])
    → (call : Call) → continue (answer env c s rest call) f ≡ continue (answer env c s [] call) g
unfolding continue
answer-resume env c s rest f g h set_pixel_format = ap (prepend []) (h _)
answer-resume env c s rest f g h (set_encodings encodings) = ap (prepend []) (h s)
answer-resume env c s rest f g h (request_update incremental) =
    update-resume env s (if incremental then pace s env.now s.last_frame else []) rest [] f g h
      incremental env.capture
answer-resume env c s rest f g h (send_pointer x y buttons) = ap (prepend _) (h s)
answer-resume env c s rest f g h (send_key keysym is_down) = ap (prepend _) (h s)

pub messages_understood :
    (c : Client) (envs : List Env) (s : Session) (calls : List Call)
    → HasScreen c
    → All Fits calls
    → loop envs s (messages c calls) ≡ answers c envs s calls
unfolding loop
messages_understood c [] s calls v h = refl
messages_understood c (env ∷ envs) s [] v h = clean_end env s envs
messages_understood c (env ∷ envs) s (call ∷ calls) v (h, hs) =
    ap (λ step. continue step (λ s' rest. loop envs s' rest))
      (round-message env c s (messages c calls) call v h)
    ∙ answer-resume env c s (messages c calls) (λ s' rest. loop envs s' rest)
        (λ s' rest. answers c envs s' calls) (λ s'. messages_understood c envs s' calls v hs) call
