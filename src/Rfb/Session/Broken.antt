-- ===== src/Rfb/Session/Broken.antt =====
-- A session whose connection breaks in a write, beside one whose writes succeed.
use remotedesk.Prelude.{ℕ, ◌≡◌, ◌⊎◌, List, [], ◌∷◌, ◌++◌, none, Bytes, take}
use remotedesk.Rfb.Session.{Session, Env, Effect, sends, End, failed, Step, goes, ends}

-- The environment in which the client takes all of the update.
abbrev pub mend : Env → Env
mend env = record env { breaks = none }

-- The step is the same, or it is an update of which the client has a first part.
abbrev BreaksOff : Step → Step → Type 0
BreaksOff step mended =
    (step ≡ mended)
    ⊎ ((pauses : List Effect) × (out : Bytes) × (n : ℕ) × (s1 : Session) × (rest : Bytes) × (step
          ≡ ends (pauses ++ (sends (take n out) ∷ [])) failed)
        × (mended ≡ goes s1 (pauses ++ (sends out ∷ [])) rest))

-- What the session did, beside what it would have done: the same, or the same up to an update of which
-- the client has a first part, and then nothing.
abbrev pub StopsShort : List Effect × End → List Effect × End → Type 0
StopsShort done mended =
    (done ≡ mended)
    ⊎ ((before after : List Effect) × (out : Bytes) × (n : ℕ) × (fin : End) × (done
          ≡ (before ++ (sends (take n out) ∷ []), failed))
        × (mended ≡ (before ++ (sends out ∷ after), fin)))
