-- ===== src/Rfb/Handshake/Guard.antt =====
-- A host with a password: who gets through its handshake.
use remotedesk.Prelude.{
  ◌≡◌, refl, ap, subst, sym, ◌∙◌, Bool, true, false, [], ◌∷◌, ◌++◌, Option, none, some, Bytes,
  bytes_eq, bytes_eq_iff, length,
}
use remotedesk.Stream.{Io, fail, bind, get, put, bind-some, split-some, some_inj}
use remotedesk.Rfb.Auth.{Cipher, check_vnc_auth}
use remotedesk.Rfb.Handshake.{
  Host, version, sec_type_vnc_auth, answer_challenge, challenge_client, on_selected,
  security_vnc_auth, security, server_init, handshake,
}

-- The stream chooses the authentication and holds the answer to the host's challenge.
abbrev pub Answers : Cipher → Host → Bytes → Bytes → Type 0
Answers new_cipher h bs rest =
    (challenge response : Bytes) × (h.challenge ≡ some challenge)
    × (check_vnc_auth new_cipher challenge response h.password ≡ true)
    × (length response ≡ 16)
    × (bs ≡ sec_type_vnc_auth ∷ (response ++ rest))

accepted_only :
    (b : Bool) (bs rest : Bytes)
    → (answer_challenge b bs).1 ≡ some (tt, rest)
    → (b ≡ true) × (bs ≡ rest)
unfolding answer_challenge remotedesk.Stream.resume
accepted_only true bs rest h = (refl, ap (λ (p : Unit {0} × Bytes). p.1) (some_inj h))
accepted_only false bs rest h = cc

on_challenge :
    (new_cipher : Cipher) (h : Host) (o : Option Bytes) (bs rest : Bytes)
    → h.challenge ≡ o
    → (challenge_client new_cipher h.password o bs).1 ≡ some (tt, rest)
    → Answers new_cipher h (sec_type_vnc_auth ∷ bs) rest
unfolding challenge_client
on_challenge new_cipher h none bs rest e ok = cc
on_challenge new_cipher h (some challenge) bs rest e ok =
    let checks : Bytes → Io (Unit {0}) =
      λ r. answer_challenge (check_vnc_auth new_cipher challenge r h.password) in
    let (u, start, wrote, more) =
      bind-some (put challenge) (λ u. bind (get 16) checks) bs tt rest ok in
    let (response, mid, read, done) = bind-some (get 16) checks start tt rest more in
    let same : bs ≡ start = ap (λ (p : Unit {0} × Bytes). p.1) (some_inj wrote) in
    let (cut, long) = split-some 16 start (response, mid) read in
    let (right, over) =
      accepted_only (check_vnc_auth new_cipher challenge response h.password) mid rest done in
    (
      challenge,
      response,
      e,
      right,
      long,
      ap (sec_type_vnc_auth ∷◌) (same ∙ cut ∙ ap (response ++◌) over),
    )

on_selection :
    (new_cipher : Cipher) (h : Host) (sel : Bytes) (bs rest : Bytes)
    → (on_selected new_cipher h (bytes_eq sel (sec_type_vnc_auth ∷ [])) bs).1 ≡ some (tt, rest)
    → Answers new_cipher h (sel ++ bs) rest
unfolding on_selected
on_selection new_cipher h sel bs rest ok = by_type (bytes_eq sel (sec_type_vnc_auth ∷ [])) refl ok
  where
    by_type :
        (b : Bool)
        → bytes_eq sel (sec_type_vnc_auth ∷ []) ≡ b
        → (on_selected new_cipher h b bs).1 ≡ some (tt, rest)
        → Answers new_cipher h (sel ++ bs) rest
    by_type false e done = cc
    by_type true e done =
        subst (λ s. Answers new_cipher h (s ++ bs) rest)
          (sym ((bytes_eq_iff sel (sec_type_vnc_auth ∷ [])).0 e))
          (on_challenge new_cipher h h.challenge bs rest refl done)

auth-Answers :
    (new_cipher : Cipher) (h : Host) (bs rest : Bytes)
    → (security_vnc_auth new_cipher h bs).1 ≡ some (tt, rest)
    → Answers new_cipher h bs rest
unfolding security_vnc_auth
auth-Answers new_cipher h bs rest ok =
    let (u, mid, wrote, more) =
      bind-some (put (1 ∷ sec_type_vnc_auth ∷ []))
        (λ u.
          bind (get 1) (λ sel. on_selected new_cipher h (bytes_eq sel (sec_type_vnc_auth ∷ []))))
        bs tt rest ok in
    let (sel, left, read, done) =
      bind-some (get 1) (λ s. on_selected new_cipher h (bytes_eq s (sec_type_vnc_auth ∷ []))) mid tt
        rest more in
    let same : bs ≡ mid = ap (λ (p : Unit {0} × Bytes). p.1) (some_inj wrote) in
    let (cut, long) = split-some 1 mid (sel, left) read in
    subst (λ b. Answers new_cipher h b rest) (sym (same ∙ cut))
      (on_selection new_cipher h sel left rest done)

-- The handshake of a host with a password succeeds only on a stream that has, after the client's
-- version, the choice of the authentication, and sixteen bytes that are the right answer to the host's
-- challenge, followed by one byte and what is left for the session.
pub handshake-Answers :
    (new_cipher : Cipher) (h : Host) (bs rest : Bytes)
    → bytes_eq h.password [] ≡ false
    → (handshake new_cipher h bs).1 ≡ some (tt, rest)
    → (ver stream shared : Bytes) × (bs ≡ ver ++ stream)
      × (length ver ≡ 12)
      × (length shared ≡ 1)
      × Answers new_cipher h stream (shared ++ rest)
unfolding handshake security
handshake-Answers new_cipher h bs rest locked ok =
    let after_security : Unit {0} → Io (Unit {0}) =
      λ v. bind (get 1) (λ shared. put (server_init h)) in
    let (u, start, wrote, more) =
      bind-some (put version)
        (λ u.
          bind (get 12)
            (λ ver. bind (security new_cipher h (bytes_eq h.password [])) after_security))
        bs tt rest ok in
    let (ver, stream, read, going) =
      bind-some (get 12)
        (λ ver. bind (security new_cipher h (bytes_eq h.password [])) after_security) start tt rest
        more in
    let (v, mid, secure, ending) =
      bind-some (security new_cipher h (bytes_eq h.password [])) after_security stream tt rest
        going in
    let (shared, left, last, sent) =
      bind-some (get 1) (λ shared. put (server_init h)) mid tt rest ending in
    let same : bs ≡ start = ap (λ (p : Unit {0} × Bytes). p.1) (some_inj wrote) in
    let (cut, long) = split-some 12 start (ver, stream) read in
    let (tail, one) = split-some 1 mid (shared, left) last in
    let over : left ≡ rest = ap (λ (p : Unit {0} × Bytes). p.1) (some_inj sent) in
    let secured : (security_vnc_auth new_cipher h stream).1 ≡ some (tt, mid) =
      ap (λ b. (security new_cipher h b stream).1) (sym locked) ∙ secure in
    (
      ver,
      stream,
      shared,
      same ∙ cut,
      long,
      one,
      subst (Answers new_cipher h stream) (tail ∙ ap (shared ++◌) over)
          (auth-Answers new_cipher h stream mid secured),
    )
