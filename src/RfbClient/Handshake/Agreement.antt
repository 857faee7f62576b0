-- ===== src/RfbClient/Handshake/Agreement.antt =====
-- The two handshakes, each run on what the other one writes.
use mathlib.Core.Path.{ap₂}
use remotedesk.Prelude.{
  ℕ, ◌/◌, ◌%◌, ◌<◌, ◌≡◌, refl, ap, sym, ◌∙◌, true, false, [], ◌∷◌, ◌++◌, Option, some, Bytes, pos,
  length, bytes_eq, append_assoc, append-nil, arith,
}
use remotedesk.BigEndian.{put_u16, put_u32, get_u16, get_u32}
use remotedesk.Stream.{Io, pure, bind, resume, put, split, split_head, split-append}
use remotedesk.Rfb.Format
use remotedesk.Rfb.Auth.{Cipher, check_vnc_auth, client_response, password_key}
use remotedesk.Rfb.Auth.Response.{TakesKeys, client_accepted}
use remotedesk.Rfb.Handshake.{
  Host, version, security_result, security_none, security, server_init, handshake,
  security_vnc_auth, on_selected, challenge_client, answer_challenge,
}
use remotedesk.RfbClient.{Client, set_pixel_format_msg, set_encodings_msg, put_encodings, wrap}
use remotedesk.RfbClient.Handshake.{
  connect, read_types, has, do_security, word, on_result, read_init, read_string, read_text,
  dimensions,
}

-- The session that a client asks for.
abbrev pub requests : Bytes
requests = set_pixel_format_msg ++ set_encodings_msg (pos 1 ∷ pos 0 ∷ [])

-- What the host writes to a client without a password, and what the client writes.
abbrev pub host_open : Host → Bytes
host_open h = version ++ (1 ∷ 1 ∷ (security_result true ++ server_init h))

abbrev pub client_open : Bytes
client_open = version ++ (1 ∷ 1 ∷ requests)

host_reads :
    (new_cipher : Cipher) (h : Host) (rest : Bytes)
    → bytes_eq h.password [] ≡ true
    → handshake new_cipher h (client_open ++ rest) ≡ (host_open h, some (tt, requests ++ rest))
unfolding handshake security security_none split split_head resume
host_reads new_cipher h rest e = rw e refl

-- What the client does once it has read the name.
abbrev after_name :
    (Bytes → Bytes) → Bytes × Option (Bytes × Bytes) → Client → Bytes × Option (Client × Bytes)
after_name out named c =
    let last : Bytes → Io Client = λ name.
      bind (put set_pixel_format_msg)
        (λ u. bind (put (set_encodings_msg (pos 1 ∷ pos 0 ∷ []))) (λ v. pure c)) in
    let (later, res) = resume named.0 named.1 last in (out later, res)

string_read :
    (name rest : Bytes)
    → length name < 4294967296
    → read_string (put_u32 (length name) ++ (name ++ rest)) ≡ ([], some (name, rest))
unfolding read_string read_text word resume split split_head
string_read name rest h =
    let long : get_u32 (length name / 16777216 % 256) (length name / 65536 % 256)
          (length name / 256 % 256) (length name % 256)
        ≡ length name =
      omega arith in
    ap (λ o. ([], read_text o))
      (ap (λ n. split n (name ++ rest)) long ∙ split-append (length name) name rest refl)

dimensions_read :
    (w h : ℕ)
    → w < 65536
    → h < 65536
    → dimensions (put_u16 w ++ put_u16 h) ≡ record { width = w; height = h }
unfolding dimensions
dimensions_read w h hw hh =
    let width_eq : get_u16 (w / 256 % 256) (w % 256) ≡ w = omega arith in
    let height_eq : get_u16 (h / 256 % 256) (h % 256) ≡ h = omega arith in
    λ i. record { width = width_eq i; height = height_eq i }

client_reads :
    (new_cipher : Cipher) (password : Bytes) (h : Host) (rest : Bytes)
    → h.width < 65536
    → h.height < 65536
    → length h.name < 4294967296
    → connect new_cipher password (host_open h ++ rest)
      ≡ (client_open, some (record { width = h.width; height = h.height }, rest))
unfolding connect read_types has do_security word on_result read_init read_string read_text split
    split_head resume server_init Format.write set_pixel_format_msg set_encodings_msg put_encodings
    wrap
client_reads new_cipher password h rest hw hh hn =
    ap₂ (after_name (λ later. version ++ (1 ∷ (1 ∷ later)))) (string_read h.name rest hn)
      (dimensions_read h.width h.height hw hh)

-- With a password: what each side writes, before `rest`.
abbrev pub host_locked : Host → Bytes → Bytes → Bytes
host_locked h challenge rest =
    version ++ (1 ∷ 2 ∷ (challenge ++ (security_result true ++ (server_init h ++ rest))))

abbrev pub client_locked : Bytes → Bytes → Bytes
client_locked response rest = version ++ (2 ∷ (response ++ (1 ∷ (requests ++ rest))))

host_checks :
    (new_cipher : Cipher) (h : Host) (challenge response rest : Bytes)
    → bytes_eq h.password [] ≡ false
    → h.challenge ≡ some challenge
    → length response ≡ 16
    → check_vnc_auth new_cipher challenge response h.password ≡ true
    → handshake new_cipher h (client_locked response rest)
      ≡ (host_locked h challenge [], some (tt, requests ++ rest))
unfolding handshake security security_vnc_auth on_selected challenge_client answer_challenge split
    split_head resume bytes_eq server_init Format.write
host_checks new_cipher h challenge response rest e hc hl ok =
    rw (e, hc, split-append 16 response (1 ∷ (requests ++ rest)) hl, ok)
      (ap (λ q. (version ++ (1 ∷ (2 ∷ q)), some (tt, requests ++ rest)))
        (append_assoc challenge (security_result true) (server_init h)
          ∙ ap (λ z. challenge ++ (security_result true ++ z)) (sym (append-nil (server_init h)))))

client_answers :
    (new_cipher : Cipher) (password : Bytes) (h : Host) (challenge rest : Bytes)
    → length challenge ≡ 16
    → h.width < 65536
    → h.height < 65536
    → length h.name < 4294967296
    → connect new_cipher password (host_locked h challenge rest) ≡ (
      client_locked (client_response new_cipher challenge password) [],
      some (record { width = h.width; height = h.height }, rest),
    )
unfolding connect read_types has do_security word on_result read_init split split_head resume
    server_init Format.write set_pixel_format_msg set_encodings_msg put_encodings wrap
client_answers new_cipher password h challenge rest hl hw hh hn =
    let response = client_response new_cipher challenge password in
    rw (split-append 16 challenge (security_result true ++ (server_init h ++ rest)) hl) (
      ap₂ (after_name (λ later. version ++ (2 ∷ (response ++ (1 ∷ later)))))
        (string_read h.name rest hn) (dimensions_read h.width h.height hw hh))

-- The dimensions and the name fit their words.
pub record FitsWire (h : Host) : Type 0 where
  pub width_fits : h.width < 65536
  pub height_fits : h.height < 65536
  pub name_fits : length h.name < 4294967296

-- A host without a password and a client understand one another: on what the other one writes, each
-- side finishes without an error and writes what the other one has read. The client has the
-- dimensions of the host's screen, and the host goes on with the client's first messages. The
-- dimensions and the name's length fit their words.
pub open-agrees :
    (new_cipher : Cipher) (password : Bytes) (h : Host) (rest rest' : Bytes)
    → bytes_eq h.password [] ≡ true
    → FitsWire h
    → (handshake new_cipher h (client_open ++ rest) ≡ (host_open h, some (tt, requests ++ rest)))
      × (connect new_cipher password (host_open h ++ rest')
          ≡ (client_open, some (record { width = h.width; height = h.height }, rest')))
open-agrees new_cipher password h rest rest' e f = (
  host_reads new_cipher h rest e,
  client_reads new_cipher password h rest' f.width_fits f.height_fits f.name_fits,
)

-- DES turns the two blocks of a challenge into sixteen bytes.
pub record FillsBlocks (new_cipher : Cipher) : Type 0 where
  pub fills :
      (challenge password : Bytes)
      → length challenge ≡ 16
      → length (client_response new_cipher challenge password) ≡ 16

-- A host with a password and a client whose password has the same key understand one another too,
-- whatever challenge of sixteen bytes the host draws: on what the other one writes, each side
-- finishes without an error and writes what the other one has read. The cipher takes keys of eight
-- bytes and answers a challenge with sixteen bytes; the dimensions and the name's length fit their
-- words.
pub locked-agrees :
    (new_cipher : Cipher) (password challenge : Bytes) (h : Host) (rest rest' : Bytes)
    → TakesKeys new_cipher
    → FillsBlocks new_cipher
    → bytes_eq h.password [] ≡ false
    → h.challenge ≡ some challenge
    → length challenge ≡ 16
    → password_key password ≡ password_key h.password
    → FitsWire h
    → (handshake new_cipher h (client_locked (client_response new_cipher challenge password) rest)
        ≡ (host_locked h challenge [], some (tt, requests ++ rest)))
      × (connect new_cipher password (host_locked h challenge rest') ≡ (
        client_locked (client_response new_cipher challenge password) [],
        some (record { width = h.width; height = h.height }, rest'),
      ))
locked-agrees new_cipher password challenge h rest rest' t b e hc hl k f = (
  host_checks new_cipher h challenge (client_response new_cipher challenge password) rest e hc
      (b.fills challenge password hl)
      (client_accepted new_cipher challenge password h.password t k),
  client_answers new_cipher password h challenge rest' hl f.width_fits f.height_fits f.name_fits,
)
