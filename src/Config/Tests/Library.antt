-- ===== src/Config/Tests/Library.antt =====
-- A small library of keys: a line is one byte, and a private key's file has one byte before the key.
use remotedesk.Prelude.{◌≡◌, ◌<◌, ap, [], ◌∷◌, Option, none, some, Bytes, length, arith}
use remotedesk.Config.{KeyLib, Lawful}

abbrev take_line : Bytes → Option (Bytes × Bytes)
take_line [] = none
take_line (c ∷ text) = some (c ∷ [], text)

abbrev take_key : Bytes → Option Bytes
take_key [] = none
take_key (c ∷ signer) = some signer

abbrev pub lib : KeyLib
lib = record {
  parse_authorized = take_line;
  parse_private = take_key;
  marshal_private = λ signer. some (7 ∷ signer);
}

take_key_back : (signer pem : Bytes) → some (7 ∷ signer) ≡ some pem → take_key pem ≡ some signer
take_key_back signer [] h = cc
take_key_back signer (c ∷ pem) h = cc

pair_inj : {p q : Bytes × Bytes} → some p ≡ some q → p ≡ q
pair_inj h = cc

take_line_shorter :
    (text key rest : Bytes) → take_line text ≡ some (key, rest) → length rest < length text
take_line_shorter [] key rest h = cc
take_line_shorter (c ∷ text) key rest h =
    let line : Bytes × Bytes = (c ∷ [], text) in
    let taken : Bytes × Bytes = (key, rest) in
    let same : line ≡ taken = pair_inj h in
    omega (arith, ap (λ (p : Bytes × Bytes). length p.1) same)

pub lib-Lawful : Lawful lib
lib-Lawful = record { private_back = take_key_back; rest_shorter = take_line_shorter }
