-- ===== src/Protocol/Success/Delivery.antt =====
-- ProtocolHandler.cpp, `handleFileEncryptionAndSend` against a server that serves.
use mathlib.Core.List.{append_assoc}
use defensive_systems_open_u.Prelude.{
  ℕ, ◌+◌, ◌%◌, ◌^◌, ◌<◌, ◌≡◌, refl, sym, ap, ◌∙◌, arith, true, some, [], ◌∷◌, ◌++◌, length,
  length-append, take, drop, Bytes, IsBytes, hex,
}
use defensive_systems_open_u.Buffer.{padded, big32}
use defensive_systems_open_u.Buffer.Laws.{drop-append_all, take-append, length-padded}
use defensive_systems_open_u.Constants.{send_file}
use defensive_systems_open_u.Crypto.{encrypt_with_aes, decrypt_with_rsa}
use defensive_systems_open_u.Crypto.Hex.{unhex, unhex-hex, length-hex}
use defensive_systems_open_u.Crypto.Rsa.{private_wrapper_key}
use defensive_systems_open_u.Crypto.RoundTrip.{
  cipher_text, cipher_text-IsBytes, length-cipher_text-le, cbc_decrypt-cipher_text,
  encrypt_with_aes_lem, decrypt_with_rsa_lem,
}
use defensive_systems_open_u.FileHandler.{read_file_contents}
use defensive_systems_open_u.FileHandler.RoundTrip.{open_in_lem}
use defensive_systems_open_u.Protocol.Connection.{Handler}
use defensive_systems_open_u.Protocol.Payload.{create_file_payload_buffer}
use defensive_systems_open_u.Protocol.Payload.Layout.{create_file_payload_buffer_lem}
use defensive_systems_open_u.Protocol.Success.Exchange.{made, Runs-new_request}
use defensive_systems_open_u.Protocol.Success.Rules.{Runs, Runs-step, Runs-gets, Runs-in_bounds}
use defensive_systems_open_u.Protocol.Success.Server.{keyed, done, IsServer}
use defensive_systems_open_u.Protocol.Success.Upload.{Carries, handle_retry_send_file-Runs}
use defensive_systems_open_u.Protocol.Upload.{handle_file_encryption_and_send}
use defensive_systems_open_u.Runtime.Library
use defensive_systems_open_u.Runtime.Library.{Library}
use defensive_systems_open_u.Runtime.Os.{Os}

-- What the payload of an upload looks like without the zero at its end.
module _ (size name text : Bytes) (size4 : length size ≡ 4) (name255 : length name ≡ 255) where
  abbrev file_part : Bytes
  file_part = size ++ (name ++ text)

  length-file_part : length file_part ≡ 259 + length text
  length-file_part = omega (arith, length-append size (name ++ text), length-append name text)

  take-file_part : take (259 + length text) (size ++ (name ++ (text ++ (0 ∷ [])))) ≡ file_part
  take-file_part =
      ap (take (259 + length text)) (
        ap (λ (t : Bytes). size ++ t) (sym (append_assoc name text (0 ∷ [])))
        ∙ sym (append_assoc size (name ++ text) (0 ∷ [])))
      ∙ take-append file_part (0 ∷ []) (259 + length text) length-file_part

  name-file_part : take 255 (drop 4 file_part) ≡ name
  name-file_part =
      ap (take 255) (drop-append_all size (name ++ text) 4 size4)
      ∙ take-append name text 255 name255

  text-file_part : drop 259 file_part ≡ text
  text-file_part =
      ap (drop 259) (sym (append_assoc size name text))
      ∙ drop-append_all (size ++ name) text 259 (omega (arith, length-append size name))

module _ {O : Os} {L : Library} (lawful : Library.IsLawful L) (h : Handler) (contents : Bytes)
    (server : IsServer O L h.socket h.client_name h.file_path contents) (bytes : IsBytes contents)
    (small : length contents < 2 ^ 30) where
  open server use {In}

  module _ (id aes : Bytes) (h16 : length id ≡ 16) (a16 : length aes ≡ 16) where
    Carries-made :
        (pad seed : ℕ) (cipher : Bytes)
        → cipher_text L aes contents seed ≡ cipher
        → Carries h contents server bytes
            (omega arith)
            (made pad id send_file
              (4 + 255 + length (hex cipher))
              (big32 (length (hex cipher)) ++ (padded 255 h.file_path ++ (hex cipher ++ (0 ∷ [])))))
            id
            aes
    Carries-made pad seed cipher e = record {
      is = record { id_size = h16; code_fits = omega arith };
      size_fits = omega arith;
      enough = omega (arith, reduced, length-payload);
      code = refl;
      client_id = refl;
      name =
          ap (λ (p : Bytes). take 255 (drop 4 p)) whole
          ∙ name-file_part size name text refl name255;
      plain =
          ap (λ (p : Bytes). L.cbc_decrypt aes (take 16 (unhex p)) (drop 16 (unhex p)))
            (ap (drop 259) whole ∙ text-file_part size name text refl name255)
          ∙ ap (λ (p : Bytes). L.cbc_decrypt aes (take 16 p) (drop 16 p)) back
          ∙ cbc_decrypt-cipher_text L lawful aes contents seed a16 bytes;
    }
      where
        size : Bytes
        size = big32 (length (hex cipher))

        name : Bytes
        name = padded 255 h.file_path

        name255 : length name ≡ 255
        name255 = length-padded 255 h.file_path

        text : Bytes
        text = hex cipher

        fits : 259 + length text < 2 ^ 32
        fits = omega (
          arith,
          length-hex cipher,
          ap length e,
          length-cipher_text-le L lawful aes contents seed,
        )

        reduced : (4 + 255 + length text) % 2 ^ 32 ≡ 259 + length text
        reduced = omega (arith, fits)

        length-payload : length (size ++ (name ++ (text ++ (0 ∷ [])))) ≡ 260 + length text
        length-payload = omega (
          arith,
          length-append size (name ++ (text ++ (0 ∷ []))),
          length-append name (text ++ (0 ∷ [])),
          length-append text (0 ∷ []),
          name255,
        )

        whole :
            take ((4 + 255 + length text) % 2 ^ 32) (size ++ (name ++ (text ++ (0 ∷ []))))
            ≡ file_part size name text refl name255
        whole =
            ap (λ (k : ℕ). take k (size ++ (name ++ (text ++ (0 ∷ []))))) reduced
            ∙ take-file_part size name text refl name255

        back : unhex text ≡ cipher_text L aes contents seed
        back =
            ap (λ (c : Bytes). unhex (hex c)) (sym e)
            ∙ unhex-hex _ (cipher_text-IsBytes L lawful aes contents seed bytes)

    pub handle_file_encryption_and_send-Runs :
        (key : L.PrivateKey) (seed : ℕ) (encrypted : Bytes) (s : O.State)
        → L.rsa_encrypt seed (L.public_of key) aes ≡ some encrypted
        → In (keyed id aes) s
        → Runs {O = O}
            (handle_file_encryption_and_send L h encrypted (private_wrapper_key L key) id)
            s
            (λ a s'. (a ≡ true) × In done s')
    unfolding handle_file_encryption_and_send read_file_contents
    handle_file_encryption_and_send-Runs key seed encrypted s e at =
        let file = server.file (keyed id aes) s at in
        let cipher = cipher_text L aes contents (O.entropy s).0 in
        let s1 : O.State = (O.entropy s).1 in
        Runs-step (decrypt_with_rsa L encrypted (private_wrapper_key L key)) _ s _ aes s
          (λ t. (t, decrypt_with_rsa_lem L lawful key seed aes encrypted _ e))
          (Runs-step (read_file_contents h.file_path) _ s _ contents s
            (λ t. (t, open_in_lem _ h.file_path file.opens))
            (Runs-step (encrypt_with_aes L contents aes) _ s _ (hex cipher) s1
              (λ t. (t, encrypt_with_aes_lem L lawful contents aes _ a16 (omega arith)))
              (Runs-gets (λ (v : O.State). O.garbage (4 + 255 + length (hex cipher) + 1) v) _ s1 _
                (Runs-in_bounds (create_file_payload_buffer h.file_path (hex cipher) _) _ s1 _
                  (create_file_payload_buffer_lem h.file_path cipher _
                    (cipher_text-IsBytes L lawful aes contents (O.entropy s).0 bytes)
                    (server.length-garbage _ s1))
                  (Runs-new_request id send_file _ _ _ s1 _ h16 (
                    handle_retry_send_file-Runs h contents server bytes (omega arith) _ id aes
                      (Carries-made (O.padding s1) (O.entropy s).0 cipher refl) h16 2 s1
                      (server.after_entropy (keyed id aes) s at)))))))
