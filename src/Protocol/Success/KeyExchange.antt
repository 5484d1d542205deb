-- ===== src/Protocol/Success/KeyExchange.antt =====
-- ProtocolHandler.cpp, `handleRSARegistration` against a server that serves.
use defensive_systems_open_u.Prelude.{
  ℕ, ◌+◌, ◌^◌, ◌≤◌, ◌<◌, ◌≡◌, refl, ap, ◌∙◌, arith, some, [], ◌∷◌, ◌++◌, length, length-append,
  drop, Bytes, IsBytes, codes, newline,
}
use defensive_systems_open_u.Buffer.{padded}
use defensive_systems_open_u.Buffer.Laws.{take_all, length-padded}
use defensive_systems_open_u.Constants.{send_public_key, name_field_size}
use defensive_systems_open_u.Crypto.{generate_rsa_key_pair}
use defensive_systems_open_u.Crypto.Rsa.{public_key_text, private_wrapper_key, bits}
use defensive_systems_open_u.Crypto.RoundTrip.{generate_rsa_key_pair_lem}
use defensive_systems_open_u.FileHandler.{private_key_path, save_private_rsa_key, save_me_info}
use defensive_systems_open_u.FileHandler.RoundTrip.{write_to_file_lem, save_me_info_lem}
use defensive_systems_open_u.Protocol.Connection.{Handler, send_request, get_response}
use defensive_systems_open_u.Protocol.Flow.{handle_rsa_registration}
use defensive_systems_open_u.Protocol.Message.{Request, Response}
use defensive_systems_open_u.Protocol.Message.Layout.{receive}
use defensive_systems_open_u.Protocol.Payload.{public_key_payload}
use defensive_systems_open_u.Protocol.Payload.Layout.{public_key_payload_lem}
use defensive_systems_open_u.Protocol.Success.Exchange.{
  made, as_received, send_request-Runs, get_response-Runs, Runs-new_request,
}
use defensive_systems_open_u.Protocol.Success.Rules.{
  Runs, Runs-pure, Runs-bind, Runs-step, Runs-gets, Runs-in_bounds,
}
use defensive_systems_open_u.Protocol.Success.Server.{registered, keyed, Exchange, IsServer}
use defensive_systems_open_u.Runtime.Library
use defensive_systems_open_u.Runtime.Library.{Library}
use defensive_systems_open_u.Runtime.Os.{Os}
use defensive_systems_open_u.Runtime.Exec.{pure, ◌>>=◌}

module _ {O : Os} {L : Library} (lawful : Library.IsLawful L) (h : Handler) (contents : Bytes)
    (server : IsServer O L h.socket h.client_name h.file_path contents) (bytes : IsBytes contents)
    (small : length contents < 2 ^ 30) where
  open server use {In}

  -- The reply to the public key, and the private key.
  unfoldable pub Keyed : Bytes → Response × Bytes → O.State → Type 0
  Keyed id (r, saved) s =
      (r.code ≡ 2102)
      × ((key : L.PrivateKey) × (aes : Bytes) × (seed : ℕ) × (saved ≡ private_wrapper_key L key)
          × (length aes ≡ 16)
          × (16 ≤ length r.payload)
          × (L.rsa_encrypt seed (L.public_of key) aes ≡ some (drop 16 r.payload))
          × In (keyed id aes) s)

  abbrev key_payload : L.PrivateKey → Bytes
  key_payload key =
      padded 254 h.client_name
      ++ ((0 ∷ []) ++ padded (length (public_key_text L key)) (public_key_text L key))

  length-key_payload :
      (key : L.PrivateKey) → length (key_payload key) ≡ 255 + length (public_key_text L key)
  length-key_payload key = omega (
    arith,
    length-append (padded 254 h.client_name)
        ((0 ∷ []) ++ padded (length (public_key_text L key)) (public_key_text L key)),
    length-padded 254 h.client_name,
    length-padded (length (public_key_text L key)) (public_key_text L key),
  )

  length-public_key_text-lt : (key : L.PrivateKey) → length (public_key_text L key) < 2 ^ 17
  unfolding public_key_text
  length-public_key_text-lt key = omega (
    arith,
    length-append (L.base64_encode (L.save_public (L.public_of key)))
        (newline ∷ (codes "-----END PUBLIC KEY-----" ++ (newline ∷ []))),
    lawful.length-base64_encode-lt (L.public_of key),
  )

  abbrev Answered : Bytes → L.PrivateKey → ℕ → Bytes → O.State → Type 0
  Answered id key code payload s =
      (code ≡ 2102)
      × ((aes : Bytes) × (seed : ℕ) × (length aes ≡ 16)
          × (16 ≤ length payload)
          × (L.rsa_encrypt seed (L.public_of key) aes ≡ some (drop 16 payload))
          × In (keyed id aes) s)

  key-exchange :
      (id : Bytes) (key : L.PrivateKey) (pad : ℕ) (s : O.State) (b : Bytes)
      → In (registered id) s
      → receive b
        ≡ as_received (
            made pad id send_public_key
              (name_field_size + length (public_key_text L key))
              (key_payload key))
      → Exchange O h.socket s b (Answered id key)
  key-exchange id key pad s b at e =
      server.sends_key s b id key at (ap (λ r. r.code) e) (ap (λ r. r.client_id) e) (
        ap (λ r. r.payload) e
        ∙ take_all (key_payload key) _
            (omega (arith, length-key_payload key, length-public_key_text-lt key)))

  -- The two files are written, and the public key is sent and replied to.
  saving-Runs :
      (id : Bytes) (key : L.PrivateKey) (pad : ℕ) (s : O.State)
      → length id ≡ 16
      → In (registered id) s
      → Runs {O = O}
          (save_private_rsa_key (private_wrapper_key L key) >>= λ _.
            save_me_info L h.client_name id (private_wrapper_key L key) >>= λ _.
            send_request h (
              made pad id send_public_key
                (name_field_size + length (public_key_text L key))
                (key_payload key))
            >>= λ _. get_response h >>= λ response. pure (response, private_wrapper_key L key))
          s
          (Keyed id)
  unfolding save_private_rsa_key Keyed
  saving-Runs id key pad s h16 at =
      let (s1, saved, at1) = server.saves_key (registered id) s (private_wrapper_key L key) at in
      let (s2, noted, at2) = server.saves_me (registered id) s1 _ at1 in
      Runs-step (save_private_rsa_key (private_wrapper_key L key)) _ s _ tt s1
        (λ t. (_, write_to_file_lem (record { os = s; trace = t }) private_key_path _ saved))
        (Runs-step (save_me_info L h.client_name id (private_wrapper_key L key)) _ s1 _ tt s2
          (λ t.
            (_, save_me_info_lem (record { os = s1; trace = t }) L h.client_name id _ h16 noted))
          (Runs-bind (send_request h r) _ s2 _ _
            (send_request-Runs h r s2 (Answered id key) server.length-garbage
              (record { id_size = h16; code_fits = omega arith }) (omega arith)
              (omega (arith, length-key_payload key)) (λ b e. key-exchange id key pad s2 b at2 e))
            λ a s3 replied.
              Runs-bind (get_response h) _ s3 _ _ (get_response-Runs h s3 (Answered id key) replied)
                λ response s4 (good : Answered id key response.code response.payload s4).
                  let (code, (aes, seed, a16, long, e, at4)) = good in
                  Runs-pure _ s4 (Keyed id) (code, (key, aes, seed, refl, a16, long, e, at4))))
    where
      r : Request
      r =
          made pad id send_public_key (name_field_size + length (public_key_text L key))
            (key_payload key)

  pub handle_rsa_registration-Runs :
      (id : Bytes) (s : O.State)
      → length id ≡ 16
      → In (registered id) s
      → Runs {O = O} (handle_rsa_registration L h id) s (Keyed id)
  unfolding handle_rsa_registration
  handle_rsa_registration-Runs id s h16 at =
      let s1 : O.State = (O.entropy s).1 in
      let at1 = server.after_entropy (registered id) s at in
      Runs-step (generate_rsa_key_pair L) _ s _ (public_key, private_key) s1
        (λ t. (t, generate_rsa_key_pair_lem L lawful _))
        (Runs-gets (O.garbage (name_field_size + length public_key)) _ s1 _ (
          Runs-in_bounds (public_key_payload h.client_name public_key _) _ s1 _
            (public_key_payload_lem h.client_name public_key _ (server.length-garbage _ s1))
            (Runs-new_request id send_public_key (name_field_size + length public_key)
              (key_payload key) _ s1 _ h16 (saving-Runs id key (O.padding s1) s1 h16 at1))))
    where
      key : L.PrivateKey
      key = L.initialize (O.entropy s).0 bits

      public_key : Bytes
      public_key = public_key_text L key

      private_key : Bytes
      private_key = private_wrapper_key L key
