-- ===== src/Main/Uploaded.antt =====
-- main.cpp, `handleClient`: what its result says of the upload at the end of the run.
pub mod Rules
pub mod Sealed
use defensive_systems_open_u.Prelude.{
  ℕ, ◌<◌, ◌≡◌, refl, sym, ap, ◌∙◌, Bool, true, false, Bool-cases, inl, inr, Option, none, some,
  Bytes, if◌then◌else◌, ◌==◌,
}
use defensive_systems_open_u.Buffer.{read_at}
use defensive_systems_open_u.Constants.{
  send_file, registration_success, received_public_key_send_aes, approve_reconnect_send_aes,
  reconnect_rejected,
}
use defensive_systems_open_u.FileHandler.{TransferInfo, read_transfer_info}
use defensive_systems_open_u.Main.{
  handle_runtime_error, catch_runtime_error, reconnect_known, register_new, handle_client,
}
use defensive_systems_open_u.Protocol.Connection.{
  Handler, new_handler, connect_socket, connect_created, handle_connection,
}
use defensive_systems_open_u.Protocol.Flow.{
  handle_keys_and_file, handle_registration, handle_reconnection,
}
use defensive_systems_open_u.Protocol.Message.{Request}
use defensive_systems_open_u.Protocol.Upload.{
  new_request, handle_retry_send_file, handle_file_encryption_and_send,
}
use defensive_systems_open_u.Protocol.Upload.Rounds.{Matched, rounds, handle_retry_send_file-true}
use defensive_systems_open_u.Runtime.Exec.{
  Any, Where, Where-Any, Exception, is_runtime_error, Result, ok, thrown, fault, pure, in_bounds,
  continue, ◌>>=◌,
}
use defensive_systems_open_u.Runtime.Library.{Library}
use defensive_systems_open_u.Runtime.Os.{Os}
use defensive_systems_open_u.Runtime.World.{World, M}
use defensive_systems_open_u.Main.Uploaded.Sealed.{handle_file_encryption_and_send-Uploads}
use defensive_systems_open_u.Main.Uploaded.Rules.{
  Upload, Ends, Ends-same, Gives, Gives-pure, Gives-after, Gives-if, Uploads, Uploads-false,
  Uploads-if, Uploads-bind, Uploads-after, uploads_rules, gives_rules,
}

module _ {O : Os} where
  connect_socket-path :
      (h : Handler)
      → Gives {O = O} {A = Handler × Bool} (connect_socket h) (λ p. p.0.file_path ≡ h.file_path)
  unfolding connect_socket
  connect_socket-path h = search gives_rules

  handle_connection-path :
      (h : Handler)
      → Gives {O = O} {A = Handler × Bool} (handle_connection h) (λ p. p.0.file_path ≡ h.file_path)
  unfolding handle_connection connect_created
  handle_connection-path h = Gives-after _ _ _ λ created. at_socket created
    where
      at_socket :
          (created : Option ℕ)
          → Gives {O = O} {A = Handler × Bool}
              (connect_created h created)
              (λ p. p.0.file_path ≡ h.file_path)
      at_socket none = Gives-after _ _ _ λ _. Gives-pure _ _ refl
      at_socket (some fd) = connect_socket-path (record h { socket = fd })

module _ {O : Os} (L : Library) where
  handle_keys_and_file-Uploads :
      (h : Handler) (id : Bytes) → Uploads {O = O} L h.file_path (handle_keys_and_file L h id)
  unfolding handle_keys_and_file
  handle_keys_and_file-Uploads h id =
      search (uploads_rules, handle_file_encryption_and_send-Uploads) depth 12

  handle_registration-Uploads :
      (h : Handler) → Uploads {O = O} L h.file_path (handle_registration L h)
  unfolding handle_registration
  handle_registration-Uploads h = search (uploads_rules, handle_keys_and_file-Uploads) depth 12

  handle_reconnection-Uploads :
      (h : Handler) → Uploads {O = O} L h.file_path (handle_reconnection L h)
  unfolding handle_reconnection
  handle_reconnection-Uploads h =
      search (uploads_rules, handle_registration-Uploads, handle_keys_and_file-Uploads) depth 12

  connected-Uploads :
      (h : Handler) (flow : Handler → M O Bool)
      → ((h : Handler) → Uploads L h.file_path (flow h))
      → Uploads {O = O} L h.file_path
          (handle_connection h >>= λ p. if p.1 then flow p.0 else pure false)
  connected-Uploads h flow k =
      Uploads-bind (handle_connection h) _ _ (handle_connection-path h)
        λ p same. Uploads-if p.1 _ _ (rw (sym same) (k p.0)) (Uploads-false)

  reconnect_known-Uploads : (t : TransferInfo) → Uploads {O = O} L t.file_path (reconnect_known L t)
  unfolding reconnect_known new_handler
  reconnect_known-Uploads t = Uploads-after _ _ λ me.
      connected-Uploads (new_handler t.ip_address t.port me.name t.file_path)
        (handle_reconnection L) handle_reconnection-Uploads

  register_new-Uploads : (t : TransferInfo) → Uploads {O = O} L t.file_path (register_new L t)
  unfolding register_new new_handler
  register_new-Uploads t =
      connected-Uploads (new_handler t.ip_address t.port t.name t.file_path) (handle_registration L)
        handle_registration-Uploads

  caught-Uploads :
      (path : Bytes) (body handler : M O Bool)
      → Uploads L path body
      → Uploads L path handler
      → Uploads {O = O} L path (catch_runtime_error body handler)
  unfolding catch_runtime_error
  caught-Uploads path body handler hb hh = record {
    ends = λ w e. let (r, v) = body w in from w r v refl e;
  }
    where
      impossible : (x : Exception) → ◌≡◌ {A = Result Bool} (thrown x) (ok true) → ⊥
      impossible x e = cc

      from :
          (w : World O) (r : Result Bool) (v : World O)
          → ◌≡◌ {A = Result Bool × World O} (body w) (r, v)
          → (handle_runtime_error handler (r, v)).0 ≡ ok true
          → Ends L path (catch_runtime_error body handler) w
      from w (ok a) v same e =
          Ends-same _ body (ap (handle_runtime_error handler) same ∙ sym same)
            (hb.ends w (ap (λ p. p.0) same ∙ e))
      from w (thrown x) v same e = elim (Bool-cases (is_runtime_error x.kind)) [
        | inl caught ↦
            Ends-same _ handler (ap (handle_runtime_error handler) same ∙ rw caught refl)
              (hh.ends v (rw caught at e))
        | inr passed ↦ absurd (impossible x (rw passed at e))
      ]
      from w fault v same e = cc

  handle_client-Uploads :
      (t : TransferInfo) (w : World O)
      → (read_transfer_info w).0 ≡ ok t
      → (handle_client L w).0 ≡ ok true
      → Ends L t.file_path (handle_client L) w
  unfolding handle_client ◌>>=◌
  handle_client-Uploads t w read e =
      let (r, v) = read_transfer_info {O = O} w in rest r v read refl e
    where
      attempts : TransferInfo → M O Bool
      attempts t = catch_runtime_error (reconnect_known L t) (register_new L t)

      rest :
          (r : Result TransferInfo) (v : World O)
          → r ≡ ok t
          → handle_client L w ≡ continue attempts (r, v)
          → (continue attempts (r, v)).0 ≡ ok true
          → Ends L t.file_path (handle_client L) w
      rest r v found same e =
          Ends-same _ (attempts t)
            (same ∙ ap (λ (r : Result TransferInfo). continue attempts (r, v)) found)
            ((caught-Uploads t.file_path _ _ (reconnect_known-Uploads t)
                (register_new-Uploads t)).ends
              v (ap (λ (r : Result TransferInfo). (continue attempts (r, v)).0) (sym found) ∙ e))

  -- Once `transfer.info` has been read, a run of `handleClient` that returns true ends with an
  -- upload of the file that `transfer.info` names. At one moment of the upload the file is read; its
  -- contents are encrypted under an AES key, the result is put into the payload of a request with
  -- the code 1028 and the payload's size modulo 2^32, and from then on all that the run does, and its
  -- result, are those of `handleRetrySendFile` with three rounds and this request. In one of these
  -- rounds the reply to the upload is a 2103 whose last four bytes are the checksum that the client
  -- computes of the file when the reply has come.
  pub handle_client-Matched :
      (t : TransferInfo) (w : World O)
      → (read_transfer_info w).0 ≡ ok t
      → (handle_client L w).0 ≡ ok true
      → (u : Upload O L t.file_path) × (k : ℕ) × (handle_client L w
          ≡ handle_retry_send_file u.handler u.content 3 u.id u.start)
        × (k < 3)
        × Matched u.handler u.content u.id (rounds u.handler u.content u.id k u.start)
  handle_client-Matched t w read e =
      let ends = handle_client-Uploads t w read e in
      let u = ends.upload in
      let (k, few, matched) =
        handle_retry_send_file-true u.handler u.content u.id 3 u.start
          (sym (ap (λ p. p.0) ends.whole) ∙ e) in
      (u, k, ends.whole, few, matched)
