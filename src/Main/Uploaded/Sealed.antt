-- ===== src/Main/Uploaded/Sealed.antt =====
-- ProtocolHandler.cpp, `handleFileEncryptionAndSend`: what the request holds that the rounds send.
use defensive_systems_open_u.Prelude.{
  ℕ, ◌+◌, ◌%◌, ◌^◌, ◌≡◌, refl, sym, ap, ◌∙◌, Bool, true, Option, none, some, length, Bytes,
}
use defensive_systems_open_u.Buffer.{read_at}
use defensive_systems_open_u.Constants.{protocol_version, send_file}
use defensive_systems_open_u.Crypto.{encrypt_with_aes, decrypt_with_rsa}
use defensive_systems_open_u.FileHandler.{open_in, or_unable, read_file_contents}
use defensive_systems_open_u.Main.Uploaded.Rules.{Ends, Uploads, Ends-bind}
use defensive_systems_open_u.Protocol.Connection.{Handler}
use defensive_systems_open_u.Protocol.Message.{Request}
use defensive_systems_open_u.Protocol.Payload.{create_file_payload_buffer}
use defensive_systems_open_u.Protocol.Upload.{
  new_request, handle_retry_send_file, handle_file_encryption_and_send,
}
use defensive_systems_open_u.Runtime.Library.{Library}
use defensive_systems_open_u.Runtime.Os.{Os}
use defensive_systems_open_u.Runtime.Exec.{Result, ok, pure, gets, in_bounds, continue, ◌>>=◌}
use defensive_systems_open_u.Runtime.World.{World, M}

module _ {O : Os} where
  or_unable-ok :
      (path : Bytes) (o : Option Bytes) (w v : World O) {b : Bytes}
      → or_unable path o w ≡ (ok b, v)
      → (o ≡ some b) × (w ≡ v)
  unfolding or_unable
  or_unable-ok path none w v e = cc
  or_unable-ok path (some a) w v e = (cc, cc)

  -- What was read is what the file held, and nothing else happened.
  read_file_contents-ok :
      (path : Bytes) (w v : World O) {b : Bytes}
      → read_file_contents path w ≡ (ok b, v)
      → (O.read_file path w.os ≡ some b) × (w ≡ v)
  unfolding read_file_contents open_in ◌>>=◌
  read_file_contents-ok path w v e = or_unable-ok path (O.read_file path w.os) w v e

  gets-same : {A : Type 0} (f : World O → A) (w v : World O) {a : A} → gets f w ≡ (ok a, v) → w ≡ v
  gets-same f w v e = cc

  abbrev ends_in : Bytes → World O → Result Bytes × World O
  ends_in b v = (ok b, v)

  in_bounds-same :
      {A : Type 0} (o : Option A) (w v : World O) {a : A}
      → in_bounds o w ≡ (ok a, v)
      → (o ≡ some a) × (w ≡ v)
  in_bounds-same none w v e = cc
  in_bounds-same (some a) w v e = (cc, cc)

  -- A request that was set up, with no effect.
  record IsSetUp (code size : ℕ) (payload : Bytes) (w v : World O) (r : Request) : Type 0 where
    same : w ≡ v
    coded : r.code ≡ code
    sized : r.payload_size ≡ size % 2 ^ 32
    held : r.payload ≡ payload

  new_request-ok :
      (id : Bytes) (code size : ℕ) (payload : Bytes) (w v : World O) {r : Request}
      → new_request id code size payload w ≡ (ok r, v)
      → IsSetUp code size payload w v r
  unfolding new_request ◌>>=◌
  new_request-ok id code size payload w v {r} e = bounded (read_at 0 16 id) e
    where
      pair :
          {a : Request} → ◌≡◌ {A = Result Request × World O} (ok a, w) (ok r, v) → (a ≡ r) × (w ≡ v)
      pair e = (cc, cc)

      bounded :
          (o : Option Bytes)
          → continue
              (λ id. gets (λ w. O.padding w.os) >>= λ pad. pure (record {
                client_id = id;
                version = protocol_version;
                padding = pad;
                code = code;
                payload_size = size % 2 ^ 32;
                payload = payload;
              }))
              (in_bounds o w)
            ≡ (ok r, v)
          → IsSetUp code size payload w v r
      bounded none e = cc
      bounded (some bytes) e =
          let (made, same) = pair e in
          record {
            same = same;
            coded = sym (ap (λ r. r.code) made);
            sized = sym (ap (λ r. r.payload_size) made);
            held = sym (ap (λ r. r.payload) made);
          }

  -- The steps behind the encryption.
  abbrev send_encrypted : Handler → Bytes → Bytes → M O Bool
  send_encrypted h id content = do
    heap ← gets (λ w. O.garbage (4 + 255 + length content + 1) w.os)
    payload ← in_bounds (create_file_payload_buffer h.file_path content heap)
    request ← new_request id send_file (4 + 255 + length content) payload
    handle_retry_send_file h request 3 id

module _ {O : Os} (L : Library) where
  send_encrypted-Ends :
      (h : Handler) (id contents aes_key content : Bytes) (w v : World O)
      → O.read_file h.file_path w.os ≡ some contents
      → encrypt_with_aes L contents aes_key w ≡ (ok content, v)
      → (send_encrypted h id content v).0 ≡ ok true
      → Ends {O = O} L h.file_path (send_encrypted h id content) v
  send_encrypted-Ends h id contents aes_key content w v opened sealed e =
      Ends-bind (gets (λ w. O.garbage (4 + 255 + length content + 1) w.os)) _ v e λ heap v1 got e1.
        Ends-bind (in_bounds (create_file_payload_buffer h.file_path content heap)) _ v1 e1
          λ payload v2 found e2.
            Ends-bind (new_request id send_file (4 + 255 + length content) payload) _ v2 e2
              λ r v3 made e3.
                let same =
                  gets-same (λ w. O.garbage (4 + 255 + length content + 1) w.os) v v1 got in
                let (filled, unfilled) = in_bounds-same _ v1 v2 found in
                let set_up = new_request-ok id _ _ payload v2 v3 made in
                record {
                  upload = record {
                    handler = h;
                    file = refl;
                    id = id;
                    reading = w;
                    contents = contents;
                    opened = opened;
                    aes_key = aes_key;
                    encrypted = content;
                    start = v3;
                    sealed = sealed ∙ ap (ends_in content) (same ∙ unfilled ∙ set_up.same);
                    memory = heap;
                    content = r;
                    filled = filled ∙ ap some (sym set_up.held);
                    code = set_up.coded;
                    size = set_up.sized;
                  };
                  whole = refl;
                }

  -- The file is read, encrypted and put into the request from which the rounds start.
  pub handle_file_encryption_and_send-Uploads :
      (h : Handler) (encrypted key id : Bytes)
      → Uploads {O = O} L h.file_path (handle_file_encryption_and_send L h encrypted key id)
  unfolding handle_file_encryption_and_send
  handle_file_encryption_and_send-Uploads h encrypted key id = record {
    ends = λ w e. Ends-bind (decrypt_with_rsa L encrypted key) _ w e λ aes_key w1 _ e1.
        Ends-bind (read_file_contents h.file_path) _ w1 e1 λ contents w2 read e2.
          Ends-bind (encrypt_with_aes L contents aes_key) _ w2 e2 λ content w3 sealed e3.
            let (opened, unread) = read_file_contents-ok h.file_path w1 w2 read in
            send_encrypted-Ends h id contents aes_key content w2 w3
              (ap (λ (v : World O). O.read_file h.file_path v.os) (sym unread) ∙ opened) sealed e3;
  }
