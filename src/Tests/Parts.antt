-- ===== src/Tests/Parts.antt =====
-- The theorems of the parts at concrete inputs: files, cryptography, payloads, replies, the upload.
use defensive_systems_open_u.Prelude.{
  ℕ, zero, suc, ◌*◌, ◌%◌, ◌<◌, ◌≡◌, ◌≢◌, ◌⊎◌, refl, sym, arith, true, none, some, [], ◌∷◌, ◌++◌,
  length, length-append, length-replicate, replicate, Bytes, IsBytes, codes, hex, newline, decimal,
}
use defensive_systems_open_u.Prelude.Int.{pos}
use defensive_systems_open_u.Buffer.{big32, padded, little}
use defensive_systems_open_u.Buffer.Laws.{take-append}
use defensive_systems_open_u.Crypto.{generate_rsa_key_pair, encrypt_with_aes, decrypt_with_rsa}
use defensive_systems_open_u.Crypto.Aes.{generate_key, aes_decrypt}
use defensive_systems_open_u.Crypto.Aes.KeyGen.{generate_key_lem, generate_key_overrun}
use defensive_systems_open_u.Crypto.Aes.KeyGen.Rounds.{word_bytes}
use defensive_systems_open_u.Crypto.Hex.{unhex}
use defensive_systems_open_u.Crypto.RoundTrip.{
  public_key_of, encrypt_with_aes-aes_decrypt, generate_rsa_key_pair-decrypt,
}
use defensive_systems_open_u.FileHandler.{
  transfer_info_path, remove_newlines, read_me_info, save_me_info, read_transfer_info,
}
use defensive_systems_open_u.FileHandler.Lines.{Lacks}
use defensive_systems_open_u.FileHandler.RoundTrip.{
  save_me_info-read_me_info, read_transfer_info_lem, read_transfer_info_name,
}
use defensive_systems_open_u.Main.{handle_client, main}
use defensive_systems_open_u.Main.Total.{main_status}
use defensive_systems_open_u.Protocol.Connection.{get_response}
use defensive_systems_open_u.Protocol.Connection.Reply.{reply_header, get_response-reply}
use defensive_systems_open_u.Protocol.Message.{Request}
use defensive_systems_open_u.Protocol.Payload.{create_file_payload_buffer, public_key_payload}
use defensive_systems_open_u.Protocol.Payload.Layout.{
  create_file_payload_buffer_lem, public_key_payload_lem,
}
use defensive_systems_open_u.Runtime.Exec.{ok, thrown, fault, runtime_error}
use defensive_systems_open_u.Runtime.Library
use defensive_systems_open_u.Protocol.Quiet.{IsPlain}
use defensive_systems_open_u.Runtime.Trace.{Adds}
use defensive_systems_open_u.Runtime.World.{World}
use defensive_systems_open_u.Tests.{accepting, handler, id, reply, start}
use defensive_systems_open_u.Tests.Script.{scripted, toy}

abbrev world : World scripted
world = start accepting

abbrev two : Bytes
two = 49 ∷ 50 ∷ []

two-IsBytes : IsBytes two
two-IsBytes = (omega arith, (omega arith, tt))

id-IsBytes : IsBytes id
id-IsBytes = ground arith

replicate-IsBytes : (n c : ℕ) → c < 256 → IsBytes (replicate n c)
replicate-IsBytes zero c h = tt
replicate-IsBytes (suc n) c h = (h, replicate-IsBytes n c h)

pub toy-IsLawful : Library.IsLawful toy
toy-IsLawful = record {
  load_private-save_private = λ k. refl;
  load_public-save_public = λ k. refl;
  rsa_decrypt-rsa_encrypt = λ seed k plain e. sym e;
  cbc_decrypt-cbc_encrypt = λ key iv plain hk hi hp. refl;
  cbc_encrypt-IsBytes = λ key iv plain h. h;
  length-cbc_encrypt-le = λ key iv plain. omega arith;
  length-base64_encode-lt = λ k. omega arith;
  length-generate_block = λ seed n. length-replicate n (seed % 256);
  generate_block-IsBytes = λ seed n. replicate-IsBytes n (seed % 256) (omega arith);
}

main_status_example :
    ((((handle_client toy world).0 ≡ fault) × ((main toy world).0 ≡ fault))
      ⊎ (((handle_client toy world).0 ≢ fault) × ((main toy world).0 ≡ ok 0)))
    × Adds IsPlain (handle_client toy world).1.trace (main toy world).1.trace
main_status_example = main_status toy world

create_file_payload_buffer_lem_example :
    create_file_payload_buffer (codes "example.txt") (hex two) (replicate 264 7)
    ≡ some (big32 4 ++ (padded 255 (codes "example.txt") ++ (hex two ++ (0 ∷ []))))
unfolding hex
create_file_payload_buffer_lem_example =
    create_file_payload_buffer_lem (codes "example.txt") two (replicate 264 7) two-IsBytes refl

public_key_payload_lem_example :
    public_key_payload (codes "Erez Drutin") (codes "KEY") (replicate 258 7)
    ≡ some (padded 254 (codes "Erez Drutin") ++ ((0 ∷ []) ++ padded 3 (codes "KEY")))
public_key_payload_lem_example =
    public_key_payload_lem (codes "Erez Drutin") (codes "KEY") (replicate 258 7) refl

abbrev answered : World scripted
answered = start (some (reply_header 3 2104 2) ∷ some two ∷ [])

get_response-reply_example :
    get_response handler answered
    ≡ (ok (record { version = 51; code = 2104; payload_size = 2; payload = two }), start [])
get_response-reply_example =
    get_response-reply handler answered 3 2104 two (start (some two ∷ [])).os (start []).os
      (omega arith) (omega arith) refl refl

encrypt_with_aes-aes_decrypt_example :
    (text : Bytes) × ((encrypt_with_aes toy two id world).0 ≡ ok text)
    × ((v : World scripted)
        → aes_decrypt toy (record { key = id }) (unhex text) (length (unhex text)) v ≡ (ok two, v))
encrypt_with_aes-aes_decrypt_example =
    encrypt_with_aes-aes_decrypt toy toy-IsLawful two id world refl (omega arith) two-IsBytes

toy-base64 : (b : Bytes) → toy.base64_decode (toy.base64_encode b) ≡ b
toy-base64 b = take-append b (newline ∷ []) _ (omega (arith, length-append b (newline ∷ [])))

generate_rsa_key_pair-decrypt_example :
    (public_text private_text : Bytes) × (public_key : Unit {0}) × ((generate_rsa_key_pair toy
        world).0
      ≡ ok (public_text, private_text))
    × (public_key_of toy public_text ≡ some public_key)
    × ((seed : ℕ) (plain cipher : Bytes) (v : World scripted)
        → some plain ≡ some cipher
        → decrypt_with_rsa toy cipher private_text v ≡ (ok plain, v))
generate_rsa_key_pair-decrypt_example =
    generate_rsa_key_pair-decrypt toy toy-IsLawful world toy-base64

save_me_info-read_me_info_example :
    ((save_me_info toy two id (codes "KEY") world).0 ≡ ok tt)
    × ((read_me_info (save_me_info toy two id (codes "KEY") world).1).0
        ≡ ok (record {
          name = two;
          uuid = hex id;
          base64_key = remove_newlines (codes "KEY" ++ (10 ∷ []));
        }))
save_me_info-read_me_info_example =
    save_me_info-read_me_info toy world two id (codes "KEY") _ (ground arith) refl id-IsBytes refl
      refl

abbrev info_text : Bytes → Bytes
info_text name = (codes "1.2.3.4" ++ (b':' ∷ decimal 8080)) ++ (newline ∷ (name ++ (newline ∷ two)))

abbrev informed : Bytes → World scripted
informed name = record {
  os = record { replies = []; files = (transfer_info_path, info_text name) ∷ []; read_only = true };
  trace = [];
}

read_transfer_info_lem_example : read_transfer_info (informed two) ≡ (
  ok (record { ip_address = codes "1.2.3.4"; port = pos 8080; name = two; file_path = two }),
  informed two,
)
unfolding decimal
read_transfer_info_lem_example =
    read_transfer_info_lem (informed two) (codes "1.2.3.4") two two 8080 refl (ground arith)
      (ground arith) (ground arith) (ground arith) (omega arith) (omega arith)

replicate-Lacks : (n : ℕ) → Lacks newline (replicate n b'a')
replicate-Lacks zero = tt
replicate-Lacks (suc n) = ((λ e. cc), replicate-Lacks n)

read_transfer_info_name_example : read_transfer_info (informed (replicate 255 b'a')) ≡ (
  thrown (record {
    kind = runtime_error;
    what = codes "Invalid name, name length must be <= 254 chars.";
  }),
  informed (replicate 255 b'a'),
)
unfolding decimal
read_transfer_info_name_example =
    read_transfer_info_name (informed (replicate 255 b'a'))
      (codes "1.2.3.4" ++ (b':' ∷ decimal 8080)) (replicate 255 b'a') two refl (ground arith)
      (replicate-Lacks 255) (ground arith) (omega arith)

generate_key_lem_example :
    generate_key (λ k. k) (replicate 16 7) (4 * 4) ≡ some (word_bytes 4 (λ k. k) 0)
generate_key_lem_example = generate_key_lem (λ k. k) (replicate 16 7) 4 refl

generate_key_overrun_example :
    (generate_key (λ k. k) (replicate 6 7 ++ two) 6 ≡ some (word_bytes 2 (λ k. k) 0))
    × (generate_key (λ k. k) (replicate 6 7) 6 ≡ none)
generate_key_overrun_example =
    generate_key_overrun (λ k. k) (replicate 6 7) two 1 (omega arith) (omega arith) refl

abbrev file_request : Request
file_request = record {
  client_id = id;
  version = b'3';
  padding = 0;
  code = 1028;
  payload_size = 2;
  payload = two;
}

abbrev second_try : World scripted
second_try = start (
    reply 8 55 4 (little 4 1)
      (reply 8 56 0 [] (reply 8 55 4 (little 4 1194583253) (reply 8 56 0 [] []))))
