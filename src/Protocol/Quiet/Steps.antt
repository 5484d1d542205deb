-- ===== src/Protocol/Quiet/Steps.antt =====
-- The operations of the client that neither connect nor send nor write a file, one by one.
use defensive_systems_open_u.Prelude.{ℕ, Option, none, some, Bytes}
use defensive_systems_open_u.Checksum.File.{
  read_crc_failed, checked_crc, sized_crc, opened_crc, read_crc,
}
use defensive_systems_open_u.Crypto.{generate_rsa_key_pair, encrypt_with_aes, decrypt_with_rsa}
use defensive_systems_open_u.Crypto.Aes.{
  AesWrapper, draw, or_library_error, aes_wrapper, aes_encrypt,
}
use defensive_systems_open_u.FileHandler.{
  open_in, read_file_contents, read_me_info, read_transfer_info, checked_info, split_info,
  port_or_throw, or_unable,
}
use defensive_systems_open_u.FileHandler.Number.{Parsed, value, no_conversion, beyond_int}
use defensive_systems_open_u.Logger
use defensive_systems_open_u.Logger.{Logger, Level}
use defensive_systems_open_u.Protocol.Connection.{
  Handler, call_recv, report_receive, safe_receive, receive_payload, get_response,
}
use defensive_systems_open_u.Protocol.Flow.{substr16}
use defensive_systems_open_u.Protocol.Message.{Response}
use defensive_systems_open_u.Protocol.Quiet.{Quiet, quiet_rules}
use defensive_systems_open_u.Runtime.Library.{Library}
use defensive_systems_open_u.Runtime.Os.{Os}
use defensive_systems_open_u.Runtime.Trace.{Adds-refl}

module _ {O : Os} where
  Quiet-log : (l : Logger) (level : Level) (text : Bytes) → Quiet (Logger.log {O = O} l level text)
  unfolding Logger.log
  Quiet-log l level text = search quiet_rules

  pub Quiet-info : (l : Logger) (text : Bytes) → Quiet (Logger.info {O = O} l text)
  unfolding Logger.info
  Quiet-info l text = search (quiet_rules)

  pub Quiet-recv : (fd n : ℕ) → Quiet (call_recv {O = O} fd n)
  unfolding call_recv
  Quiet-recv fd n = record { adds = λ w. Adds-refl w.trace }

  Quiet-report_receive :
      (reason : Bytes) (o : Option Bytes) → Quiet (report_receive {O = O} reason o)
  unfolding report_receive
  Quiet-report_receive reason none = search quiet_rules
  Quiet-report_receive reason (some b) = search quiet_rules

  pub Quiet-safe_receive : (fd n : ℕ) → Quiet (safe_receive {O = O} fd n)
  unfolding safe_receive
  Quiet-safe_receive fd n = search (quiet_rules, Quiet-recv, Quiet-report_receive)

  pub Quiet-server_error : (l : Logger) (text : Bytes) → Quiet (Logger.server_error {O = O} l text)
  unfolding Logger.server_error
  Quiet-server_error l text = search quiet_rules

  pub Quiet-error : (l : Logger) (text : Bytes) → Quiet (Logger.error {O = O} l text)
  unfolding Logger.error
  Quiet-error l text = search quiet_rules

  Quiet-receive_payload : (h : Handler) (r : Response) → Quiet (receive_payload {O = O} h r)
  unfolding receive_payload
  Quiet-receive_payload h r = search (quiet_rules, Quiet-safe_receive, Quiet-server_error)

  pub Quiet-get_response : (h : Handler) → Quiet (get_response {O = O} h)
  unfolding get_response
  Quiet-get_response h =
      search (quiet_rules, Quiet-safe_receive, Quiet-server_error, Quiet-receive_payload)

  pub Quiet-or_unable :
      {A : Type 0} (path : Bytes) (o : Option A) → Quiet (or_unable {O = O} path o)
  unfolding or_unable
  Quiet-or_unable path none = search quiet_rules
  Quiet-or_unable path (some a) = search quiet_rules

  pub Quiet-open_in : (path : Bytes) → Quiet (open_in {O = O} path)
  unfolding open_in
  Quiet-open_in path = search (quiet_rules, Quiet-or_unable)

  pub Quiet-read_file_contents : (path : Bytes) → Quiet (read_file_contents {O = O} path)
  unfolding read_file_contents
  Quiet-read_file_contents path = Quiet-open_in path

  pub Quiet-read_me_info : Quiet (read_me_info {O = O})
  unfolding read_me_info
  Quiet-read_me_info = search (quiet_rules, Quiet-open_in)

  Quiet-port_or_throw : (r : Parsed) → Quiet (port_or_throw {O = O} r)
  unfolding port_or_throw
  Quiet-port_or_throw (value n) = search quiet_rules
  Quiet-port_or_throw no_conversion = search quiet_rules
  Quiet-port_or_throw beyond_int = search quiet_rules

  Quiet-split_info :
      (name path : Bytes) (o : Option (Bytes × Bytes)) → Quiet (split_info {O = O} name path o)
  unfolding split_info
  Quiet-split_info name path none = search quiet_rules
  Quiet-split_info name path (some (address, text)) = search (quiet_rules, Quiet-port_or_throw)

  Quiet-checked_info : (t : Bytes × Bytes × Bytes) → Quiet (checked_info {O = O} t)
  unfolding checked_info
  Quiet-checked_info (ip_port, name, path) = search (quiet_rules, Quiet-split_info)

  pub Quiet-read_transfer_info : Quiet (read_transfer_info {O = O})
  unfolding read_transfer_info
  Quiet-read_transfer_info = search (quiet_rules, Quiet-open_in, Quiet-checked_info)

  Quiet-read_crc_failed : (text fname : Bytes) → Quiet (read_crc_failed {O = O} text fname)
  unfolding read_crc_failed
  Quiet-read_crc_failed text fname = search quiet_rules

  Quiet-checked_crc :
      (fname : Bytes) (size : ℕ) (o : Option Bytes) → Quiet (checked_crc {O = O} fname size o)
  unfolding checked_crc
  Quiet-checked_crc fname size none = search (quiet_rules, Quiet-read_crc_failed)
  Quiet-checked_crc fname size (some b) = search quiet_rules

  Quiet-sized_crc : (fname : Bytes) (o : Option ℕ) → Quiet (sized_crc {O = O} fname o)
  unfolding sized_crc
  Quiet-sized_crc fname none = search (quiet_rules, Quiet-read_crc_failed)
  Quiet-sized_crc fname (some size) = search (quiet_rules, Quiet-checked_crc)

  Quiet-opened_crc : (fname : Bytes) (o : Option Bytes) → Quiet (opened_crc {O = O} fname o)
  unfolding opened_crc
  Quiet-opened_crc fname none = search (quiet_rules, Quiet-read_crc_failed)
  Quiet-opened_crc fname (some b) = search (quiet_rules, Quiet-sized_crc)

  pub Quiet-read_crc : (fname : Bytes) → Quiet (read_crc {O = O} fname)
  unfolding read_crc
  Quiet-read_crc fname = search (quiet_rules, Quiet-opened_crc)

  pub Quiet-substr16 : (payload : Bytes) → Quiet (substr16 {O = O} payload)
  unfolding substr16
  Quiet-substr16 payload = search quiet_rules

  Quiet-draw : Quiet (draw {O = O})
  unfolding draw
  Quiet-draw = record { adds = λ w. Adds-refl w.trace }

  Quiet-or_library_error :
      {A : Type 0} (text : Bytes) (o : Option A) → Quiet (or_library_error {O = O} text o)
  unfolding or_library_error
  Quiet-or_library_error text none = search quiet_rules
  Quiet-or_library_error text (some a) = search quiet_rules

  Quiet-aes_wrapper : (key : Bytes) (size : ℕ) → Quiet (aes_wrapper {O = O} key size)
  unfolding aes_wrapper
  Quiet-aes_wrapper key size = search quiet_rules

module _ {O : Os} (L : Library) where
  Quiet-aes_encrypt :
      (a : AesWrapper) (plain : Bytes) (size : ℕ) → Quiet (aes_encrypt {O = O} L a plain size)
  unfolding aes_encrypt
  Quiet-aes_encrypt a plain size = search (quiet_rules, Quiet-draw)

  pub Quiet-encrypt_with_aes : (text key : Bytes) → Quiet (encrypt_with_aes {O = O} L text key)
  unfolding encrypt_with_aes
  Quiet-encrypt_with_aes text key = search (quiet_rules, Quiet-aes_wrapper, Quiet-aes_encrypt)

  pub Quiet-generate_rsa_key_pair : Quiet (generate_rsa_key_pair {O = O} L)
  unfolding generate_rsa_key_pair
  Quiet-generate_rsa_key_pair = search (quiet_rules, Quiet-draw)

  pub Quiet-decrypt_with_rsa : (text key : Bytes) → Quiet (decrypt_with_rsa {O = O} L text key)
  unfolding decrypt_with_rsa
  Quiet-decrypt_with_rsa text key = search (quiet_rules, Quiet-or_library_error)

-- The quiet operations that the protocol's flows are made of.
pub ruleset quiet_steps = (
  quiet_rules, Quiet-info, Quiet-error, Quiet-server_error, Quiet-get_response, Quiet-read_crc,
  Quiet-read_file_contents, Quiet-substr16, Quiet-encrypt_with_aes, Quiet-decrypt_with_rsa,
  Quiet-generate_rsa_key_pair,
)
