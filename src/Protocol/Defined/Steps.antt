-- ===== src/Protocol/Defined/Steps.antt =====
-- The operations of the client that make no access out of bounds, one by one.
use defensive_systems_open_u.Prelude.{ℕ, Option, none, some, Bytes}
use defensive_systems_open_u.Checksum.File.{read_crc_failed}
use defensive_systems_open_u.Crypto.{generate_rsa_key_pair, decrypt_with_rsa}
use defensive_systems_open_u.Crypto.Aes.{draw, or_library_error}
use defensive_systems_open_u.FileHandler.{
  open_in, write_to_file, save_private_rsa_key, read_file_contents, read_me_info,
  read_transfer_info, checked_info, split_info, port_or_throw, or_unable, call_write,
}
use defensive_systems_open_u.FileHandler.Number.{Parsed, value, no_conversion, beyond_int}
use defensive_systems_open_u.Logger
use defensive_systems_open_u.Logger.{Logger, Level}
use defensive_systems_open_u.Protocol.Connection.{
  Handler, call_recv, report_receive, safe_receive, receive_payload, get_response,
}
use defensive_systems_open_u.Protocol.Flow.{substr16}
use defensive_systems_open_u.Protocol.Message.{Response}
use defensive_systems_open_u.Protocol.Defined.{Safe, safe_rules}
use defensive_systems_open_u.Runtime.Library.{Library}
use defensive_systems_open_u.Runtime.Os.{Os}

module _ {O : Os} where
  Safe-log : (l : Logger) (level : Level) (text : Bytes) → Safe (Logger.log {O = O} l level text)
  unfolding Logger.log
  Safe-log l level text = search safe_rules

  pub Safe-info : (l : Logger) (text : Bytes) → Safe (Logger.info {O = O} l text)
  unfolding Logger.info
  Safe-info l text = search (safe_rules)

  pub Safe-recv : (fd n : ℕ) → Safe (call_recv {O = O} fd n)
  unfolding call_recv
  Safe-recv fd n = record { safe = record { run = λ w. tt } }

  Safe-report_receive : (reason : Bytes) (o : Option Bytes) → Safe (report_receive {O = O} reason o)
  unfolding report_receive
  Safe-report_receive reason none = search safe_rules
  Safe-report_receive reason (some b) = search safe_rules

  pub Safe-safe_receive : (fd n : ℕ) → Safe (safe_receive {O = O} fd n)
  unfolding safe_receive
  Safe-safe_receive fd n = search (safe_rules, Safe-recv, Safe-report_receive)

  pub Safe-server_error : (l : Logger) (text : Bytes) → Safe (Logger.server_error {O = O} l text)
  unfolding Logger.server_error
  Safe-server_error l text = search safe_rules

  pub Safe-error : (l : Logger) (text : Bytes) → Safe (Logger.error {O = O} l text)
  unfolding Logger.error
  Safe-error l text = search safe_rules

  Safe-receive_payload : (h : Handler) (r : Response) → Safe (receive_payload {O = O} h r)
  unfolding receive_payload
  Safe-receive_payload h r = search (safe_rules, Safe-safe_receive, Safe-server_error)

  pub Safe-get_response : (h : Handler) → Safe (get_response {O = O} h)
  unfolding get_response
  Safe-get_response h =
      search (safe_rules, Safe-safe_receive, Safe-server_error, Safe-receive_payload)

  Safe-or_unable : {A : Type 0} (path : Bytes) (o : Option A) → Safe (or_unable {O = O} path o)
  unfolding or_unable
  Safe-or_unable path none = search safe_rules
  Safe-or_unable path (some a) = search safe_rules

  pub Safe-open_in : (path : Bytes) → Safe (open_in {O = O} path)
  unfolding open_in
  Safe-open_in path = search (safe_rules, Safe-or_unable)

  Safe-call_write : (path text : Bytes) → Safe (call_write {O = O} path text)
  unfolding call_write
  Safe-call_write path text = record { safe = record { run = λ w. tt } }

  pub Safe-write_to_file : (path text : Bytes) → Safe (write_to_file {O = O} path text)
  unfolding write_to_file
  Safe-write_to_file path text = search (safe_rules, Safe-call_write, Safe-or_unable)

  pub Safe-save_private_rsa_key : (key : Bytes) → Safe (save_private_rsa_key {O = O} key)
  unfolding save_private_rsa_key
  Safe-save_private_rsa_key key = Safe-write_to_file _ key

  pub Safe-read_file_contents : (path : Bytes) → Safe (read_file_contents {O = O} path)
  unfolding read_file_contents
  Safe-read_file_contents path = Safe-open_in path

  pub Safe-read_me_info : Safe (read_me_info {O = O})
  unfolding read_me_info
  Safe-read_me_info = search (safe_rules, Safe-open_in)

  Safe-port_or_throw : (r : Parsed) → Safe (port_or_throw {O = O} r)
  unfolding port_or_throw
  Safe-port_or_throw (value n) = search safe_rules
  Safe-port_or_throw no_conversion = search safe_rules
  Safe-port_or_throw beyond_int = search safe_rules

  Safe-split_info :
      (name path : Bytes) (o : Option (Bytes × Bytes)) → Safe (split_info {O = O} name path o)
  unfolding split_info
  Safe-split_info name path none = search safe_rules
  Safe-split_info name path (some (address, text)) = search (safe_rules, Safe-port_or_throw)

  Safe-checked_info : (t : Bytes × Bytes × Bytes) → Safe (checked_info {O = O} t)
  unfolding checked_info
  Safe-checked_info (ip_port, name, path) = search (safe_rules, Safe-split_info)

  pub Safe-read_transfer_info : Safe (read_transfer_info {O = O})
  unfolding read_transfer_info
  Safe-read_transfer_info = search (safe_rules, Safe-open_in, Safe-checked_info)

  pub Safe-read_crc_failed : (text fname : Bytes) → Safe (read_crc_failed {O = O} text fname)
  unfolding read_crc_failed
  Safe-read_crc_failed text fname = search safe_rules

  pub Safe-substr16 : (payload : Bytes) → Safe (substr16 {O = O} payload)
  unfolding substr16
  Safe-substr16 payload = search safe_rules

  pub Safe-draw : Safe (draw {O = O})
  unfolding draw
  Safe-draw = record { safe = record { run = λ w. tt } }

  Safe-or_library_error :
      {A : Type 0} (text : Bytes) (o : Option A) → Safe (or_library_error {O = O} text o)
  unfolding or_library_error
  Safe-or_library_error text none = search safe_rules
  Safe-or_library_error text (some a) = search safe_rules

module _ {O : Os} (L : Library) where
  pub Safe-generate_rsa_key_pair : Safe (generate_rsa_key_pair {O = O} L)
  unfolding generate_rsa_key_pair
  Safe-generate_rsa_key_pair = search (safe_rules, Safe-draw)

  pub Safe-decrypt_with_rsa : (text key : Bytes) → Safe (decrypt_with_rsa {O = O} L text key)
  unfolding decrypt_with_rsa
  Safe-decrypt_with_rsa text key = search (safe_rules, Safe-or_library_error)
