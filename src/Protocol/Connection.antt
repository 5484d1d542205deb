-- ===== src/Protocol/Connection.antt =====
-- ProtocolHandler.cpp: `handleConnection`, `sendRequest`, `safeReceive` and `getResponse`.
pub mod Reply
pub mod Port
use defensive_systems_open_u.Prelude.{
  ℕ, ◌+◌, ◌-◌, ◌%◌, ◌^◌, Bool, true, false, Option, none, some, [], ◌∷◌, ◌++◌, length, replicate,
  Bytes, codes, decimal, newline, ◌==◌, if◌then◌else◌,
}
use defensive_systems_open_u.Prelude.Int.{ℤ, pos, negsuc}
use defensive_systems_open_u.Buffer.{big16}
use defensive_systems_open_u.Logger
use defensive_systems_open_u.Logger.{Logger, info_level, new_logger}
use defensive_systems_open_u.Protocol.Message.{
  Request, Response, header_size, serialise, response_header_size, parse_header, uninitialised,
}
use defensive_systems_open_u.Runtime.Os.{Os}
use defensive_systems_open_u.Runtime.Exec.{ok, pure, gets, in_bounds, ◌>>=◌, ◌>>◌}
use defensive_systems_open_u.Runtime.World.{World, M, opened, sent, cerr, note, print}

-- A `ProtocolHandler`.
pub record Handler : Type 0 where
  pub server_address : Bytes
  pub port : ℤ
  pub client_name : Bytes
  pub file_path : Bytes
  pub socket : ℕ

abbrev pub logger : Logger
logger = new_logger (codes "ProtocolHandler") info_level

-- The constructor, and `socket_{}`.
unfoldable pub new_handler : Bytes → ℤ → Bytes → Bytes → Handler
new_handler address port name path = record {
  server_address = address;
  port = port;
  client_name = name;
  file_path = path;
  socket = 0;
}

-- The conversion of an `int` to the `uint16_t` that `htons` takes.
unfoldable pub to_uint16 : ℤ → ℕ
to_uint16 (pos n) = n % 2 ^ 16
to_uint16 (negsuc n) = 2 ^ 16 - 1 - n % 2 ^ 16

-- `sin_addr`: zeros, unless `inet_pton` stores an address. Its result is not looked at.
unfoldable pub address_bytes : Option Bytes → Bytes
address_bytes none = replicate 4 0
address_bytes (some a) = a

-- The bytes that `recv` gave, and its result as text.
unfoldable pub received_text : Option Bytes → Bytes
unfolding decimal
received_text none = codes "-1"
received_text (some b) = decimal (length b)

-- The result of `recv` is this number: -1 is none.
unfoldable pub has_length : ℕ → Option Bytes → Bool
has_length n none = false
has_length n (some b) = length b == n

unfoldable pub bytes_of : Option Bytes → Bytes
bytes_of none = []
bytes_of (some b) = b

module _ {O : Os} where
  -- `socket(…)`, `connect(…)`, `send(…)` and `recv(…)`.
  unfoldable pub call_socket : M O (Option ℕ)
  call_socket w = let (fd, os') = O.socket w.os in (ok fd, record w { os = os' })

  unfoldable pub call_connect : ℕ → Bytes → Bytes → M O Bool
  call_connect fd port address w =
      let (done, os') = O.connect fd port address w.os in
      let after : World O = record w { os = os' } in
      (ok done, if done then note (opened port address) after else after)

  unfoldable pub call_send : ℕ → Bytes → M O Bool
  call_send fd b w =
      let (done, os') = O.send fd b w.os in (ok done, note (sent b) (record w { os = os' }))

  unfoldable pub call_recv : ℕ → ℕ → M O (Option Bytes)
  call_recv fd n w = let (b, os') = O.recv fd n w.os in (ok b, record w { os = os' })

  -- `connect` on a socket that was created.
  unfoldable pub connect_socket : Handler → M O (Handler × Bool)
  unfolding call_connect to_uint16 address_bytes Logger.server_error
  connect_socket h = do
    connected ←
        call_connect h.socket (big16 (to_uint16 h.port))
          (address_bytes (O.inet_pton h.server_address))
    if connected
        then pure (h, true)
        else (Logger.server_error logger (codes "failed to connect to the server")
            >> pure (h, false))

  -- Where no socket is created the caller drops the handler, so that it keeps its old socket here.
  unfoldable pub connect_created : Handler → Option ℕ → M O (Handler × Bool)
  unfolding connect_socket Logger.server_error
  connect_created h none =
      Logger.server_error logger (codes "failed to create a socket") >> pure (h, false)
  connect_created h (some fd) = connect_socket (record h { socket = fd })

  -- The handler with its socket, and whether the connection stands.
  unfoldable pub handle_connection : Handler → M O (Handler × Bool)
  unfolding call_socket connect_created
  handle_connection h = call_socket >>= connect_created h

  unfoldable pub send_request : Handler → Request → M O (Unit {0})
  unfolding serialise call_send Logger.error
  send_request h r = do
    heap ← gets (λ w. O.garbage (header_size + r.payload_size) w.os)
    buffer ← in_bounds (serialise r heap)
    done ← call_send h.socket buffer
    reason ← gets (λ w. O.error_message w.os)
    if done
        then pure tt
        else Logger.error logger
            (codes "Exception caught in sendRequest: Failed to send message to server: " ++ reason)

  -- The `catch` of `safeReceive`, with the message of the error.
  unfoldable pub report_receive : Bytes → Option Bytes → M O (Option Bytes)
  report_receive reason none =
      print cerr
        (codes "Exception caught in safeReceive: recv failed: " ++ (reason ++ (newline ∷ [])))
      >> pure none
  report_receive reason (some b) = pure (some b)

  unfoldable pub safe_receive : ℕ → ℕ → M O (Option Bytes)
  unfolding call_recv report_receive
  safe_receive fd n = do
    received ← call_recv fd n
    reason ← gets (λ w. O.error_message w.os)
    report_receive reason received

  -- The second half of `getResponse`, with the header's fields set.
  unfoldable pub receive_payload : Handler → Response → M O Response
  unfolding safe_receive has_length bytes_of received_text Logger.server_error
  receive_payload h r = do
    received ← safe_receive h.socket r.payload_size
    if has_length r.payload_size received
        then pure (record r { payload = bytes_of received })
        else (do
          Logger.server_error logger (
              codes "Received partial payload, expected "
              ++ (decimal r.payload_size ++ (codes "bytes, got " ++ received_text received)))
          pure r)

  unfoldable pub get_response : Handler → M O Response
  unfolding safe_receive receive_payload uninitialised parse_header received_text
      Logger.server_error
  get_response h = do
    memory ← gets (λ w. O.garbage 8 w.os)
    let response = uninitialised memory
    received ← safe_receive h.socket response_header_size
    if has_length response_header_size received
        then receive_payload h (parse_header (bytes_of received) response)
        else (do
          Logger.server_error logger (
              codes "Received partial headers data, expected 7bytes, got "
              ++ received_text received)
          pure response)
