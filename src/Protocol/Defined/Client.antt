-- ===== src/Protocol/Defined/Client.antt =====
-- A whole run of the client makes no access out of bounds, main.cpp.
use defensive_systems_open_u.Prelude.{
  ℕ, ◌≡◌, ◌≢◌, Bool, true, false, Option, none, some, length, Bytes, if◌then◌else◌,
}
use defensive_systems_open_u.FileHandler.{TransferInfo, read_transfer_info}
use defensive_systems_open_u.Main.{
  handle_runtime_error, catch_runtime_error, reconnect_known, register_new, handle_client,
}
use defensive_systems_open_u.Protocol.Connection.{
  Handler, new_handler, call_socket, call_connect, connect_socket, connect_created, get_response,
  handle_connection,
}
use defensive_systems_open_u.Protocol.Defined.{
  Sure, Defined, Defined-pure, Defined-if, Safe, Defined-after, safe_rules,
}
use defensive_systems_open_u.Runtime.Exec.{
  Any, is_runtime_error, Result, ok, thrown, fault, pure, ◌>>=◌,
}
use defensive_systems_open_u.Protocol.Defined.Flow.{
  handle_registration-Defined, handle_reconnection-Defined,
}
use defensive_systems_open_u.Protocol.Defined.Steps
use defensive_systems_open_u.Protocol.Defined.Upload.{ReadsFiles, HasChecksum}
use defensive_systems_open_u.Protocol.Flow.{handle_registration, handle_reconnection}
use defensive_systems_open_u.Protocol.Message.{Response}
use defensive_systems_open_u.Runtime.Library.{Library}
use defensive_systems_open_u.Runtime.Os.{Os}
use defensive_systems_open_u.Runtime.World.{World, M}

Sure-≢ : {A : Type 0} (r : Result A) → Sure Any r → r ≢ fault
Sure-≢ (ok a) s e = cc
Sure-≢ (thrown x) s e = cc
Sure-≢ fault s e = s

module _ {O : Os} where
  Safe-call_socket : Safe (call_socket {O = O})
  unfolding call_socket
  Safe-call_socket = record { safe = record { run = λ w. tt } }

  Safe-call_connect : (fd : ℕ) (port address : Bytes) → Safe (call_connect {O = O} fd port address)
  unfolding call_connect
  Safe-call_connect fd port address = record { safe = record { run = λ w. tt } }

  Safe-connect_created :
      (h : Handler) (created : Option ℕ) → Safe (connect_created {O = O} h created)
  unfolding connect_created connect_socket
  Safe-connect_created h none = search (safe_rules, Steps.Safe-server_error)
  Safe-connect_created h (some fd) = search (safe_rules, Steps.Safe-server_error, Safe-call_connect)

  Safe-handle_connection : (h : Handler) → Safe (handle_connection {O = O} h)
  unfolding handle_connection
  Safe-handle_connection h = search (safe_rules, Safe-call_socket, Safe-connect_created)

  connected-Defined :
      (h : Handler) (flow : Handler → M O Bool)
      → ((h : Handler) → Defined (flow h) Any)
      → Defined {O = O} (handle_connection h >>= λ p. if p.1 then flow p.0 else pure false) Any
  connected-Defined h flow k =
      Defined-after (handle_connection h) _ _ (Safe-handle_connection h)
        λ p. Defined-if p.1 (flow p.0) _ _ (k p.0) (Defined-pure false _ tt)

  handled-Sure :
      (r : Result Bool) (w : World O) (handler : M O Bool)
      → Sure Any r
      → Defined handler Any
      → Sure Any (handle_runtime_error handler (r, w)).0
  handled-Sure (ok a) w handler s k = tt
  handled-Sure (thrown e) w handler s k = caught (is_runtime_error e.kind)
    where
      caught : (b : Bool) → Sure Any (if b then handler w else (thrown e, w)).0
      caught true = k.run w
      caught false = tt
  handled-Sure fault w handler s k = s

  catch_runtime_error-Defined :
      (body handler : M O Bool)
      → Defined body Any
      → Defined handler Any
      → Defined (catch_runtime_error body handler) Any
  unfolding catch_runtime_error
  catch_runtime_error-Defined body handler b k = record {
    run = λ w. let (r, w') = body w in handled-Sure r w' handler (b.run w) k;
  }

-- A run of the client makes no access outside of a buffer and does not overflow the index of memcrc's
-- loop, whatever the server, the network, the files and the library answer and however the run ends,
-- if: allocated memory has the size that was asked for, reading a file gives all the bytes that were
-- asked for, at most 2^31 - 1 of them, and every response with the code 2103 has at least four bytes
-- of payload. This last is also supposed of a response whose header did not arrive, whose fields are
-- taken to be the values that its memory held. The size of getResponse's own array and the alignment
-- of accesses are not looked at.
pub handle_client_in_bounds :
    {O : Os} (L : Library) (w : World O)
    → ((n : ℕ) (s : O.State) → length (O.garbage n s) ≡ n)
    → ReadsFiles O
    → ((h : Handler) (v : World O) (r : Response) → (get_response h v).0 ≡ ok r → HasChecksum r)
    → (handle_client L w).0 ≢ fault
unfolding handle_client reconnect_known register_new
handle_client_in_bounds {O} L w memory files replies = Sure-≢ (handle_client L w).0 (whole.run w)
  where
    body :
        (t : TransferInfo)
        → Defined {O = O} (catch_runtime_error (reconnect_known L t) (register_new L t)) Any
    body t =
        catch_runtime_error-Defined (reconnect_known L t) (register_new L t)
          (Defined-after _ _ _ (search Steps.Safe-read_me_info) λ me.
            connected-Defined (new_handler t.ip_address t.port me.name t.file_path)
              (handle_reconnection L) (handle_reconnection-Defined memory files replies L))
          (connected-Defined (new_handler t.ip_address t.port t.name t.file_path)
            (handle_registration L) (handle_registration-Defined memory files replies L))

    whole : Defined {O = O} (handle_client L) Any
    whole = Defined-after read_transfer_info _ _ (search Steps.Safe-read_transfer_info) body
