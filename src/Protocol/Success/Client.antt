-- ===== src/Protocol/Success/Client.antt =====
-- main.cpp, a run of the client against a server that serves.
use defensive_systems_open_u.Prelude.{
  ℕ, ◌^◌, ◌<◌, ◌≡◌, refl, sym, ap, Bool, true, false, ◌⊎◌, inl, inr, Option, none, some, List, [],
  ◌∷◌, ◌++◌, length, Bytes, IsBytes, codes, if◌then◌else◌,
}
use defensive_systems_open_u.Buffer.{big16}
use defensive_systems_open_u.FileHandler.{
  TransferInfo, me_info_path, parse_me_info, read_me_info, read_transfer_info,
}
use defensive_systems_open_u.Main.{
  handle_runtime_error, catch_runtime_error, handle_client, reconnect_known, register_new,
}
use defensive_systems_open_u.Protocol.Connection.{
  Handler, new_handler, to_uint16, address_bytes, call_socket, call_connect, connect_socket,
  connect_created, handle_connection,
}
use defensive_systems_open_u.Protocol.Flow.{handle_registration, handle_reconnection}
use defensive_systems_open_u.Protocol.Success.Registration.{
  handle_registration-Runs, handle_reconnection-Runs, handle_reconnection-rejects,
}
use defensive_systems_open_u.Protocol.Success.Rules.{Runs, Runs-pure, Runs-bind, Runs-step}
use defensive_systems_open_u.Protocol.Success.Server.{Session, fresh, known, done, IsServer}
use defensive_systems_open_u.Runtime.Library
use defensive_systems_open_u.Runtime.Library.{Library}
use defensive_systems_open_u.Runtime.Os.{Os}
use defensive_systems_open_u.Runtime.Exec.{ok, thrown, runtime_error, pure, ◌>>=◌}
use defensive_systems_open_u.Runtime.World.{World, M, Event, opened, note}

-- The handler of a run under this name, with its socket.
abbrev pub handler_for : TransferInfo → Bytes → ℕ → Handler
handler_for t name fd = record (new_handler t.ip_address t.port name t.file_path) { socket = fd }

-- `connect` to the address and the port of `transfer.info`.
abbrev pub connects : (O : Os) → TransferInfo → ℕ → O.State → Bool × O.State
connects O t fd s =
    O.connect fd (big16 (to_uint16 t.port)) (address_bytes (O.inet_pton t.ip_address)) s

-- A system in the state `s` on which a client of this name reaches a server that serves, which is
-- then in the session `σ`.
pub record Reaches (O : Os) (L : Library) (t : TransferInfo) (name contents : Bytes) (σ : Session)
    (s : O.State) : Type 1 where
  pub fd : ℕ
  pub server : IsServer O L fd name t.file_path contents
  pub created : (O.socket s).0 ≡ some fd
  pub connected : (connects O t fd (O.socket s).1).0 ≡ true
  pub greets : server.In σ (connects O t fd (O.socket s).1).1

module _ {O : Os} {L : Library} (t : TransferInfo) (name contents : Bytes) (σ : Session)
    (s : O.State) (r : Reaches O L t name contents σ s) where
  call_connect_lem :
      (trace : List Event)
      → (trace' : List Event) × (call_connect {O = O} r.fd
            (big16 (to_uint16 t.port))
            (address_bytes (O.inet_pton t.ip_address))
            (record { os = (O.socket s).1; trace = trace })
          ≡ (ok true, record { os = (connects O t r.fd (O.socket s).1).1; trace = trace' }))
  unfolding call_connect
  call_connect_lem trace = (
    trace ++ (opened port address ∷ []),
    ap (λ (done : Bool). (ok done, if done then note (opened port address) after else after))
        r.connected,
  )
    where
      port : Bytes
      port = big16 (to_uint16 t.port)

      address : Bytes
      address = address_bytes (O.inet_pton t.ip_address)

      after : World O
      after = record { os = (connects O t r.fd (O.socket s).1).1; trace = trace }

  abbrev Connected : Handler × Bool → O.State → Type 0
  Connected p s' = (p ≡ (handler_for t name r.fd, true)) × r.server.In σ s'

  connection-Runs :
      Runs {O = O}
        (handle_connection (new_handler t.ip_address t.port name t.file_path))
        s
        Connected
  unfolding handle_connection call_socket connect_created connect_socket new_handler
  connection-Runs =
      Runs-step call_socket _ s _ (some r.fd) (O.socket s).1
        (λ trace. (
          trace,
          ap (λ (fd : Option ℕ). (ok fd, record { os = (O.socket s).1; trace = trace })) r.created,
        ))
        (Runs-step (call_connect r.fd _ _) _ _ _ true _ call_connect_lem
          (Runs-pure _ _ _ (refl, r.greets)))

  -- The connection is made, and the flow that follows is the rest of the run.
  handle_connection-Runs :
      (flow : Handler → M O Bool)
      → ((s' : O.State)
          → r.server.In σ s'
          → Runs {O = O}
              (flow (handler_for t name r.fd))
              s'
              (λ a s''. (a ≡ true) × r.server.In done s''))
      → Runs {O = O}
          (handle_connection (new_handler t.ip_address t.port name t.file_path) >>= λ p.
            if p.1 then flow p.0 else pure false)
          s
          (λ a s'. (a ≡ true) × r.server.In done s')
  handle_connection-Runs flow k =
      Runs-bind (handle_connection (new_handler t.ip_address t.port name t.file_path)) _ s Connected
        _ connection-Runs λ p s' (good : Connected p s'). rw (good.0) (k s' good.1)

module _ {O : Os} {L : Library} (lawful : Library.IsLawful L) (contents : Bytes)
    (bytes : IsBytes contents) (small : length contents < 2 ^ 30) (t : TransferInfo) where
  register_new-Runs :
      (s : O.State) (r : Reaches O L t t.name contents fresh s)
      → Runs {O = O} (register_new L t) s (λ a s'. (a ≡ true) × r.server.In done s')
  unfolding register_new
  register_new-Runs s r =
      handle_connection-Runs t t.name contents fresh s r (handle_registration L) λ s' at.
        handle_registration-Runs lawful (handler_for t t.name r.fd) contents r.server bytes small s'
          at

  reconnect_known-Runs :
      (s : O.State) (text : Bytes) (σ : Session)
      (r : Reaches O L t (parse_me_info text).name contents σ s)
      → O.read_file me_info_path s ≡ some text
      → (σ ≡ fresh) ⊎ ((id : Bytes) × (σ ≡ known id))
      → Runs {O = O} (reconnect_known L t) s (λ a s'. (a ≡ true) × r.server.In done s')
  unfolding reconnect_known read_me_info ◌>>=◌
  reconnect_known-Runs s text σ r found start =
      Runs-step read_me_info _ s _ (parse_me_info text) s (λ trace. (trace, read_lem trace))
        (handle_connection-Runs t (parse_me_info text).name contents σ s r (handle_reconnection L)
          λ s' at. elim start [
            | inl e ↦
                handle_reconnection-rejects lawful (handler_for t (parse_me_info text).name r.fd)
                  contents r.server bytes small s' (rw (sym e) at)
            | inr e ↦
                handle_reconnection-Runs lawful (handler_for t (parse_me_info text).name r.fd)
                  contents r.server bytes small e.0 s' (rw (sym e.1) at)
          ])
    where
      read_lem :
          (trace : List Event)
          → read_me_info {O = O} (record { os = s; trace = trace })
            ≡ (ok (parse_me_info text), record { os = s; trace = trace })
      read_lem trace = rw found refl

  reconnect_known_lem :
      (s : O.State)
      → O.read_file me_info_path s ≡ none
      → (trace : List Event)
      → reconnect_known {O = O} L t (record { os = s; trace = trace }) ≡ (
        thrown (record { kind = runtime_error; what = codes "Unable to open " ++ me_info_path }),
        record { os = s; trace = trace },
      )
  unfolding reconnect_known read_me_info ◌>>=◌
  reconnect_known_lem s unknown trace = rw unknown refl

  caught-Runs :
      (s : O.State) (r : Reaches O L t t.name contents fresh s)
      → O.read_file me_info_path s ≡ none
      → Runs {O = O}
          (catch_runtime_error (reconnect_known L t) (register_new L t))
          s
          (λ a s'. (a ≡ true) × r.server.In done s')
  unfolding catch_runtime_error
  caught-Runs s r unknown = record {
    run = λ trace. rw (reconnect_known_lem s unknown trace) ((register_new-Runs s r).run trace);
  }

  not_caught-Runs :
      (s : O.State) (Q : Bool → O.State → Type 0)
      → Runs {O = O} (reconnect_known L t) s Q
      → Runs {O = O} (catch_runtime_error (reconnect_known L t) (register_new L t)) s Q
  unfolding catch_runtime_error
  not_caught-Runs s Q h = record {
    run = λ trace.
        let (a, s', trace', e, q) = h.run trace in
        (a, s', trace', ap (handle_runtime_error (register_new L t)) e, q);
  }

  client-Runs :
      (w : World O) (In : O.State → Type 0)
      → read_transfer_info w ≡ (ok t, w)
      → Runs {O = O}
          (catch_runtime_error (reconnect_known L t) (register_new L t))
          w.os
          (λ a s'. (a ≡ true) × In s')
      → ((handle_client L w).0 ≡ ok true) × In (handle_client L w).1.os
  unfolding handle_client ◌>>=◌
  client-Runs w In reads h =
      let (a, s', trace', e, good) = h.run w.trace in rw reads (rw e (ap ok good.0, good.1))

  -- A first run succeeds. Where `transfer.info` can be read, there is no `me.info`, the connection is
  -- made, the library meets its documented laws, the file has fewer than 2^30 bytes, and the server
  -- does its part in every session, `handleClient` returns true, and the server ends in the session
  -- in which the client has accepted its checksum.
  pub handle_client-first :
      (w : World O)
      → read_transfer_info w ≡ (ok t, w)
      → O.read_file me_info_path w.os ≡ none
      → (r : Reaches O L t t.name contents fresh w.os)
      → ((handle_client L w).0 ≡ ok true) × r.server.In done (handle_client L w).1.os
  handle_client-first w reads unknown r =
      client-Runs w (r.server.In done) reads (caught-Runs w.os r unknown)

  -- A later run succeeds. Where `transfer.info` and `me.info` can be read, the connection is made,
  -- the library meets its documented laws, the file has fewer than 2^30 bytes, and the server, which
  -- knows the name in `me.info` or has forgotten it and turns the reconnection away, does its part in
  -- every session, `handleClient` returns true, and the server ends in the session in which the
  -- client has accepted its checksum.
  pub handle_client-later :
      (w : World O) (text : Bytes) (σ : Session)
      → read_transfer_info w ≡ (ok t, w)
      → O.read_file me_info_path w.os ≡ some text
      → (σ ≡ fresh) ⊎ ((id : Bytes) × (σ ≡ known id))
      → (r : Reaches O L t (parse_me_info text).name contents σ w.os)
      → ((handle_client L w).0 ≡ ok true) × r.server.In done (handle_client L w).1.os
  handle_client-later w text σ reads found start r =
      client-Runs w (r.server.In done) reads
        (not_caught-Runs w.os _ (reconnect_known-Runs w.os text σ r found start))
