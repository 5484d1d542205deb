-- ===== src/Protocol/Events/Connect.antt =====
-- What a connection shows to the outside, in ProtocolHandler.cpp, and the flow that follows it.
use defensive_systems_open_u.Prelude.{
  ℕ, ◌≡◌, refl, sym, Bool, true, false, [], Option, none, some, Bytes, if◌then◌else◌,
}
use defensive_systems_open_u.Buffer.{big16}
use defensive_systems_open_u.FileHandler.{TransferInfo}
use defensive_systems_open_u.Protocol.Connection.{
  Handler, new_handler, to_uint16, address_bytes, call_socket, call_connect, connect_socket,
  connect_created, handle_connection,
}
use defensive_systems_open_u.Protocol.Events.{IsAnonymous, plain-IsAnonymous}
use defensive_systems_open_u.Protocol.Events.Conversation.{
  Speaks, Speaks-if, Speaks-then, Speaks-Quiet,
}
use defensive_systems_open_u.Protocol.Events.Rules.{
  Makes, Makes-pure, Makes-if, Makes-after, Makes-then,
}
use defensive_systems_open_u.Runtime.Exec.{Any, pure, ◌>>=◌}
use defensive_systems_open_u.Protocol.Quiet.{IsPlain, Quiet, quiet_rules}
use defensive_systems_open_u.Protocol.Quiet.Steps
use defensive_systems_open_u.Runtime.Library.{Library}
use defensive_systems_open_u.Runtime.Os.{Os}
use defensive_systems_open_u.Runtime.Trace.{Adds, Adds-refl, Adds-one}
use defensive_systems_open_u.Runtime.World.{World, M, Event, opened, note}

-- The port and the address of `transfer.info`, as they are given to `connect`.
abbrev pub port_of : TransferInfo → Bytes
port_of t = big16 (to_uint16 t.port)

abbrev pub address_of : Os → TransferInfo → Bytes
address_of O t = address_bytes (O.inet_pton t.ip_address)

-- What is seen of a run with this `transfer.info` while the client is unnamed.
abbrev pub Unnamed : Os → TransferInfo → Event → Type 0
Unnamed O t = IsAnonymous (port_of t) (address_of O t)

pub plain : (O : Os) (t : TransferInfo) (e : Event) → IsPlain e → Unnamed O t e
plain O t = plain-IsAnonymous (port_of t) (address_of O t)

-- A handler of this client.
abbrev IsNamed : Bytes → Handler × Bool → Type 0
IsNamed name p = p.0.client_name ≡ name

module _ {O : Os} (L : Library) (t : TransferInfo) where
  Quiet-call_socket : Quiet (call_socket {O = O})
  unfolding call_socket
  Quiet-call_socket = record { adds = λ w. Adds-refl w.trace }

  adds-opened :
      (done : Bool) (w : World O)
      → Adds
          (Unnamed O t)
          w.trace
          (if done then note (opened (port_of t) (address_of O t)) w else w).trace
  adds-opened true w = Adds-one w.trace (opened (port_of t) (address_of O t)) (refl, refl)
  adds-opened false w = Adds-refl w.trace

  call_connect-Makes :
      (fd : ℕ) → Makes {O = O} (Unnamed O t) (call_connect fd (port_of t) (address_of O t)) Any
  unfolding call_connect
  call_connect-Makes fd = record {
    run = λ w.
        let (done, os') = O.connect fd (port_of t) (address_of O t) w.os in
        (adds-opened done (record w { os = os' }), tt);
  }

  connect_created-Makes :
      (name : Bytes) (created : Option ℕ)
      → Makes {O = O}
          (Unnamed O t)
          (connect_created (new_handler t.ip_address t.port name t.file_path) created)
          (IsNamed name)
  unfolding connect_created connect_socket new_handler
  connect_created-Makes name none =
      Makes-after _ (plain O t) _ _ _ (search Steps.Quiet-server_error) λ _. Makes-pure _ _ _ refl
  connect_created-Makes name (some fd) =
      Makes-then _ (call_connect fd _ _) _ _ (call_connect-Makes fd) λ connected.
        Makes-if _ connected _ _ _ (Makes-pure _ _ _ refl) (
          Makes-after _ (plain O t) _ _ _ (search Steps.Quiet-server_error)
            λ _. Makes-pure _ _ _ refl)

  -- The connection, and the flow that follows it.
  pub connected-Speaks :
      (name : Bytes) (flow : Handler → M O Bool)
      → ((h : Handler) → Speaks L (port_of t) (address_of O t) h.client_name {O = O} (flow h) Any)
      → Speaks L
          (port_of t)
          (address_of O t)
          name
          {O = O}
          (handle_connection (new_handler t.ip_address t.port name t.file_path) >>= λ p.
            if p.1 then flow p.0 else pure false)
          Any
  unfolding handle_connection
  connected-Speaks name flow k =
      Speaks-then Any [] tt (IsNamed name)
        (handle_connection (new_handler t.ip_address t.port name t.file_path)) _
        (Makes-after _ (plain O t) call_socket _ _ Quiet-call_socket (connect_created-Makes name))
        λ p named.
          Speaks-if p.1 (flow p.0) _ Any (rw (sym named) (k p.0))
            (Speaks-Quiet Any [] tt _ (search quiet_rules))
