-- ===== src/Protocol/Events/Client.antt =====
-- What a whole run of the client shows to the outside, main.cpp.
use defensive_systems_open_u.Prelude.{
  ℕ, ◌≡◌, Bool, false, Bool-cases, inl, inr, List, [], length, Bytes, if◌then◌else◌,
}
use defensive_systems_open_u.FileHandler.{MeInfo, read_me_info, TransferInfo, read_transfer_info}
use defensive_systems_open_u.Main.{
  handle_runtime_error, catch_runtime_error, reconnect_known, register_new, handle_client,
}
use defensive_systems_open_u.Protocol.Connection.{new_handler, handle_connection}
use defensive_systems_open_u.Protocol.Events.{IsAllowed}
use defensive_systems_open_u.Protocol.Events.Conversation.{
  Converses, Converses-Adds, Converses-before, Converses-anonymous, Speaks,
}
use defensive_systems_open_u.Protocol.Events.Flow.{
  handle_registration-Speaks, handle_reconnection-Speaks,
}
use defensive_systems_open_u.Runtime.Exec.{
  Any, is_runtime_error, Result, ok, thrown, fault, pure, continue, ◌>>=◌,
}
use defensive_systems_open_u.Protocol.Flow.{handle_registration, handle_reconnection}
use defensive_systems_open_u.Protocol.Quiet.Steps
use defensive_systems_open_u.Runtime.Library.{Library}
use defensive_systems_open_u.Runtime.Os.{Os}
use defensive_systems_open_u.Runtime.Trace.{Adds, Adds-refl, Adds-trans, Adds-weaken}
use defensive_systems_open_u.Runtime.World.{World, Event}
use defensive_systems_open_u.Protocol.Events.Connect.{port_of, address_of, plain, connected-Speaks}

-- The events of a run with this `transfer.info`.
abbrev pub Allowed : Os → TransferInfo → Event → Type 0
Allowed O t = IsAllowed (port_of t) (address_of O t)

-- A conversation of a run with this `transfer.info`.
abbrev pub Conversation : Library → Os → TransferInfo → Bytes → List Event → List Event → Type 0
Conversation L O t name = Converses L (port_of t) (address_of O t) name Any

-- The name in `me.info`, where it can be read.
abbrev pub known_name : Result MeInfo → Bytes
known_name (ok me) = me.name
known_name (thrown e) = []
known_name fault = []

module _ {O : Os} (L : Library) (t : TransferInfo)
    (memory : (n : ℕ) (s : O.State) → length (O.garbage n s) ≡ n) where
  reconnect_known-Converses :
      (w : World O)
      → Conversation L O t (known_name (read_me_info w).0) w.trace (reconnect_known L t w).1.trace
  unfolding reconnect_known ◌>>=◌
  reconnect_known-Converses w =
      let (r, w') = read_me_info {O = O} w in
      Converses-before (Adds-weaken (plain O t) (Steps.Quiet-read_me_info.adds w)) (rest r w')
    where
      rest :
          (r : Result MeInfo) (w' : World O)
          → Conversation L O t
              (known_name r)
              w'.trace
              (continue
                (λ me.
                  handle_connection (new_handler t.ip_address t.port me.name t.file_path) >>= λ p.
                  if p.1 then handle_reconnection L p.0 else pure false)
                (r, w')).1.trace
      rest (ok me) w' =
          (connected-Speaks L t me.name (handle_reconnection L)
              (handle_reconnection-Speaks L (port_of t) (address_of O t) memory)).run
            w'
      rest (thrown e) w' = Converses-anonymous [] tt (Adds-refl w'.trace)
      rest fault w' = Converses-anonymous [] tt (Adds-refl w'.trace)

  register_new-Speaks : Speaks L (port_of t) (address_of O t) t.name {O = O} (register_new L t) Any
  unfolding register_new
  register_new-Speaks =
      connected-Speaks L t t.name (handle_registration L)
        (handle_registration-Speaks L (port_of t) (address_of O t) memory)

  handled-Converses :
      (r : Result Bool) (w : World O)
      → Conversation L O t t.name w.trace (handle_runtime_error (register_new L t) (r, w)).1.trace
  handled-Converses (ok a) w = Converses-anonymous [] tt (Adds-refl w.trace)
  handled-Converses (thrown e) w = elim (Bool-cases (is_runtime_error e.kind)) [
    | inl caught ↦ rw caught (register_new-Speaks.run w)
    | inr passed ↦ rw passed (Converses-anonymous [] tt (Adds-refl w.trace))
  ]
  handled-Converses fault w = Converses-anonymous [] tt (Adds-refl w.trace)

  -- The two conversations of a run that has read `transfer.info`.
  caught-Converses :
      (w : World O)
      → (mid : List Event) × Conversation L O t (known_name (read_me_info w).0) w.trace mid
        × Conversation L O t t.name mid
            (catch_runtime_error (reconnect_known L t) (register_new L t) w).1.trace
  unfolding catch_runtime_error
  caught-Converses w =
      let (r, w') = reconnect_known L t w in
      (w'.trace, reconnect_known-Converses w, handled-Converses r w')

  -- However a run ends, once `transfer.info` has been read, what `handleClient` adds to what was
  -- seen before is one conversation under the name of `me.info` (empty text where that could not be
  -- read), and then one under the name of `transfer.info`; either may be empty. A conversation has
  -- two parts. In the first there are only connections to the port and the address of
  -- `transfer.info`, whole messages of version 3 whose client id is sixteen zeros, and text on the
  -- standard streams. In the second there are one id and one private key such that nothing happens
  -- but: whole messages of version 3 with that id, the file `me.info` being written with that
  -- conversation's name, that id and that private key, the private key's file being written with
  -- that private key, and text on the standard streams; no connection is made. This supposes that memory which is
  -- allocated has the size that was asked for.
  pub handle_client-Converses :
      (w : World O)
      → (read_transfer_info w).0 ≡ ok t
      → (mid : List Event) × Conversation L O t
          (known_name (read_me_info (read_transfer_info w).1).0)
          w.trace
          mid
        × Conversation L O t t.name mid (handle_client L w).1.trace
  unfolding handle_client ◌>>=◌
  handle_client-Converses w read =
      let (r, w') = read_transfer_info {O = O} w in
      let quiet = Adds-weaken (plain O t) (Steps.Quiet-read_transfer_info.adds w) in
      let (mid, first, second) = rest r w' read in (mid, Converses-before quiet first, second)
    where
      rest :
          (r : Result TransferInfo) (w' : World O)
          → r ≡ ok t
          → (mid : List Event) × Conversation L O t (known_name (read_me_info w').0) w'.trace mid
            × Conversation L O t t.name mid
                (continue
                  (λ t. catch_runtime_error (reconnect_known L t) (register_new L t))
                  (r, w')).1.trace
      rest r w' e = rw e (caught-Converses w')

  -- However a run ends, once `transfer.info` has been read, the run keeps what was seen before, and
  -- all that `handleClient` adds is: connections to the port and the address of `transfer.info`,
  -- whole messages of version 3 with an id of sixteen bytes and as many bytes of payload as their header says, text on the
  -- standard streams, and writes of `me.info` and the private key, and of no other file. This
  -- supposes that memory which is allocated has the size that was asked for.
  pub handle_client-IsAllowed :
      (w : World O)
      → (read_transfer_info w).0 ≡ ok t
      → Adds (Allowed O t) w.trace (handle_client L w).1.trace
  handle_client-IsAllowed w read =
      let (mid, first, second) = handle_client-Converses w read in
      Adds-trans (Converses-Adds first) (Converses-Adds second)
