-- ===== src/Protocol/Connection/Port.antt =====
-- ProtocolHandler.cpp, `handleConnection`: the port that is connected to.
use defensive_systems_open_u.Prelude.{
  ℕ, ◌+◌, ◌%◌, ◌^◌, ◌≡◌, refl, arith, Bool, true, false, Option, none, some, codes, if◌then◌else◌,
}
use defensive_systems_open_u.Prelude.Int.{ℤ, pos, negsuc}
use defensive_systems_open_u.Logger
use defensive_systems_open_u.Protocol.Connection.{
  Handler, logger, call_connect, to_uint16, connect_socket, connect_created, handle_connection,
}
use defensive_systems_open_u.Runtime.Os.{Os}
use defensive_systems_open_u.Runtime.Exec.{pure, ◌>>=◌, ◌>>◌}
use defensive_systems_open_u.Runtime.World.{World, M}

-- The difference of the two is a multiple of 2^16, on either side of zero or across it.
abbrev pub SamePort : ℤ → ℤ → Type 0
SamePort (pos m) (pos n) = m % 2 ^ 16 ≡ n % 2 ^ 16
SamePort (pos m) (negsuc n) = (m + (n + 1)) % 2 ^ 16 ≡ 0
SamePort (negsuc m) (pos n) = ((m + 1) + n) % 2 ^ 16 ≡ 0
SamePort (negsuc m) (negsuc n) = m % 2 ^ 16 ≡ n % 2 ^ 16

to_uint16-SamePort : (p q : ℤ) → SamePort p q → to_uint16 p ≡ to_uint16 q
unfolding to_uint16
to_uint16-SamePort (pos m) (pos n) e = e
to_uint16-SamePort (pos m) (negsuc n) e = omega arith
to_uint16-SamePort (negsuc m) (pos n) e = omega arith
to_uint16-SamePort (negsuc m) (negsuc n) e = omega arith

module _ {O : Os} where
  -- What follows `connect`.
  abbrev connected_or_logged : Handler → Bool → M O (Handler × Bool)
  connected_or_logged h connected =
      if connected
      then pure (h, true)
      else (Logger.server_error logger (codes "failed to connect to the server") >> pure (h, false))

  settled :
      (g h : Handler) (connected : Bool) (v : World O)
      → (connected_or_logged g connected v).1 ≡ (connected_or_logged h connected v).1
  unfolding ◌>>=◌ Logger.server_error
  settled g h true v = refl
  settled g h false v = refl

module _ {O : Os} (h : Handler) (port : ℤ) (same : SamePort port h.port) (w : World O) where
  connect_created_world :
      (created : Option ℕ) (v : World O)
      → (connect_created (record h { port = port }) created v).1 ≡ (connect_created h created v).1
  unfolding connect_created connect_socket call_connect ◌>>=◌
  connect_created_world none v = refl
  connect_created_world (some fd) v = rw (to_uint16-SamePort port h.port same) (
      settled (record h { port = port; socket = fd }) (record h { socket = fd })
        (O.connect fd _ _ v.os).0 _)

  -- Two ports whose difference is a multiple of 2^16, such as -1 and 65535, are one port:
  -- `handleConnection` has the same effects with each, the port that is connected to included.
  pub handle_connection_port :
      (handle_connection (record h { port = port }) w).1 ≡ (handle_connection h w).1
  unfolding handle_connection ◌>>=◌
  handle_connection_port =
      connect_created_world (O.socket w.os).0 (record w { os = (O.socket w.os).1 })
