-- ===== src/Protocol/Order/Client.antt =====
-- The order of requests in a whole run of the client, main.cpp.
use defensive_systems_open_u.Prelude.{◌≡◌, Bool, true, false}
use defensive_systems_open_u.Protocol.Connection.{Handler}
use defensive_systems_open_u.Protocol.Order.{Phase, idle}
use defensive_systems_open_u.Protocol.Quiet.{Quiet}
use defensive_systems_open_u.Protocol.Quiet.Steps
use defensive_systems_open_u.Runtime.Library.{Library}
use defensive_systems_open_u.Runtime.Os.{Os}
use defensive_systems_open_u.Runtime.World.{World}

-- A connection that stands is new: nothing has been sent on it.
abbrev Connected : Handler × Bool → Phase → Type 0
Connected (h, true) q = q ≡ idle
Connected (h, false) q = Unit {0}

abbrev Opened : Bool → Phase → Type 0
Opened true q = q ≡ idle
Opened false q = Unit {0}
