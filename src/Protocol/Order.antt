-- ===== src/Protocol/Order.antt =====
-- The order of requests that the protocol allows, as an automaton over what is seen from outside.
-- It is written without reference to the client's code.
use defensive_systems_open_u.Prelude.{
  ℕ, ◌+◌, Option, none, some, List, [], ◌∷◌, take, drop, Bytes, ltb, ◌==◌, if◌then◌else◌,
}
use defensive_systems_open_u.Buffer.{little_value}
use defensive_systems_open_u.Runtime.World.{Event, opened, sent, printed, wrote}
pub mod Rules
pub mod Requests
pub mod Upload
pub mod Flow
pub mod Client

pub data Phase : Type 0 where
  -- no connection yet
  closed : Phase
  -- connected, and nothing sent
  idle : Phase
  reconnecting registering : Phase
  -- the public key was sent
  keyed : Phase
  -- the file was sent so many times, and the last time is not yet judged
  uploaded : ℕ → Phase
  -- the file was sent so many times, and the last checksum was refused
  refused : ℕ → Phase
  -- the checksum was accepted
  confirmed : Phase
  -- the client gave up
  abandoned : Phase

-- At most three uploads in a connection.
abbrev pub max_uploads : ℕ
max_uploads = 3

abbrev pub upload_again : ℕ → Option Phase
upload_again n = if ltb n max_uploads then some (uploaded (n + 1)) else none

abbrev pub give_up : ℕ → Option Phase
give_up n = if n == max_uploads then some abandoned else none

-- What a request with this code does to the phase; none where it is out of order.
abbrev pub step : Phase → ℕ → Option Phase
step closed code = none
step idle code =
    if code == 1025 then some registering else if code == 1027 then some reconnecting else none
step reconnecting code =
    if code == 1025 then some registering else if code == 1026 then some keyed else none
step registering code = if code == 1026 then some keyed else none
step keyed code = if code == 1028 then some (uploaded 1) else none
step (uploaded n) code =
    if code == 1028
    then upload_again n
    else if code == 1029
    then some confirmed
    else if code == 1030
    then some (refused n)
    else if code == 1031
    then give_up n
    else none
step (refused n) code =
    if code == 1028 then upload_again n else if code == 1031 then give_up n else none
step confirmed code = none
step abandoned code = none

-- The code of a request, as the receiver finds it at bytes 18 and 19.
unfoldable pub request_code : Bytes → ℕ
request_code b = little_value (take 2 (drop 18 b))

-- A new connection starts the protocol anew.
abbrev pub on_event : Phase → Event → Option Phase
on_event p (opened port address) = some idle
on_event p (sent b) = step p (request_code b)
on_event p (printed stream text) = some p
on_event p (wrote path text) = some p

-- The phase after all events; none if one was out of order.
abbrev pub phase_after : Option Phase → List Event → Option Phase
phase_after none t = none
phase_after (some p) [] = some p
phase_after (some p) (e ∷ t) = phase_after (on_event p e) t
