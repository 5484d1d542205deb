-- ===== src/Runtime/World.antt =====
-- The state of a run: that of the system, and the calls made so far that are seen from outside.
use defensive_systems_open_u.Prelude.{List, [], ◌∷◌, ◌++◌, Bytes}
use defensive_systems_open_u.Runtime.Os.{Os}
use defensive_systems_open_u.Runtime.Exec.{Exec, ok}

pub data Stream : Type 0 where
  cout cerr : Stream

pub data Event : Type 0 where
  -- a connection that was made, to this port and address
  opened : Bytes → Bytes → Event
  -- a call of `send` with this buffer
  sent : Bytes → Event
  -- text on a standard stream
  printed : Stream → Bytes → Event
  -- a file that was opened for writing, and what was written
  wrote : Bytes → Bytes → Event

pub record World (O : Os) : Type 0 where
  pub os : O.State
  pub trace : List Event

abbrev pub M : Os → Type 0 → Type 0
M O A = Exec (World O) A

module _ {O : Os} where
  abbrev pub note : Event → World O → World O
  note e w = record w { trace = w.trace ++ (e ∷ []) }

  -- A call whose result is handed on, with the event that it leaves.
  abbrev pub print : Stream → Bytes → M O (Unit {0})
  print stream text w = (ok tt, note (printed stream text) w)

-- The buffers that were sent, in order.
abbrev pub sends : List Event → List Bytes
sends [] = []
sends (opened p a ∷ t) = sends t
sends (sent b ∷ t) = b ∷ sends t
sends (printed s x ∷ t) = sends t
sends (wrote p x ∷ t) = sends t
