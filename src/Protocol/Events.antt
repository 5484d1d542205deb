-- ===== src/Protocol/Events.antt =====
-- What a run of the client may show to the outside: where it connects to, what it sends, and which
-- files it writes. It is written without reference to the client's code.
pub mod Rules
pub mod Requests
pub mod Saves
pub mod Upload
pub mod Conversation
pub mod Flow
pub mod Connect
pub mod Client
use defensive_systems_open_u.Prelude.{ℕ, ◌≡◌, ◌⊎◌, [], ◌∷◌, length, replicate, Bytes, inl, inr}
use defensive_systems_open_u.FileHandler.{me_info_path, private_key_path, me_info_text}
use defensive_systems_open_u.Protocol.Message.Layout.{receive}
use defensive_systems_open_u.Protocol.Quiet.{IsPlain}
use defensive_systems_open_u.Runtime.Library.{Library}
use defensive_systems_open_u.Runtime.World.{Event, opened, sent, printed, wrote}

-- A whole message of version 3: behind its header there are as many bytes as the header says.
abbrev pub IsMessage : Bytes → Type 0
IsMessage b =
    (length (receive b).client_id ≡ 16)
    × ((receive b).version ≡ b'3' ∷ [])
    × (length (receive b).payload ≡ (receive b).payload_size)

-- The files that the client keeps: `me.info` and the private key.
abbrev pub IsKept : Bytes → Type 0
IsKept path = (path ≡ me_info_path) ⊎ (path ≡ private_key_path)

-- Connections go to this port and address, whole messages are sent, and the files that are written
-- are those that the client keeps.
abbrev pub IsAllowed : Bytes → Bytes → Event → Type 0
IsAllowed port address (opened p a) = (p ≡ port) × (a ≡ address)
IsAllowed port address (sent b) = IsMessage b
IsAllowed port address (printed stream text) = Unit {0}
IsAllowed port address (wrote path text) = IsKept path

-- Before the server has named the client: connections to this port and address, and messages with an
-- id of zeros.
abbrev pub IsAnonymous : Bytes → Bytes → Event → Type 0
IsAnonymous port address (opened p a) = (p ≡ port) × (a ≡ address)
IsAnonymous port address (sent b) = IsMessage b × ((receive b).client_id ≡ replicate 16 0)
IsAnonymous port address (printed stream text) = Unit {0}
IsAnonymous port address (wrote path text) = ⊥

-- Once the client goes by this name and id, and has this private key: no new connection, messages
-- with this id, and a `me.info` and a private key that say just that.
abbrev pub IsIdentified : Library → Bytes → Bytes → Bytes → Event → Type 0
IsIdentified L name id key (opened p a) = ⊥
IsIdentified L name id key (sent b) = IsMessage b × ((receive b).client_id ≡ id)
IsIdentified L name id key (printed stream text) = Unit {0}
IsIdentified L name id key (wrote path text) =
    ((path ≡ me_info_path) × (text ≡ me_info_text name id (L.base64_encode key)))
    ⊎ ((path ≡ private_key_path) × (text ≡ key))

pub plain-IsAnonymous : (port address : Bytes) (e : Event) → IsPlain e → IsAnonymous port address e
plain-IsAnonymous port address (opened p a) h = elim h [ ]
plain-IsAnonymous port address (sent b) h = elim h [ ]
plain-IsAnonymous port address (printed stream text) h = tt
plain-IsAnonymous port address (wrote path text) h = elim h [ ]

pub plain-IsIdentified :
    (L : Library) (name id key : Bytes) (e : Event) → IsPlain e → IsIdentified L name id key e
plain-IsIdentified L name id key (opened p a) h = elim h [ ]
plain-IsIdentified L name id key (sent b) h = elim h [ ]
plain-IsIdentified L name id key (printed stream text) h = tt
plain-IsIdentified L name id key (wrote path text) h = elim h [ ]

pub IsAnonymous-IsAllowed :
    (port address : Bytes) (e : Event) → IsAnonymous port address e → IsAllowed port address e
IsAnonymous-IsAllowed port address (opened p a) h = h
IsAnonymous-IsAllowed port address (sent b) h = h.0
IsAnonymous-IsAllowed port address (printed stream text) h = tt
IsAnonymous-IsAllowed port address (wrote path text) h = elim h [ ]

pub IsIdentified-IsAllowed :
    (L : Library) (port address name id key : Bytes) (e : Event)
    → IsIdentified L name id key e
    → IsAllowed port address e
IsIdentified-IsAllowed L port address name id key (opened p a) h = elim h [ ]
IsIdentified-IsAllowed L port address name id key (sent b) h = h.0
IsIdentified-IsAllowed L port address name id key (printed stream text) h = tt
IsIdentified-IsAllowed L port address name id key (wrote path text) (inl h) = inl h.0
IsIdentified-IsAllowed L port address name id key (wrote path text) (inr h) = inr h.0
