-- ===== src/Protocol/Success/Server.antt =====
-- The protocol from the server's side: what a server that serves does with each request. It is
-- written without reference to the client's code, over the requests as a receiver finds them.
use defensive_systems_open_u.Prelude.{
  ℕ, ◌^◌, ◌≤◌, ◌<◌, ◌≡◌, true, some, [], ◌∷◌, ◌++◌, length, take, drop, Bytes,
}
use defensive_systems_open_u.Buffer.{padded, little}
use defensive_systems_open_u.Checksum.Cksum.{cksum}
use defensive_systems_open_u.Crypto.Hex.{unhex}
use defensive_systems_open_u.Crypto.Rsa.{public_key_text}
use defensive_systems_open_u.FileHandler.{me_info_path, private_key_path}
use defensive_systems_open_u.Protocol.Connection.Reply.{reply_header}
use defensive_systems_open_u.Protocol.Message.Layout.{receive}
use defensive_systems_open_u.Runtime.Library.{Library}
use defensive_systems_open_u.Runtime.Os.{Os}

-- What the server knows of a connection.
pub data Session : Type 0 where
  fresh : Session
  -- the client's name is registered, with this id
  known : Bytes → Session
  -- this id was given out, or confirmed
  registered : Bytes → Session
  -- and this AES key was sent to it
  keyed : Bytes → Bytes → Session
  -- a file was received, and its checksum sent
  received : Bytes → Session
  -- the client accepted the checksum
  done : Session

module _ (O : Os) where
  -- A reply that arrives in two calls of `recv`: its code and payload, and the state after it.
  pub record Replied (fd : ℕ) (s : O.State) (Q : ℕ → Bytes → O.State → Type 0) : Type 0 where
    pub version : ℕ
    pub code : ℕ
    pub payload : Bytes
    pub between : O.State
    pub after : O.State
    pub code_fits : code < 2 ^ 16
    pub size_fits : length payload < 2 ^ 32
    pub header : O.recv fd 7 s ≡ (some (reply_header version code (length payload)), between)
    pub body : O.recv fd (length payload) between ≡ (some payload, after)
    pub good : Q code payload after

  -- A request that is sent, and replied to.
  pub record Exchange (fd : ℕ) (s : O.State) (b : Bytes) (Q : ℕ → Bytes → O.State → Type 0)
      : Type 0 where
    pub accepted : (O.send fd b s).0 ≡ true
    pub reply : Replied fd (O.send fd b s).1 Q

  -- The file can be opened, measured and read.
  pub record Holds (path contents : Bytes) (s : O.State) : Type 0 where
    pub opens : O.read_file path s ≡ some contents
    pub sized : O.tellg path s ≡ some (length contents)
    pub reads : O.read path (length contents) s ≡ some contents

-- A system with a server behind the socket `fd`, for a client of this name that uploads this file.
-- `In σ s` says that in the state `s` the server is in the session `σ` and owes no reply.
pub record IsServer (O : Os) (L : Library) (fd : ℕ) (name path contents : Bytes) : Type 1 where
  pub In : Session → O.State → Type 0
  -- the machine
  pub length-garbage : (n : ℕ) (s : O.State) → length (O.garbage n s) ≡ n
  pub file : (σ : Session) (s : O.State) → In σ s → Holds O path contents s
  pub after_entropy : (σ : Session) (s : O.State) → In σ s → In σ (O.entropy s).1
  pub saves_key :
      (σ : Session) (s : O.State) (text : Bytes)
      → In σ s
      → (s' : O.State) × (O.write_file private_key_path text s ≡ some s') × In σ s'
  pub saves_me :
      (σ : Session) (s : O.State) (text : Bytes)
      → In σ s
      → (s' : O.State) × (O.write_file me_info_path text s ≡ some s') × In σ s'
  -- registration: the server gives out an id of sixteen bytes
  pub registers :
      (s : O.State) (b : Bytes)
      → In fresh s
      → (receive b).code ≡ 1025
      → (receive b).payload ≡ padded 254 name ++ (0 ∷ [])
      → Exchange O fd s b
          (λ code payload s'. (code ≡ 2100) × (length payload ≡ 16) × In (registered payload) s')
  -- reconnection: a server that knows the name confirms the id, in front of a payload of its choice
  pub reconnects :
      (s : O.State) (b id : Bytes)
      → In (known id) s
      → (receive b).code ≡ 1027
      → (receive b).payload ≡ padded 254 name ++ (0 ∷ [])
      → Exchange O fd s b (λ code payload s'.
        (code ≡ 2105)
        × (length id ≡ 16)
        × (16 ≤ length payload)
        × (take 16 payload ≡ id)
        × In (registered id) s')
  -- a server that does not know the name turns the client away, and still registers it
  pub rejects :
      (s : O.State) (b : Bytes)
      → In fresh s
      → (receive b).code ≡ 1027
      → (receive b).payload ≡ padded 254 name ++ (0 ∷ [])
      → Exchange O fd s b (λ code payload s'. (code ≡ 2106) × In fresh s')
  -- the public key: the server draws an AES key and encrypts it for the owner of the key
  pub sends_key :
      (s : O.State) (b id : Bytes) (key : L.PrivateKey)
      → In (registered id) s
      → (receive b).code ≡ 1026
      → (receive b).client_id ≡ id
      → (receive b).payload
        ≡ padded 254 name
          ++ ((0 ∷ []) ++ padded (length (public_key_text L key)) (public_key_text L key))
      → Exchange O fd s b (λ code payload s'.
        (code ≡ 2102)
        × ((aes : Bytes) × (seed : ℕ) × (length aes ≡ 16)
            × (16 ≤ length payload)
            × (L.rsa_encrypt seed (L.public_of key) aes ≡ some (drop 16 payload))
            × In (keyed id aes) s'))
  -- a file: the server decrypts it and reports the checksum of what it has, at the payload's end
  pub reports :
      (s : O.State) (b id aes plain : Bytes)
      → In (keyed id aes) s
      → (receive b).code ≡ 1028
      → (receive b).client_id ≡ id
      → take 255 (drop 4 (receive b).payload) ≡ padded 255 path
      → L.cbc_decrypt aes
          (take 16 (unhex (drop 259 (receive b).payload)))
          (drop 16 (unhex (drop 259 (receive b).payload)))
        ≡ some plain
      → Exchange O fd s b (λ code payload s'.
        (code ≡ 2103)
        × ((front : Bytes) × (payload ≡ front ++ little 4 (cksum plain)) × In (received id) s'))
  -- the client's word that the checksums agree
  pub confirms :
      (s : O.State) (b id : Bytes)
      → In (received id) s
      → (receive b).code ≡ 1029
      → (receive b).client_id ≡ id
      → Exchange O fd s b (λ code payload s'. (code ≡ 2104) × In done s')
