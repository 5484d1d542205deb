-- ===== src/Main/Uploaded/Rules.antt =====
-- Rules to find the upload at the end of a run.
use defensive_systems_open_u.Prelude.{
  ◌+◌, ◌%◌, ◌^◌, ◌≡◌, refl, ap, ◌∙◌, Bool, true, false, some, length, Bytes, if◌then◌else◌,
}
use defensive_systems_open_u.Constants.{send_file}
use defensive_systems_open_u.Crypto.{encrypt_with_aes}
use defensive_systems_open_u.Protocol.Connection.{Handler}
use defensive_systems_open_u.Protocol.Payload.{create_file_payload_buffer}
use defensive_systems_open_u.Runtime.Library.{Library}
use defensive_systems_open_u.Protocol.Message.{Request}
use defensive_systems_open_u.Protocol.Upload.{handle_retry_send_file}
use defensive_systems_open_u.Runtime.Exec.{
  Any, Where, Where-Any, Result, ok, thrown, fault, pure, continue, ◌>>=◌,
}
use defensive_systems_open_u.Runtime.Os.{Os}
use defensive_systems_open_u.Runtime.World.{World, M}

-- An upload of the file at this path: at one moment the file has these contents, they are encrypted
-- under a key, and what comes out is the content of the request that the rounds send from then on.
pub record Upload (O : Os) (L : Library) (path : Bytes) : Type 0 where
  pub handler : Handler
  pub file : handler.file_path ≡ path
  pub id : Bytes
  pub reading : World O
  pub contents : Bytes
  pub opened : O.read_file path reading.os ≡ some contents
  pub aes_key : Bytes
  pub encrypted : Bytes
  pub start : World O
  pub sealed : encrypt_with_aes L contents aes_key reading ≡ (ok encrypted, start)
  pub memory : Bytes
  pub content : Request
  pub filled : create_file_payload_buffer path encrypted memory ≡ some content.payload
  pub code : content.code ≡ send_file
  pub size : content.payload_size ≡ (4 + 255 + length encrypted) % 2 ^ 32

-- The last thing that the action does from here is such an upload, whose result is its own.
pub record Ends {O : Os} (L : Library) (path : Bytes) (m : M O Bool) (w : World O) : Type 0 where
  pub upload : Upload O L path
  pub whole : m w ≡ handle_retry_send_file upload.handler upload.content 3 upload.id upload.start

module _ {O : Os} where
  -- A property of the result, where there is one.
  pub record Gives {A : Type 0} (m : M O A) (Q : A → Type 0) : Type 0 where
    pub gives : (w : World O) → Where Q (m w).0

  pub Gives-pure : {A : Type 0} (a : A) (Q : A → Type 0) → Q a → Gives (pure a) Q
  Gives-pure a Q q = record { gives = λ w. q }

  Gives-continue :
      {A B : Type 0} (f : A → M O B) (Q : B → Type 0) (r : Result A) (w : World O)
      → ((a : A) → Gives (f a) Q)
      → Where Q (continue f (r, w)).0
  Gives-continue f Q (ok a) w k = (k a).gives w
  Gives-continue f Q (thrown e) w k = tt
  Gives-continue f Q fault w k = tt

  pub Gives-after :
      {A B : Type 0} (m : M O A) (f : A → M O B) (Q : B → Type 0)
      → ((a : A) → Gives (f a) Q)
      → Gives (m >>= f) Q
  unfolding ◌>>=◌
  Gives-after m f Q k = record { gives = λ w. let (r, w') = m w in Gives-continue f Q r w' k }

  pub Gives-if :
      {A : Type 0} (b : Bool) (m n : M O A) (Q : A → Type 0)
      → Gives m Q
      → Gives n Q
      → Gives (if b then m else n) Q
  Gives-if true m n Q hm hn = hm
  Gives-if false m n Q hm hn = hn

-- Wherever the action returns true, it ends with the upload of this file.
pub record Uploads {O : Os} (L : Library) (path : Bytes) (m : M O Bool) : Type 0 where
  pub ends : (w : World O) → (m w).0 ≡ ok true → Ends L path m w

module _ {O : Os} {L : Library} {path : Bytes} where
  pub Uploads-false : Uploads {O = O} L path (pure false)
  Uploads-false = record { ends = λ w e. cc }

  pub Uploads-if :
      (b : Bool) (m n : M O Bool)
      → Uploads L path m
      → Uploads L path n
      → Uploads L path (if b then m else n)
  Uploads-if true m n hm hn = hm
  Uploads-if false m n hm hn = hn

  pub Ends-same : (n m : M O Bool) {w v : World O} → n w ≡ m v → Ends L path m v → Ends L path n w
  Ends-same n m same u = record { upload = u.upload; whole = same ∙ u.whole }

  Ends-continue :
      {A : Type 0} (f : A → M O Bool) (Q : A → Type 0) (r : Result A) (w v : World O) (m : M O Bool)
      → m w ≡ continue f (r, v)
      → Where Q r
      → ((a : A) → Q a → Uploads L path (f a))
      → (continue f (r, v)).0 ≡ ok true
      → Ends L path m w
  Ends-continue f Q (ok a) w v m same q k e = Ends-same m (f a) same ((k a q).ends v e)
  Ends-continue f Q (thrown x) w v m same q k e = cc
  Ends-continue f Q fault w v m same q k e = cc

  pub Uploads-bind :
      {A : Type 0} (m : M O A) (f : A → M O Bool) (Q : A → Type 0)
      → Gives m Q
      → ((a : A) → Q a → Uploads L path (f a))
      → Uploads L path (m >>= f)
  unfolding ◌>>=◌
  Uploads-bind m f Q g k = record {
    ends = λ w e. let (r, v) = m w in Ends-continue f Q r w v (m >>= f) refl (g.gives w) k e;
  }

  pub Uploads-after :
      {A : Type 0} (m : M O A) (f : A → M O Bool)
      → ((a : A) → Uploads L path (f a))
      → Uploads L path (m >>= f)
  Uploads-after m f k =
      Uploads-bind m f Any (record { gives = λ w. Where-Any (m w).0 }) (λ a _. k a)

  -- A statement whose result and world are looked at, in front of the rest.
  pub Ends-bind :
      {A : Type 0} (m : M O A) (f : A → M O Bool) (w : World O)
      → ((m >>= f) w).0 ≡ ok true
      → ((a : A) (v : World O) → m w ≡ (ok a, v) → (f a v).0 ≡ ok true → Ends L path (f a) v)
      → Ends L path (m >>= f) w
  unfolding ◌>>=◌
  Ends-bind {A} m f w e k = let (r, v) = m w in at_result r v refl e
    where
      at_result :
          (r : Result A) (v : World O)
          → ◌≡◌ {A = Result A × World O} (m w) (r, v)
          → (continue f (r, v)).0 ≡ ok true
          → Ends L path (λ s. continue f (m s)) w
      at_result (ok a) v same e = Ends-same _ (f a) (ap (continue f) same) (k a v same e)
      at_result (thrown x) v same e = cc
      at_result fault v same e = cc

pub ruleset uploads_rules = (Uploads-false, Uploads-if, Uploads-after)

pub ruleset gives_rules = (Gives-pure, Gives-after, Gives-if)
