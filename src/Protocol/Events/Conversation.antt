-- ===== src/Protocol/Events/Conversation.antt =====
-- A conversation with the server: the client is nobody until the server has named it, and keeps one
-- name, id and private key from then on.
use defensive_systems_open_u.Prelude.{Bool, true, false, List, Bytes, if◌then◌else◌}
use defensive_systems_open_u.Protocol.Events.{
  IsAllowed, IsAnonymous, IsIdentified, plain-IsAnonymous, IsAnonymous-IsAllowed,
  IsIdentified-IsAllowed,
}
use defensive_systems_open_u.Protocol.Events.Rules.{Makes, Makes-Quiet}
use defensive_systems_open_u.Runtime.Exec.{Any, Where, Result, ok, thrown, fault, continue, ◌>>=◌}
use defensive_systems_open_u.Protocol.Quiet.{Quiet}
use defensive_systems_open_u.Runtime.Library.{Library}
use defensive_systems_open_u.Runtime.Os.{Os}
use defensive_systems_open_u.Runtime.Trace.{Adds, Adds-refl, Adds-trans, Adds-weaken}
use defensive_systems_open_u.Runtime.World.{World, M, Event}

module _ (L : Library) (port address name : Bytes) where
  -- From the events `t` to `t'`: at first none that shows who the client is, then only those of a
  -- client with this name, an id that satisfies `Q`, and a private key.
  pub record Converses (Q : Bytes → Type 0) (t t' : List Event) : Type 0 where
    pub id : Bytes
    pub known : Q id
    pub key : Bytes
    pub middle : List Event
    pub before : Adds (IsAnonymous port address) t middle
    pub after : Adds (IsIdentified L name id key) middle t'

  -- However it ends, the action holds such a conversation.
  pub record Speaks {O : Os} {A : Type 0} (m : M O A) (Q : Bytes → Type 0) : Type 0 where
    pub run : (w : World O) → Converses Q w.trace (m w).1.trace

module _ {L : Library} {port address name : Bytes} where
  pub Converses-Adds :
      {Q : Bytes → Type 0} {t t' : List Event}
      → Converses L port address name Q t t'
      → Adds (IsAllowed port address) t t'
  Converses-Adds c =
      Adds-trans (Adds-weaken (IsAnonymous-IsAllowed port address) c.before)
        (Adds-weaken (IsIdentified-IsAllowed L port address name c.id c.key) c.after)

  -- What comes before a conversation, as part of it.
  pub Converses-before :
      {Q : Bytes → Type 0} {t u v : List Event}
      → Adds (IsAnonymous port address) t u
      → Converses L port address name Q u v
      → Converses L port address name Q t v
  Converses-before a c = record {
    id = c.id;
    known = c.known;
    key = c.key;
    middle = c.middle;
    before = Adds-trans a c.before;
    after = c.after;
  }

  Converses-after :
      {Q : Bytes → Type 0} {t u v : List Event}
      → (c : Converses L port address name Q t u) → Adds (IsIdentified L name c.id c.key) u v
      → Converses L port address name Q t v
  Converses-after c a = record {
    id = c.id;
    known = c.known;
    key = c.key;
    middle = c.middle;
    before = c.before;
    after = Adds-trans c.after a;
  }

  -- Nobody has been named yet.
  pub Converses-anonymous :
      {Q : Bytes → Type 0} {t u : List Event} (id : Bytes)
      → Q id
      → Adds (IsAnonymous port address) t u
      → Converses L port address name Q t u
  Converses-anonymous {u} id q a = record {
    id = id;
    known = q;
    key = id;
    middle = u;
    before = a;
    after = Adds-refl u;
  }

  module _ {O : Os} where
    pub Speaks-forget :
        {A : Type 0} (m : M O A) (Q : Bytes → Type 0)
        → Speaks L port address name m Q
        → Speaks L port address name m Any
    Speaks-forget m Q s = record {
      run = λ w.
          let c = s.run w in
          record {
            id = c.id;
            known = tt;
            key = c.key;
            middle = c.middle;
            before = c.before;
            after = c.after;
          };
    }

    pub Speaks-if :
        {A : Type 0} (b : Bool) (m n : M O A) (Q : Bytes → Type 0)
        → Speaks L port address name m Q
        → Speaks L port address name n Q
        → Speaks L port address name (if b then m else n) Q
    Speaks-if true m n Q hm hn = hm
    Speaks-if false m n Q hm hn = hn

    -- The client speaks for one identity from the start.
    pub Speaks-identified :
        {A : Type 0} (id key : Bytes) (m : M O A) (Q : Bytes → Type 0)
        → Q id
        → Makes {O = O} (IsIdentified L name id key) m Any
        → Speaks L port address name m Q
    Speaks-identified id key m Q q hm = record {
      run = λ w. record {
        id = id;
        known = q;
        key = key;
        middle = w.trace;
        before = Adds-refl w.trace;
        after = (hm.run w).0;
      };
    }

    Speaks-rest :
        {A B : Type 0} (f : A → M O B) (r : Result A) (w : World O) (Q : Bytes → Type 0)
        {t : List Event}
        → (c : Converses L port address name Q t w.trace)
        → ((a : A) → Makes {O = O} (IsIdentified L name c.id c.key) (f a) Any)
        → Converses L port address name Q t (continue f (r, w)).1.trace
    Speaks-rest f (ok a) w Q c k = Converses-after c ((k a).run w).0
    Speaks-rest f (thrown e) w Q c k = c
    Speaks-rest f fault w Q c k = c

    -- A conversation, and more from the same client.
    pub Speaks-bind :
        {A B : Type 0} (m : M O A) (f : A → M O B) (Q : Bytes → Type 0)
        → Speaks L port address name m Q
        → ((id key : Bytes) → Q id → (a : A) → Makes {O = O} (IsIdentified L name id key) (f a) Any)
        → Speaks L port address name (m >>= f) Q
    unfolding ◌>>=◌
    Speaks-bind m f Q hm hf = record {
      run = λ w.
          let (r, w') = m w in let c = hm.run w in Speaks-rest f r w' Q c (hf c.id c.key c.known);
    }

    module _ (Q : Bytes → Type 0) (own : Bytes) (q : Q own) where
      pub Speaks-anonymous :
          {A : Type 0} (m : M O A)
          → Makes {O = O} (IsAnonymous port address) m Any
          → Speaks L port address name m Q
      Speaks-anonymous m hm = record { run = λ w. Converses-anonymous own q (hm.run w).0 }

      pub Speaks-continue :
          {A B : Type 0} (R : A → Type 0) (f : A → M O B) (r : Result A) (w : World O)
          {t : List Event}
          → Adds (IsAnonymous port address) t w.trace
          → Where R r
          → ((a : A) → R a → Speaks L port address name (f a) Q)
          → Converses L port address name Q t (continue f (r, w)).1.trace
      Speaks-continue R f (ok a) w before h k = Converses-before before ((k a h).run w)
      Speaks-continue R f (thrown e) w before h k = Converses-anonymous own q before
      Speaks-continue R f fault w before h k = Converses-anonymous own q before

      -- A statement of somebody unnamed, in front of a conversation.
      pub Speaks-then :
          {A B : Type 0} (R : A → Type 0) (m : M O A) (f : A → M O B)
          → Makes {O = O} (IsAnonymous port address) m R
          → ((a : A) → R a → Speaks L port address name (f a) Q)
          → Speaks L port address name (m >>= f) Q
      unfolding ◌>>=◌
      Speaks-then R m f hm hf = record {
        run = λ w.
            let (r, w') = m w in let (before, h) = hm.run w in Speaks-continue R f r w' before h hf;
      }

      -- A quiet statement, in front of a conversation.
      pub Speaks-after :
          {A B : Type 0} (m : M O A) (f : A → M O B)
          → Quiet m
          → ((a : A) → Speaks L port address name (f a) Q)
          → Speaks L port address name (m >>= f) Q
      Speaks-after m f hm hf =
          Speaks-then Any m f
            (Makes-Quiet (IsAnonymous port address) (plain-IsAnonymous port address) m hm)
            (λ a _. hf a)

      pub Speaks-Quiet : {A : Type 0} (m : M O A) → Quiet m → Speaks L port address name m Q
      Speaks-Quiet m hm =
          Speaks-anonymous m
            (Makes-Quiet (IsAnonymous port address) (plain-IsAnonymous port address) m hm)
