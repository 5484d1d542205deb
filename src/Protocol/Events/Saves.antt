-- ===== src/Protocol/Events/Saves.antt =====
-- What the two saves of FileHandler.cpp show to the outside.
use defensive_systems_open_u.Prelude.{◌≡◌, Option, none, some, take, Bytes}
use defensive_systems_open_u.Buffer.{read_at}
use defensive_systems_open_u.Buffer.Laws.{read_at-eq-some}
use defensive_systems_open_u.FileHandler.{
  me_info_path, private_key_path, me_info_text, call_write, written, write_to_file, save_me_info,
  save_private_rsa_key,
}
use defensive_systems_open_u.Protocol.Events.Rules.{Makes, Makes-then, Makes-in_bounds, Makes-Quiet}
use defensive_systems_open_u.Runtime.Exec.{Any}
use defensive_systems_open_u.Protocol.Quiet.{IsPlain}
use defensive_systems_open_u.Protocol.Quiet.Steps
use defensive_systems_open_u.Runtime.Library.{Library}
use defensive_systems_open_u.Runtime.Os.{Os}
use defensive_systems_open_u.Runtime.Trace.{Adds, Adds-refl, Adds-one}
use defensive_systems_open_u.Runtime.World.{World, Event, wrote}

module _ {O : Os} (P : Event → Type 0) (plain : (e : Event) → IsPlain e → P e) where
  Adds-written :
      (path text : Bytes) (w : World O) (o : Option O.State)
      → P (wrote path text)
      → Adds P w.trace (written {O = O} path text w o).1.trace
  Adds-written path text w none h = Adds-refl w.trace
  Adds-written path text w (some os') h = Adds-one w.trace (wrote path text) h

  call_write-Makes :
      (path text : Bytes) → P (wrote path text) → Makes {O = O} P (call_write path text) Any
  unfolding call_write
  call_write-Makes path text h = record {
    run = λ w. let r = O.write_file path text w.os in (Adds-written path text w r h, tt);
  }

  write_to_file-Makes :
      (path text : Bytes) → P (wrote path text) → Makes {O = O} P (write_to_file path text) Any
  unfolding write_to_file
  write_to_file-Makes path text h =
      Makes-then P _ _ _ (call_write-Makes path text h)
        λ o. Makes-Quiet P plain _ (Steps.Quiet-or_unable path o)

  pub save_private_rsa_key-Makes :
      (key : Bytes)
      → P (wrote private_key_path key)
      → Makes {O = O} P (save_private_rsa_key key) Any
  unfolding save_private_rsa_key
  save_private_rsa_key-Makes key h = write_to_file-Makes _ key h

  -- The id that is written is the first sixteen bytes of the buffer.
  pub save_me_info-Makes :
      (L : Library) (name id key : Bytes)
      → P (wrote me_info_path (me_info_text name (take 16 id) (L.base64_encode key)))
      → Makes {O = O} P (save_me_info L name id key) Any
  unfolding save_me_info
  save_me_info-Makes L name id key h = Makes-in_bounds P (read_at 0 16 id) _ _ λ bytes found.
      let same : bytes ≡ take 16 id = (read_at-eq-some 0 16 id found).1 in
      write_to_file-Makes _ _ (rw same h)
