-- ===== src/Tests/Runs.antt =====
-- Whole runs of the client against the server that does its part.
use defensive_systems_open_u.Prelude.{
  ℕ, inr, ◌<◌, ◌≡◌, refl, ap, arith, true, false, List, [], ◌∷◌, ◌++◌, length-replicate, Bytes,
  codes,
}
use defensive_systems_open_u.FileHandler.{
  me_info_path, parse_me_info, read_me_info, read_transfer_info,
}
use defensive_systems_open_u.Main.{handle_client}
use defensive_systems_open_u.Main.Uploaded.{handle_client-Matched}
use defensive_systems_open_u.Main.Uploaded.Rules.{Upload}
use defensive_systems_open_u.Protocol.Upload.{handle_retry_send_file}
use defensive_systems_open_u.Protocol.Upload.Rounds.{Matched, rounds}
use defensive_systems_open_u.Protocol.Events.Client.{
  Allowed, Conversation, known_name, handle_client-IsAllowed, handle_client-Converses,
}
use defensive_systems_open_u.Protocol.Success.Client.{
  Reaches, handle_client-first, handle_client-later,
}
use defensive_systems_open_u.Protocol.Success.Server.{Session}
use defensive_systems_open_u.Runtime.Exec.{ok, ◌>>=◌}
use defensive_systems_open_u.Runtime.Trace.{Adds}
use defensive_systems_open_u.Runtime.World.{World, Event}
use defensive_systems_open_u.Tests.{example_text, id}
use defensive_systems_open_u.Tests.Parts.{toy-IsLawful}
use defensive_systems_open_u.Tests.Script.{toy}
use defensive_systems_open_u.Tests.Server.{peer, info, serving, start}

first_info : read_transfer_info (start [] false) ≡ (ok info, start [] false)
unfolding read_transfer_info ◌>>=◌
first_info = refl

first_reaches : Reaches peer toy info info.name example_text Session.fresh (start [] false).os
unfolding serving
first_reaches = record {
  fd = 3;
  server = serving info.name;
  created = refl;
  connected = refl;
  greets = record { nothing = refl; held = refl; knowledge = refl };
}

handle_client-first_example :
    ((handle_client toy (start [] false)).0 ≡ ok true)
    × first_reaches.server.In Session.done (handle_client toy (start [] false)).1.os
handle_client-first_example =
    handle_client-first toy-IsLawful example_text (ground arith) (omega arith) info (start [] false)
      first_info refl first_reaches

abbrev saved_me : Bytes
saved_me = codes "Erez" ++ (10 ∷ (codes "00" ++ (10 ∷ codes "KEY")))

abbrev later_run : World peer
later_run = start ((me_info_path, saved_me) ∷ []) true

later_info : read_transfer_info later_run ≡ (ok info, later_run)
unfolding read_transfer_info ◌>>=◌
later_info = refl

later_reaches :
    Reaches peer toy info (parse_me_info saved_me).name example_text (Session.known id) later_run.os
unfolding serving
later_reaches = record {
  fd = 3;
  server = serving (parse_me_info saved_me).name;
  created = refl;
  connected = refl;
  greets = record { nothing = refl; held = refl; knowledge = (refl, refl) };
}

handle_client-later_example :
    ((handle_client toy later_run).0 ≡ ok true)
    × later_reaches.server.In Session.done (handle_client toy later_run).1.os
handle_client-later_example =
    handle_client-later toy-IsLawful example_text (ground arith) (omega arith) info later_run
      saved_me (Session.known id) later_info refl (inr (id, refl)) later_reaches

handle_client-IsAllowed_example :
    Adds (Allowed peer info) (start [] false).trace (handle_client toy (start [] false)).1.trace
handle_client-IsAllowed_example =
    handle_client-IsAllowed toy info (λ n s. length-replicate n 0xcc) (start [] false)
      (ap (λ r. r.0) first_info)

-- A client that the server knows, with a `me.info`.
handle_client-Converses_example :
    (mid : List Event) × Conversation toy peer info
      (known_name (read_me_info (read_transfer_info later_run).1).0)
      later_run.trace
      mid
    × Conversation toy peer info info.name mid (handle_client toy later_run).1.trace
handle_client-Converses_example =
    handle_client-Converses toy info (λ n s. length-replicate n 0xcc) later_run
      (ap (λ r. r.0) later_info)

handle_client-Matched_example :
    (u : Upload peer toy info.file_path) × (k : ℕ) × (handle_client toy (start [] false)
      ≡ handle_retry_send_file u.handler u.content 3 u.id u.start)
    × (k < 3)
    × Matched u.handler u.content u.id (rounds u.handler u.content u.id k u.start)
handle_client-Matched_example =
    handle_client-Matched toy info (start [] false) (ap (λ r. r.0) first_info)
      (handle_client-first toy-IsLawful example_text (ground arith) (omega arith) info
        (start [] false) first_info refl first_reaches).0
