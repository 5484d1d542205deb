-- ===== src/FileHandler/RoundTrip.antt =====
-- FileHandler.cpp: what is read back from `me.info` and `transfer.info`.
use defensive_systems_open_u.Prelude.{
  ℕ, ◌^◌, ◌≤◌, ◌<◌, ◌≡◌, refl, ap, ◌∙◌, arith, Option, some, ◌∷◌, ◌++◌, length, Bytes, IsBytes,
  codes, hex, newline, decimal,
}
use defensive_systems_open_u.Prelude.Int.{pos}
use defensive_systems_open_u.Buffer.Laws.{read_at_fits, take_all}
use defensive_systems_open_u.FileHandler.{
  open_in, write_to_file, me_info_path, transfer_info_path, split_at_colon, three_lines,
  parse_me_info, remove_newlines, me_info_text, read_me_info, save_me_info, checked_info,
  split_info, read_transfer_info,
}
use defensive_systems_open_u.FileHandler.Number.Decimal.{stoi-decimal}
use defensive_systems_open_u.Runtime.Library.{Library}
use defensive_systems_open_u.Runtime.Os.{Os}
use defensive_systems_open_u.Runtime.Exec.{ok, thrown, continue, pure, runtime_error, ◌>>=◌}
use defensive_systems_open_u.Runtime.World.{World, note, wrote}
use defensive_systems_open_u.FileHandler.Lines.{
  Lacks, three_lines_lem, hex-Lacks, remove_newlines-Lacks, split_at_colon-append,
}

parse_me_info-me_info_text :
    (name id encoded : Bytes)
    → Lacks newline name
    → IsBytes id
    → parse_me_info (me_info_text name id encoded)
      ≡ record { name = name; uuid = hex id; base64_key = remove_newlines encoded }
unfolding parse_me_info me_info_text
parse_me_info-me_info_text name id encoded h hi = λ i.
    let t =
      three_lines_lem name (hex id) (remove_newlines encoded) h (hex-Lacks id hi)
        (remove_newlines-Lacks encoded) i in
    record { name = t.0; uuid = t.1; base64_key = t.2 }

module _ {O : Os} (w : World O) where
  pub open_in_lem :
      (path : Bytes) {text : Bytes}
      → O.read_file path w.os ≡ some text
      → open_in path w ≡ (ok text, w)
  unfolding open_in ◌>>=◌
  open_in_lem path e = rw e refl

  pub write_to_file_lem :
      (path content : Bytes) {s : O.State}
      → O.write_file path content w.os ≡ some s
      → write_to_file path content w ≡ (ok tt, note (wrote path content) (record w { os = s }))
  unfolding write_to_file ◌>>=◌
  write_to_file_lem path content e = rw e refl

  read_me_info_lem :
      {text : Bytes}
      → O.read_file me_info_path w.os ≡ some text
      → (read_me_info w).0 ≡ ok (parse_me_info text)
  unfolding read_me_info ◌>>=◌
  read_me_info_lem e =
      ap (λ p. (continue (λ t. pure (parse_me_info t)) p).0) (open_in_lem me_info_path e)

  pub save_me_info_lem :
      (L : Library) (name id key : Bytes) {s : O.State}
      → length id ≡ 16
      → O.write_file me_info_path (me_info_text name id (L.base64_encode key)) w.os ≡ some s
      → save_me_info L name id key w ≡ (
        ok tt,
        note
            (wrote me_info_path (me_info_text name id (L.base64_encode key)))
            (record w { os = s }),
      )
  unfolding save_me_info ◌>>=◌
  save_me_info_lem L name id key size e =
      rw (read_at_fits 0 16 id (omega arith), take_all id 16 size) (write_to_file_lem _ _ e)

module _ {O : Os} (L : Library) (w : World O) where
  -- Where `me.info` can be written and gives back what was written, `readMeInfo` finds what
  -- `saveMeInfo` was given: the name, if it is one line, the sixteen bytes of the id as hexadecimal
  -- digits, and the encoded key on one line.
  pub save_me_info-read_me_info :
      (name id key : Bytes) (s : O.State)
      → Lacks newline name
      → length id ≡ 16
      → IsBytes id
      → O.write_file me_info_path (me_info_text name id (L.base64_encode key)) w.os ≡ some s
      → O.read_file me_info_path s ≡ some (me_info_text name id (L.base64_encode key))
      → ((save_me_info L name id key w).0 ≡ ok tt)
        × ((read_me_info (save_me_info L name id key w).1).0
            ≡ ok (record {
              name = name;
              uuid = hex id;
              base64_key = remove_newlines (L.base64_encode key);
            }))
  save_me_info-read_me_info name id key s one_line size bytes writes reads =
      rw (save_me_info_lem w L name id key size writes) (
        refl,
        read_me_info_lem (note (wrote me_info_path _) (record w { os = s })) reads
            ∙ ap ok (parse_me_info-me_info_text name id (L.base64_encode key) one_line bytes),
      )

module _ {O : Os} (w : World O) where
  split_info_lem :
      (name path address : Bytes) (port : ℕ)
      → port < 2 ^ 31
      → split_info name path (some (address, decimal port)) w
        ≡ (ok (record { ip_address = address; port = pos port; name = name; file_path = path }), w)
  unfolding split_info ◌>>=◌
  split_info_lem name path address port fits = rw (stoi-decimal port fits) refl

  checked_info_lem :
      (first name path : Bytes) {parts : Option (Bytes × Bytes)}
      → length name ≤ 254
      → split_at_colon first ≡ parts
      → checked_info (first, name, path) w ≡ split_info name path parts w
  unfolding checked_info
  checked_info_lem first name path short e = rw e (ground arith)

  checked_info_long :
      (first name path : Bytes)
      → 254 < length name
      → checked_info (first, name, path) w ≡ (
        thrown (record {
          kind = runtime_error;
          what = codes "Invalid name, name length must be <= 254 chars.";
        }),
        w,
      )
  unfolding checked_info
  checked_info_long first name path long = ground arith

  read_transfer_info-three_lines :
      (first second third : Bytes)
      → O.read_file transfer_info_path w.os
        ≡ some (first ++ (newline ∷ (second ++ (newline ∷ third))))
      → Lacks newline first
      → Lacks newline second
      → Lacks newline third
      → read_transfer_info w ≡ checked_info (first, second, third) w
  unfolding read_transfer_info ◌>>=◌
  read_transfer_info-three_lines first second third reads h1 h2 h3 =
      ap (continue (λ t. checked_info (three_lines t))) (open_in_lem w transfer_info_path reads)
      ∙ ap (λ t. checked_info t w) (three_lines_lem first second third h1 h2 h3)

  -- A `transfer.info` of three lines, an address without a colon and a port that an `int` holds with a colon
  -- between them, a name of at most 254 bytes, and a path, is read as it was written.
  pub read_transfer_info_lem :
      (address name path : Bytes) (port : ℕ)
      → O.read_file transfer_info_path w.os
        ≡ some ((address ++ (b':' ∷ decimal port)) ++ (newline ∷ (name ++ (newline ∷ path))))
      → Lacks b':' address
      → Lacks newline (address ++ (b':' ∷ decimal port))
      → Lacks newline name
      → Lacks newline path
      → length name ≤ 254
      → port < 2 ^ 31
      → read_transfer_info w
        ≡ (ok (record { ip_address = address; port = pos port; name = name; file_path = path }), w)
  read_transfer_info_lem address name path port reads colon h1 h2 h3 short fits =
      read_transfer_info-three_lines (address ++ (b':' ∷ decimal port)) name path reads h1 h2 h3
      ∙ checked_info_lem _ name path short (split_at_colon-append address (decimal port) colon)
      ∙ split_info_lem name path address port fits

  -- A name of more than 254 bytes in the second line of three is an error, whatever the other two say.
  pub read_transfer_info_name :
      (first name third : Bytes)
      → O.read_file transfer_info_path w.os
        ≡ some (first ++ (newline ∷ (name ++ (newline ∷ third))))
      → Lacks newline first
      → Lacks newline name
      → Lacks newline third
      → 254 < length name
      → read_transfer_info w ≡ (
        thrown (record {
          kind = runtime_error;
          what = codes "Invalid name, name length must be <= 254 chars.";
        }),
        w,
      )
  read_transfer_info_name first name third reads h1 h2 h3 long =
      read_transfer_info-three_lines first name third reads h1 h2 h3
      ∙ checked_info_long first name third long
