-- ===== src/FileHandler.antt =====
-- FileHandler.cpp and FileHandler.h.
pub mod Number
pub mod Lines
pub mod RoundTrip
use defensive_systems_open_u.Prelude.{
  ℕ, suc, ◌+◌, Option, none, some, List, [], ◌∷◌, ◌++◌, length, take, drop, Bytes, codes, hex,
  getline, newline, ltb, ◌==◌, if◌then◌else◌,
}
use defensive_systems_open_u.Prelude.Int.{ℤ}
use defensive_systems_open_u.Constants.{
  clients_base_path, private_key_file, me_info_file_name, transfer_info_file_name,
}
use defensive_systems_open_u.Buffer.{read_at}
use defensive_systems_open_u.FileHandler.Number.{Parsed, stoi, value, no_conversion, beyond_int}
use defensive_systems_open_u.Runtime.Os.{Os}
use defensive_systems_open_u.Runtime.Library.{Library}
use defensive_systems_open_u.Runtime.Exec.{
  runtime_error, invalid_argument, out_of_range, ok, pure, throw, gets, in_bounds, continue, ◌>>=◌,
  ◌>>◌,
}
use defensive_systems_open_u.Runtime.World.{World, M, wrote, note}

pub record MeInfo : Type 0 where
  pub name : Bytes
  pub uuid : Bytes
  pub base64_key : Bytes

pub record TransferInfo : Type 0 where
  pub ip_address : Bytes
  pub port : ℤ
  pub name : Bytes
  pub file_path : Bytes

abbrev pub me_info_path : Bytes
me_info_path = clients_base_path ++ me_info_file_name

abbrev pub transfer_info_path : Bytes
transfer_info_path = clients_base_path ++ transfer_info_file_name

abbrev pub private_key_path : Bytes
private_key_path = clients_base_path ++ private_key_file

-- `find(':')`: the text before the first colon and the text behind it.
unfoldable pub split_at_colon : Bytes → Option (Bytes × Bytes)
split_at_colon [] = none
split_at_colon (c ∷ s) =
    let rest = split_at_colon s in
    if c == b':'
    then some ([], s)
    else elim rest [ none ↦ none | some (before, after) ↦ some (c ∷ before, after) ]

-- What three calls of `getline` take from a text.
unfoldable pub three_lines : Bytes → Bytes × Bytes × Bytes
unfolding getline
three_lines s =
    let (first, r) = getline s in
    let (second, r') = getline r in let (third, r'') = getline r' in (first, second, third)

unfoldable pub parse_me_info : Bytes → MeInfo
unfolding three_lines
parse_me_info s =
    let (first, second, third) = three_lines s in
    record { name = first; uuid = second; base64_key = third }

-- `erase(remove(…, '\n'))`
unfoldable pub remove_newlines : Bytes → Bytes
remove_newlines [] = []
remove_newlines (c ∷ s) = let rest = remove_newlines s in if c == newline then rest else c ∷ rest

-- The text of `me.info`.
unfoldable pub me_info_text : Bytes → Bytes → Bytes → Bytes
unfolding hex remove_newlines
me_info_text client_name id encoded =
    client_name ++ (newline ∷ (hex id ++ (newline ∷ remove_newlines encoded)))

module _ {O : Os} where
  -- `openFile`: the stream, or an exception.
  unfoldable pub or_unable : {A : Type 0} → Bytes → Option A → M O A
  or_unable path none = throw runtime_error (codes "Unable to open " ++ path)
  or_unable path (some a) = pure a

  -- `openFile` for reading, together with the contents that the stream will give.
  unfoldable pub open_in : Bytes → M O Bytes
  unfolding or_unable
  open_in path = gets (λ w. O.read_file path w.os) >>= or_unable path

  unfoldable pub read_me_info : M O MeInfo
  unfolding open_in parse_me_info
  read_me_info = do text ← open_in me_info_path; pure (parse_me_info text)

  -- The two exceptions of `std::stoi`.
  unfoldable pub port_or_throw : Parsed → M O ℤ
  port_or_throw (value n) = pure n
  port_or_throw no_conversion = throw invalid_argument (codes "stoi")
  port_or_throw beyond_int = throw out_of_range (codes "stoi")

  -- The address and the port in the first line, if it has a colon.
  unfoldable pub split_info : Bytes → Bytes → Option (Bytes × Bytes) → M O TransferInfo
  unfolding stoi port_or_throw
  split_info name file_path none =
      throw runtime_error (codes "Invalid format for IP and port in " ++ transfer_info_path)
  split_info name file_path (some (address, port_text)) = do
    port ← port_or_throw (stoi port_text)
    pure (record { ip_address = address; port = port; name = name; file_path = file_path })

  -- The checks on the three lines, the name's length first.
  unfoldable pub checked_info : Bytes × Bytes × Bytes → M O TransferInfo
  unfolding split_at_colon split_info
  checked_info (ip_port, name, file_path) =
      if ltb 254 (length name)
      then throw runtime_error (codes "Invalid name, name length must be <= 254 chars.")
      else split_info name file_path (split_at_colon ip_port)

  unfoldable pub read_transfer_info : M O TransferInfo
  unfolding open_in three_lines checked_info
  read_transfer_info = do text ← open_in transfer_info_path; checked_info (three_lines text)

  abbrev pub written : Bytes → Bytes → World O → Option O.State → Option (Unit {0}) × World O
  written path content w none = (none, w)
  written path content w (some os') = (some tt, note (wrote path content) (record w { os = os' }))

  -- Opening a file for writing, `<<` and `close`: none if it cannot be opened.
  unfoldable pub call_write : Bytes → Bytes → M O (Option (Unit {0}))
  call_write path content w =
      let (done, w') = written path content w (O.write_file path content w.os) in (ok done, w')

  unfoldable pub write_to_file : Bytes → Bytes → M O (Unit {0})
  unfolding call_write or_unable
  write_to_file path content = call_write path content >>= or_unable path

  -- The sixteen bytes at `clientId` are read one by one.
  unfoldable pub save_me_info : Library → Bytes → Bytes → Bytes → M O (Unit {0})
  unfolding write_to_file me_info_text read_at
  save_me_info L client_name client_id private_key = do
    id ← in_bounds (read_at 0 16 client_id)
    write_to_file me_info_path (me_info_text client_name id (L.base64_encode private_key))

  unfoldable pub save_private_rsa_key : Bytes → M O (Unit {0})
  unfolding write_to_file
  save_private_rsa_key private_key = write_to_file private_key_path private_key

  unfoldable pub read_file_contents : Bytes → M O Bytes
  unfolding open_in
  read_file_contents path = open_in path
