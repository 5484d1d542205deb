-- ===== src/Main.antt =====
-- main.cpp.
pub mod Total
pub mod Uploaded
use defensive_systems_open_u.Prelude.{ℕ, Bool, false, [], ◌∷◌, ◌++◌, codes, newline, if◌then◌else◌}
use defensive_systems_open_u.FileHandler.{TransferInfo, read_me_info, read_transfer_info}
use defensive_systems_open_u.Logger
use defensive_systems_open_u.Logger.{Logger, info_level, new_logger}
use defensive_systems_open_u.Protocol.Connection.{new_handler, handle_connection}
use defensive_systems_open_u.Protocol.Flow.{handle_registration, handle_reconnection}
use defensive_systems_open_u.Runtime.Os.{Os}
use defensive_systems_open_u.Runtime.Library.{Library}
use defensive_systems_open_u.Runtime.Exec.{
  Exception, is_runtime_error, Result, ok, thrown, fault, pure, ◌>>=◌, ◌>>◌,
}
use defensive_systems_open_u.Runtime.World.{World, M, cerr, print}

-- `Logger logger("Main")`
abbrev pub logger : Logger
logger = new_logger (codes "Main") info_level

module _ {O : Os} {A : Type 0} where
  abbrev pub handle_runtime_error : M O A → Result A × World O → Result A × World O
  handle_runtime_error handler (ok a, w) = (ok a, w)
  handle_runtime_error handler (thrown e, w) =
      if is_runtime_error e.kind then handler w else (thrown e, w)
  handle_runtime_error handler (fault, w) = (fault, w)

  -- `try … catch (std::runtime_error &)`: other exceptions pass, and so does undefined behaviour.
  unfoldable pub catch_runtime_error : M O A → M O A → M O A
  catch_runtime_error body handler w = handle_runtime_error handler (body w)

  abbrev pub handle_exception : (Exception → M O A) → Result A × World O → Result A × World O
  handle_exception handler (ok a, w) = (ok a, w)
  handle_exception handler (thrown e, w) = handler e w
  handle_exception handler (fault, w) = (fault, w)

  -- `try … catch (const std::exception &)`
  unfoldable pub catch_exception : M O A → (Exception → M O A) → M O A
  catch_exception body handler w = handle_exception handler (body w)

module _ {O : Os} (L : Library) where
  -- The `try` block.
  unfoldable pub reconnect_known : TransferInfo → M O Bool
  unfolding read_me_info new_handler handle_connection handle_reconnection
  reconnect_known t = do
    me ← read_me_info
    (h, connected) ← handle_connection (new_handler t.ip_address t.port me.name t.file_path)
    if connected then handle_reconnection L h else pure false

  -- The `catch` block.
  unfoldable pub register_new : TransferInfo → M O Bool
  unfolding new_handler handle_connection handle_registration
  register_new t = do
    (h, connected) ← handle_connection (new_handler t.ip_address t.port t.name t.file_path)
    if connected then handle_registration L h else pure false

  unfoldable pub handle_client : M O Bool
  unfolding read_transfer_info reconnect_known register_new catch_runtime_error
  handle_client = do
    t ← read_transfer_info
    catch_runtime_error (reconnect_known t) (register_new t)

  -- The exit status.
  unfoldable pub main : M O ℕ
  unfolding handle_client catch_exception Logger.info Logger.error
  main =
      catch_exception
        (do
          status ← handle_client
          if status
              then Logger.info logger
                  (codes "Successfully finished client operation. Shutting down...")
              else Logger.error logger
                  (codes "Failed while attempting to handle client operation. Shutting down..."))
        (λ e. do
          Logger.error logger
              (codes "Failed while attempting to handle client operation: " ++ e.what)
          print cerr (codes "Error: " ++ (e.what ++ (newline ∷ []))))
      >> pure 0
