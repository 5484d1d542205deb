-- ===== src/Logger.antt =====
-- Logger.cpp and Logger.h.
use defensive_systems_open_u.Prelude.{
  ℕ, ◌+◌, ◌/◌, ◌%◌, [], ◌∷◌, ◌++◌, Bytes, codes, decimal, newline,
}
use defensive_systems_open_u.Runtime.Os.{Os, Tm}
use defensive_systems_open_u.Runtime.Exec.{◌>>=◌, gets}
use defensive_systems_open_u.Runtime.World.{M, Stream, cout, cerr, print}

pub data Level : Type 0 where
  info_level warning_level error_level : Level

-- The field `level` of the source is stored and never read.
pub record Logger : Type 0 where
  pub name : Bytes
  pub level : Level

-- `Logger(name, level)`
abbrev pub new_logger : Bytes → Level → Logger
new_logger name level = record { name = name; level = level }

-- A number below 100 on two places.
unfoldable pub two_digits : ℕ → Bytes
two_digits n = (b'0' + n / 10 % 10) ∷ (b'0' + n % 10) ∷ []

-- `put_time` with "%Y-%m-%d %H:%M:%S".
unfoldable pub format_time : Tm → Bytes
unfolding decimal two_digits
format_time t =
    decimal t.year
    ++ (codes "-"
        ++ (two_digits t.month
            ++ (codes "-"
                ++ (two_digits t.day
                    ++ (codes " "
                        ++ (two_digits t.hour
                            ++ (codes ":"
                                ++ (two_digits t.minute
                                    ++ (codes ":" ++ two_digits t.second)))))))))

unfoldable pub level_to_string : Level → Bytes
level_to_string info_level = codes "INFO"
level_to_string warning_level = codes "WARNING"
level_to_string error_level = codes "ERROR"

unfoldable pub stream_of : Level → Stream
stream_of error_level = cerr
stream_of _ = cout

unfoldable pub line : Bytes → Logger → Level → Bytes → Bytes
unfolding level_to_string
line time l level message =
    time
    ++ (codes " - "
        ++ (l.name
            ++ (codes " - "
                ++ (level_to_string level ++ (codes " - " ++ (message ++ (newline ∷ [])))))))

module _ {O : Os} where
  unfoldable pub get_current_time : M O Bytes
  unfolding format_time
  get_current_time = gets (λ w. format_time (O.localtime w.os))

  unfoldable pub log : Logger → Level → Bytes → M O (Unit {0})
  unfolding get_current_time stream_of line
  log l level message = do
    time ← get_current_time
    print (stream_of level) (line time l level message)

  unfoldable pub info : Logger → Bytes → M O (Unit {0})
  unfolding log
  info l message = log l info_level message

  unfoldable pub warning : Logger → Bytes → M O (Unit {0})
  unfolding log
  warning l message = log l warning_level message

  unfoldable pub error : Logger → Bytes → M O (Unit {0})
  unfolding log
  error l message = log l error_level message

  unfoldable pub server_error : Logger → Bytes → M O (Unit {0})
  unfolding log
  server_error l message = log l error_level (codes "server responded with error: " ++ message)
