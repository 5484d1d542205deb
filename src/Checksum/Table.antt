-- ===== src/Checksum/Table.antt =====
-- checksum.cpp, `crctab`: eight rows of 256 words.
mod Low
mod High
unfoldable pub use Low.{row0, row1, row2, row3}
unfoldable pub use High.{row4, row5, row6, row7}
use defensive_systems_open_u.Prelude.{ℕ, List, [], ◌∷◌}

unfoldable pub crctab : List (List ℕ)
crctab = row0 ∷ row1 ∷ row2 ∷ row3 ∷ row4 ∷ row5 ∷ row6 ∷ row7 ∷ []
