-- ===== src/FileHandler/Lines.antt =====
-- FileHandler.cpp: cutting a text into lines, and a line at its colon.
use defensive_systems_open_u.Prelude.{
  ℕ, ◌/◌, ◌%◌, ◌<◌, ◌≡◌, ◌≢◌, refl, arith, some, [], ◌∷◌, ◌++◌, Bytes, IsBytes, hex, hex_digit,
  getline, newline, ◌==◌, Bool-cases, inl, inr,
}
use defensive_systems_open_u.FileHandler.{split_at_colon, three_lines, remove_newlines}

-- A text without this byte.
abbrev pub Lacks : ℕ → Bytes → Type 0
Lacks d [] = Unit {0}
Lacks d (c ∷ s) = (c ≢ d) × Lacks d s

getline-append : (s rest : Bytes) → Lacks newline s → getline (s ++ (newline ∷ rest)) ≡ (s, rest)
unfolding getline
getline-append [] rest h = refl
getline-append (c ∷ s) rest (hc, h) = rw (getline-append s rest h) (ground (arith, hc))

getline_all : (s : Bytes) → Lacks newline s → getline s ≡ (s, [])
unfolding getline
getline_all [] h = refl
getline_all (c ∷ s) (hc, h) = rw (getline_all s h) (ground (arith, hc))

pub three_lines_lem :
    (first second third : Bytes)
    → Lacks newline first
    → Lacks newline second
    → Lacks newline third
    → three_lines (first ++ (newline ∷ (second ++ (newline ∷ third)))) ≡ (first, second, third)
unfolding three_lines
three_lines_lem first second third h1 h2 h3 =
    rw (getline-append first (second ++ (newline ∷ third)) h1)
      (rw (getline-append second third h2) (rw (getline_all third h3) refl))

hex_digit-newline : (n : ℕ) → n < 16 → hex_digit n ≢ newline
hex_digit-newline n h = ground arith

pub hex-Lacks : (s : Bytes) → IsBytes s → Lacks newline (hex s)
unfolding hex
hex-Lacks [] h = tt
hex-Lacks (c ∷ s) (hc, h) = (
  hex_digit-newline (c / 16) (omega arith),
  (hex_digit-newline (c % 16) (omega arith), hex-Lacks s h),
)

pub remove_newlines-Lacks : (s : Bytes) → Lacks newline (remove_newlines s)
unfolding remove_newlines
remove_newlines-Lacks [] = tt
remove_newlines-Lacks (c ∷ s) = elim (Bool-cases (c == newline)) [
  | inl e ↦ rw e (remove_newlines-Lacks s)
  | inr e ↦ rw e ((λ same. ground (arith, e)), remove_newlines-Lacks s)
]

pub split_at_colon-append :
    (s rest : Bytes) → Lacks b':' s → split_at_colon (s ++ (b':' ∷ rest)) ≡ some (s, rest)
unfolding split_at_colon
split_at_colon-append [] rest h = refl
split_at_colon-append (c ∷ s) rest (hc, h) =
    rw (split_at_colon-append s rest h) (ground (arith, hc))
