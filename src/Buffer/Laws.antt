-- ===== src/Buffer/Laws.antt =====
-- Writes and reads of a buffer, as equations between lists.
use defensive_systems_open_u.Prelude.{
  ℕ, zero, suc, ◌+◌, ◌-◌, ◌≤◌, ◌≡◌, refl, ap, ap₂, ◌∙◌, arith, Option, none, some, List, [], ◌∷◌,
  ◌++◌, length, length-append, length-take, length-drop, length-replicate, take, drop, replicate,
  Bytes,
}
use defensive_systems_open_u.Buffer.{write_at, read_at, c_str, padded, terminated}
use defensive_systems_open_u.Checksum.{◌>>=◌}

-- Inversion of a successful chain of accesses.
pub >>=-eq-some {ℓ κ} :
    {A : Type ℓ} {B : Type κ} (o : Option A) (f : A → Option B) {b : B}
    → (o >>= f) ≡ some b
    → (a : A) × (o ≡ some a) × (f a ≡ some b)
>>=-eq-some none f h = cc
>>=-eq-some (some a) f h = (a, refl, h)

module _ {ℓ} {A : Type ℓ} where
  pub drop-append : (xs ys : List A) (n k : ℕ) → length xs ≡ n → drop (n + k) (xs ++ ys) ≡ drop k ys
  drop-append [] ys n k h = ap (λ (t : ℕ). drop t ys) (omega arith)
  drop-append (x ∷ xs) ys zero k h = absurd (omega arith)
  drop-append (x ∷ xs) ys (suc n) k h =
      ap (λ (t : ℕ). drop t (x ∷ (xs ++ ys))) {y = suc (n + k)} (omega arith)
      ∙ drop-append xs ys n k (omega arith)

  pub drop-append_all : (xs ys : List A) (n : ℕ) → length xs ≡ n → drop n (xs ++ ys) ≡ ys
  drop-append_all [] ys zero h = refl
  drop-append_all [] ys (suc n) h = absurd (omega arith)
  drop-append_all (x ∷ xs) ys zero h = absurd (omega arith)
  drop-append_all (x ∷ xs) ys (suc n) h = drop-append_all xs ys n (omega arith)

  pub take-append : (xs ys : List A) (n : ℕ) → length xs ≡ n → take n (xs ++ ys) ≡ xs
  take-append [] ys zero h = refl
  take-append [] ys (suc n) h = absurd (omega arith)
  take-append (x ∷ xs) ys zero h = absurd (omega arith)
  take-append (x ∷ xs) ys (suc n) h = ap (◌∷◌ x) (take-append xs ys n (omega arith))

  pub take_all : (xs : List A) (n : ℕ) → length xs ≡ n → take n xs ≡ xs
  take_all [] zero h = refl
  take_all [] (suc n) h = refl
  take_all (x ∷ xs) zero h = absurd (omega arith)
  take_all (x ∷ xs) (suc n) h = ap (◌∷◌ x) (take_all xs n (omega arith))

  pub drop_all : (xs : List A) (n : ℕ) → length xs ≤ n → drop n xs ≡ []
  drop_all [] zero h = refl
  drop_all [] (suc n) h = refl
  drop_all (x ∷ xs) zero h = absurd (omega arith)
  drop_all (x ∷ xs) (suc n) h = drop_all xs n (omega arith)

pub write_at-eq-some :
    (off : ℕ) (src buf : Bytes) {x : Bytes}
    → write_at off src buf ≡ some x
    → (off + length src ≤ length buf) × (x ≡ take off buf ++ (src ++ drop (off + length src) buf))
unfolding write_at
write_at-eq-some off src buf h = ground arith

pub write_at_fits :
    (off : ℕ) (src buf : Bytes)
    → off + length src ≤ length buf
    → write_at off src buf ≡ some (take off buf ++ (src ++ drop (off + length src) buf))
unfolding write_at
write_at_fits off src buf h = ground arith

-- A write over the middle of a buffer that is given in three parts.
pub write_at_middle :
    (off : ℕ) (before old after src : Bytes)
    → length before ≡ off
    → length old ≡ length src
    → write_at off src (before ++ (old ++ after)) ≡ some (before ++ (src ++ after))
write_at_middle off before old after src h e =
    write_at_fits off src (before ++ (old ++ after))
      (omega (arith, length-append before (old ++ after), length-append old after))
    ∙ ap some (
        ap₂ ◌++◌ (take-append before (old ++ after) off h) (
          ap (λ (t : Bytes). src ++ t)
            (drop-append before (old ++ after) off (length src) h
              ∙ drop-append_all old after (length src) e)))

pub read_at-eq-some :
    (off n : ℕ) (buf : Bytes) {x : Bytes}
    → read_at off n buf ≡ some x
    → (off + n ≤ length buf) × (x ≡ take n (drop off buf))
unfolding read_at
read_at-eq-some off n buf h = ground arith

pub length-read_at :
    (off n : ℕ) (buf : Bytes) {x : Bytes} → read_at off n buf ≡ some x → length x ≡ n
length-read_at off n buf {x} h =
    let (fits, e) = read_at-eq-some off n buf h in
    ap length e ∙ omega (arith, length-take {0} n (drop off buf), length-drop {0} off buf)

pub read_at_fits :
    (off n : ℕ) (buf : Bytes)
    → off + n ≤ length buf
    → read_at off n buf ≡ some (take n (drop off buf))
unfolding read_at
read_at_fits off n buf h = ground arith

pub length-c_str : (s : Bytes) → length (c_str s) ≤ length s
unfolding c_str
length-c_str [] = omega arith
length-c_str (c ∷ s) = ground (arith, length-c_str s)

-- `strncpy` writes just as many bytes as it is told to.
pub length-padded : (n : ℕ) (s : Bytes) → length (padded n s) ≡ n
unfolding padded
length-padded n s = omega (
  arith,
  length-append {0} (take n (c_str s)) (replicate (n - length (take n (c_str s))) 0),
  length-take {0} n (c_str s),
  length-replicate {A = ℕ} (n - length (take n (c_str s))) 0,
)

pub length-terminated : (s : Bytes) → length (terminated s) ≤ length s + 1
unfolding terminated
length-terminated s = omega (arith, length-append {0} (c_str s) (0 ∷ []), length-c_str s)

-- A write leaves the size as it was.
pub length-write_at :
    (off : ℕ) (src buf : Bytes) {x : Bytes} → write_at off src buf ≡ some x → length x ≡ length buf
length-write_at off src buf {x} h =
    let (fits, e) = write_at-eq-some off src buf h in
    ap length e
    ∙ omega (
      arith,
      length-append (take off buf) (src ++ drop (off + length src) buf),
      length-append src (drop (off + length src) buf),
      length-take {0} off buf,
      length-drop {0} (off + length src) buf,
    )
