-- ===== src/Checksum/Memcrc.antt =====
-- `memcrc` against `cksum`: when it returns, and what.
use native.Mathlib.Decide.{dec_lt}
use native.Mathlib.Nat.{pow-suc}
use mathlib.Core.List.{foldl-append}
use mathlib.Core.Option.{some-ne-none}
use defensive_systems_open_u.Prelude.{
  ℕ, zero, suc, ◌+◌, ◌-◌, ◌*◌, ◌/◌, ◌%◌, ◌^◌, ◌≤◌, ◌<◌, bit_xor, ◌≡◌, ◌≢◌, ◌↔◌, ◌⊎◌, inl, inr, refl,
  sym, ap, ◌∙◌, arith, none, some, [], ◌∷◌, length, length-take, get_elem?, drop, take, Bytes,
  IsBytes, ◌==◌, if◌then◌else◌, Bool-cases,
}
use defensive_systems_open_u.Prelude.Bits.{xor-lt}
use defensive_systems_open_u.Checksum.{
  unsigned, top_byte, int_max, advance, scan, absorb_length, memcrc,
}
use defensive_systems_open_u.Checksum.Cksum.{byte_step, remainder, octets, cksum}
use defensive_systems_open_u.Checksum.Linear.{byte_shift-lt}
use defensive_systems_open_u.Checksum.Lookup.{advance_lem, top_byte-lt}

pub byte_step-lt : (s c : ℕ) → s < 2 ^ 32 → c < 256 → byte_step s c < 2 ^ 32
unfolding byte_step
byte_step-lt s c hs hc = byte_shift-lt _ (xor-lt 32 s (c * 2 ^ 24) hs (omega arith))

pub remainder-lt : (s : ℕ) (b : Bytes) → s < 2 ^ 32 → IsBytes b → remainder s b < 2 ^ 32
unfolding remainder
remainder-lt s [] hs hb = hs
remainder-lt s (c ∷ b) hs (hc, hb) = remainder-lt (byte_step s c) b (byte_step-lt s c hs hc) hb

-- The element at an index inside, and the rest of the buffer from there.
record At (b : Bytes) (i : ℕ) : Type 0 where
  byte : ℕ
  read : get_elem? b i ≡ some byte
  rest : drop i b ≡ byte ∷ drop (i + 1) b
  fits : byte < 256

at : (b : Bytes) (i : ℕ) → IsBytes b → i < length b → At b i
at [] i hb h = absurd (omega arith)
at (c ∷ b) zero (hc, hb) h = record { byte = c; read = refl; rest = refl; fits = hc }
at (c ∷ b) (suc i) (hc, hb) h =
    let a = at b i hb (omega arith) in
    record {
      byte = a.byte;
      read = a.read;
      rest = a.rest ∙ ap (λ (t : ℕ). a.byte ∷ drop t (c ∷ b)) {x = suc (i + 1)} (omega arith);
      fits = a.fits;
    }

get_elem?-beyond : (b : Bytes) (i : ℕ) → length b ≤ i → get_elem? b i ≡ none
get_elem?-beyond [] i h = refl
get_elem?-beyond (c ∷ b) zero h = absurd (omega arith)
get_elem?-beyond (c ∷ b) (suc i) h = get_elem?-beyond b i (omega arith)

module _ (b : Bytes) (hb : IsBytes b) where
  -- One round of the loop, read through the division.
  scan-suc :
      (left i s : ℕ) (a : At b i)
      → s < 2 ^ 32
      → scan b (suc left) i s
        ≡ (if i == int_max then none else scan b left (i + 1) (byte_step s a.byte))
  unfolding scan
  scan-suc left i s a hs = rw (a.read, step) refl
    where
      step : advance s (unsigned (bit_xor (top_byte s) a.byte)) ≡ some (byte_step s a.byte)
      step =
          ap (advance s) (omega (arith, top_byte-lt s a.byte hs a.fits))
          ∙ advance_lem s a.byte hs a.fits

  scan_lem :
      (left i s : ℕ)
      → i + left ≤ length b
      → i + left ≤ int_max
      → s < 2 ^ 32
      → scan b left i s ≡ some (remainder s (take left (drop i b)))
  scan_lem zero i s hl hm hs = unfold scan remainder in refl
  scan_lem (suc left) i s hl hm hs =
      scan-suc left i s a hs
      ∙ inside
      ∙ scan_lem left (i + 1) (byte_step s a.byte) (omega arith) (omega arith)
          (byte_step-lt s a.byte hs a.fits)
      ∙ ap some (sym whole)
    where
      a : At b i
      a = at b i hb (omega arith)

      inside :
          (if i == int_max then none else scan b left (i + 1) (byte_step s a.byte))
          ≡ scan b left (i + 1) (byte_step s a.byte)
      inside = ground arith

      whole :
          remainder s (take (suc left) (drop i b))
          ≡ remainder (byte_step s a.byte) (take left (drop (i + 1) b))
      whole = ap (λ (t : Bytes). remainder s (take (suc left) t)) a.rest ∙ unfold remainder in refl

  scan-none :
      (left i s : ℕ)
      → i ≤ length b
      → i ≤ int_max
      → (length b < i + left) ⊎ (int_max < i + left)
      → s < 2 ^ 32
      → scan b left i s ≡ none
  scan-none zero i s hl hm over hs = absurd (omega arith)
  scan-none (suc left) i s hl hm over hs = elim (dec_lt i (length b)) [
    | yes p ↦
        let a = at b i hb p in
        scan-suc left i s a hs ∙ elim (Bool-cases (i == int_max)) [
          | inl e ↦ rw e refl
          | inr e ↦ rw e (
              scan-none left (i + 1) (byte_step s a.byte) (omega arith) (ground arith) (omega arith)
                (byte_step-lt s a.byte hs a.fits))
        ]
    | no p ↦ stops (get_elem?-beyond b i (omega arith))
  ]
    where
      stops : get_elem? b i ≡ none → scan b (suc left) i s ≡ none
      stops e = unfold scan in rw e refl

pub octets-IsBytes : (places n : ℕ) → IsBytes (octets places n)
unfolding octets
octets-IsBytes zero n = tt
octets-IsBytes (suc places) n = ground (arith, octets-IsBytes places (n / 256))

absorb_length_pos :
    (fuel n s : ℕ)
    → 0 < n
    → s < 2 ^ 32
    → absorb_length (suc fuel) n s ≡ absorb_length fuel (n / 256) (byte_step s (n % 256))
unfolding absorb_length
absorb_length_pos fuel n s hn hs = rw (advance_lem s (n % 256) hs (omega arith)) (ground arith)

octets_pos : (places n : ℕ) → 0 < n → octets (suc places) n ≡ (n % 256) ∷ octets places (n / 256)
unfolding octets
octets_pos places n h = ground arith

absorb_length_lem :
    (places n s : ℕ)
    → n < 256 ^ places
    → s < 2 ^ 32
    → absorb_length (suc places) n s ≡ some (remainder s (octets places n))
absorb_length_lem zero zero s hn hs = unfold absorb_length octets remainder in refl
absorb_length_lem zero (suc n) s hn hs = absurd (omega arith)
absorb_length_lem (suc places) zero s hn hs = unfold absorb_length octets remainder in refl
absorb_length_lem (suc places) (suc n) s hn hs =
    absorb_length_pos (suc places) (suc n) s (omega arith) hs
    ∙ absorb_length_lem places (suc n / 256) (byte_step s (suc n % 256))
        (omega (arith, pow-suc 256 places)) (byte_step-lt s (suc n % 256) hs (omega arith))
    ∙ ap some (
        sym (ap (remainder s) (octets_pos places (suc n) (omega arith)) ∙ unfold remainder in refl))

pub take-length : (b : Bytes) → take (length b) b ≡ b
take-length [] = refl
take-length (c ∷ b) = ap (◌∷◌ c) (take-length b)

length-take_of_le : (n : ℕ) (b : Bytes) → n ≤ length b → length (take n b) ≡ n
length-take_of_le n b h = omega (arith, length-take {0} n b)

IsBytes-take : (n : ℕ) (b : Bytes) → IsBytes b → IsBytes (take n b)
IsBytes-take zero b h = tt
IsBytes-take (suc n) [] h = tt
IsBytes-take (suc n) (c ∷ b) (hc, h) = (hc, IsBytes-take n b h)

pub cksum-eq :
    (b : Bytes) (n : ℕ)
    → length b ≡ n
    → cksum b ≡ 2 ^ 32 - 1 - remainder (remainder 0 b) (octets 8 n)
unfolding cksum
cksum-eq b n e = rw (e, foldl-append) refl

pub cksum-lt : (b : Bytes) → cksum b < 2 ^ 32
unfolding cksum
cksum-lt b = omega arith

complement : (t : ℕ) → t < 2 ^ 32 → unsigned (2 ^ 64 - 1 - t) ≡ 2 ^ 32 - 1 - t
complement t h = omega arith

-- For every buffer of bytes and every length that it covers and an `int` can count, `memcrc`
-- returns, and returns the POSIX checksum of that many bytes from the front.
pub memcrc-cksum :
    (b : Bytes) (n : ℕ)
    → IsBytes b
    → n ≤ length b
    → n ≤ int_max
    → memcrc b n ≡ some (cksum (take n b))
unfolding memcrc
memcrc-cksum b n hb hl hm = rw (scan_lem b hb n 0 0 (omega arith) (omega arith) (omega arith)) (
    rw (absorb_length_lem 8 n (remainder 0 (take n b)) (omega arith) low) (
      ap some (
        complement _ (remainder-lt _ (octets 8 n) low (octets-IsBytes 8 n))
        ∙ sym (cksum-eq (take n b) n (length-take_of_le n b hl)))))
  where
    low : remainder 0 (take n b) < 2 ^ 32
    low = remainder-lt 0 (take n b) (omega arith) (IsBytes-take n b hb)

memcrc_undefined :
    (b : Bytes) (n : ℕ) → IsBytes b → (length b < n) ⊎ (int_max < n) → memcrc b n ≡ none
unfolding memcrc
memcrc_undefined b n hb over =
    rw (scan-none b hb n 0 0 (omega arith) (omega arith) (ground arith) (omega arith)) refl

-- The checksum is defined exactly for the lengths that the buffer covers and an `int` can count.
pub memcrc_defined :
    (b : Bytes) (n : ℕ) → IsBytes b → (memcrc b n ≢ none) ↔ ((n ≤ length b) × (n ≤ int_max))
memcrc_defined b n hb =
    (λ h. domain h, λ h e. some-ne-none _ (sym (memcrc-cksum b n hb h.0 h.1) ∙ e))
  where
    domain : memcrc b n ≢ none → (n ≤ length b) × (n ≤ int_max)
    domain h = elim (dec_lt (length b) n) [
      | yes p ↦ absurd (h (memcrc_undefined b n hb (inl p)))
      | no p ↦ elim (dec_lt int_max n) [
        | yes q ↦ absurd (h (memcrc_undefined b n hb (inr q)))
        | no q ↦ omega arith
      ]
    ]
