-- ===== src/Protocol/Defined/Upload.antt =====
-- The upload makes no access out of bounds, in ProtocolHandler.cpp.
use defensive_systems_open_u.Prelude.{
  ℕ, ◌+◌, ◌-◌, ◌%◌, ◌^◌, ◌≤◌, ◌≡◌, refl, ◌∙◌, arith, false, Option, none, some, length,
  length-replicate, replicate, drop, Bytes, IsBytes, ◌==◌, ==_iff, ltb, Bool-cases, inl, inr,
}
use defensive_systems_open_u.Buffer.{read_at, write_at, padded, terminated, big32, little_value}
use defensive_systems_open_u.Buffer.Laws.{
  read_at_fits, write_at_fits, length-write_at, length-padded, length-terminated,
}
use defensive_systems_open_u.Checksum.{int_max, memcrc}
use defensive_systems_open_u.Checksum.File.{checked_crc, sized_crc, opened_crc, read_crc}
use defensive_systems_open_u.Checksum.Memcrc.{memcrc_defined}
use defensive_systems_open_u.Crypto.{encrypt_with_aes}
use defensive_systems_open_u.Crypto.Aes.{AesWrapper, aes_wrapper, aes_encrypt}
use defensive_systems_open_u.Protocol.Defined.{
  Defined, Defined-pure, Defined-bind, Defined-in_bounds, Safe, Defined-after, safe_rules,
}
use defensive_systems_open_u.Runtime.Exec.{Any, ◌>>=◌}
use defensive_systems_open_u.Protocol.Defined.Steps
use defensive_systems_open_u.Protocol.Message.{Response}
use defensive_systems_open_u.Protocol.Payload.{create_file_payload_buffer}
use defensive_systems_open_u.Protocol.Upload.{received_crc}
use defensive_systems_open_u.Runtime.Library.{Library}
use defensive_systems_open_u.Runtime.Os.{Os}

-- Reading a file gives the bytes that were asked for, at most as many as an `int` can count.
abbrev pub ReadsFiles : Os → Type 0
ReadsFiles O =
    (path : Bytes) (n : ℕ) (s : O.State) (b : Bytes)
    → O.read path n s ≡ some b
    → (n ≤ int_max) × (n ≤ length b) × IsBytes b

-- A reply that reports a checksum has room for it.
abbrev pub HasChecksum : Response → Type 0
HasChecksum r = r.code ≡ 2103 → 4 ≤ length r.payload

memcrc-some :
    (b : Bytes) (n : ℕ) → IsBytes b → n ≤ length b → n ≤ int_max → (c : ℕ) × (memcrc b n ≡ some c)
memcrc-some b n bytes enough fits = found (memcrc b n) refl
  where
    found : (o : Option ℕ) → memcrc b n ≡ o → (c : ℕ) × (memcrc b n ≡ some c)
    found none e = elim ((memcrc_defined b n bytes).1 (enough, fits) e) [ ]
    found (some c) e = (c, e)

pub received_crc-some :
    (payload : Bytes) → 4 ≤ length payload → (c : ℕ) × (received_crc payload ≡ some c)
unfolding received_crc
received_crc-some payload long = (little_value (drop (length payload - 4) payload), rw tested refl)
  where
    tested : ltb (length payload) 4 ≡ false
    tested = ground arith

write_at-some :
    (off : ℕ) (src buf : Bytes)
    → off + length src ≤ length buf
    → (x : Bytes) × (write_at off src buf ≡ some x) × (length x ≡ length buf)
write_at-some off src buf h =
    let e = write_at_fits off src buf h in (_, e, length-write_at off src buf e)

pub file_payload_some :
    (path content heap : Bytes)
    → length heap ≡ 4 + 255 + length content + 1
    → (payload : Bytes) × (create_file_payload_buffer path content heap ≡ some payload)
      × (length payload ≡ length heap)
unfolding create_file_payload_buffer
file_payload_some path content heap room =
    let (x, e, h) =
      write_at-some 0 (replicate (4 + 255 + length content) 0) heap
        (omega (arith, length-replicate {A = ℕ} (4 + 255 + length content) 0)) in
    let (y, e', h') = write_at-some 0 (big32 (length content)) x (omega arith) in
    let (z, e'', h'') =
      write_at-some 4 (padded 255 path) y (omega (arith, length-padded 255 path)) in
    let (p, e''', h''') =
      write_at-some (4 + 255) (terminated content) z (omega (arith, length-terminated content)) in
    (p, rw (e, e', e'') e''', h''' ∙ h'' ∙ h' ∙ h)

module _ {O : Os} where
  checked_crc-Defined :
      (files : ReadsFiles O) (fname : Bytes) (size : ℕ) (s : O.State)
      → Defined {O = O} (checked_crc fname size (O.read fname size s)) Any
  unfolding checked_crc
  checked_crc-Defined files fname size s = by_result (O.read fname size s) refl
    where
      by_result :
          (o : Option Bytes)
          → O.read fname size s ≡ o
          → Defined {O = O} (checked_crc fname size o) Any
      by_result none e = Safe.safe (search Steps.Safe-read_crc_failed)
      by_result (some b) e =
          let (fits, enough, bytes) = files fname size s b e in
          let (c, found) = memcrc-some b size bytes enough fits in
          Defined-in_bounds (memcrc b size) _ _ found (Defined-pure _ _ tt)

  sized_crc-Defined :
      (files : ReadsFiles O) (fname : Bytes) (o : Option ℕ)
      → Defined {O = O} (sized_crc fname o) Any
  unfolding sized_crc ◌>>=◌
  sized_crc-Defined files fname none = Safe.safe (search Steps.Safe-read_crc_failed)
  sized_crc-Defined files fname (some size) = record {
    run = λ w. (checked_crc-Defined files fname size w.os).run w;
  }

  opened_crc-Defined :
      (files : ReadsFiles O) (fname : Bytes) (o : Option Bytes)
      → Defined {O = O} (opened_crc fname o) Any
  unfolding opened_crc
  opened_crc-Defined files fname none = Safe.safe (search Steps.Safe-read_crc_failed)
  opened_crc-Defined files fname (some b) =
      Defined-after _ _ _ (search safe_rules) λ size. sized_crc-Defined files fname size

  pub read_crc-Defined :
      (files : ReadsFiles O) (fname : Bytes) → Defined {O = O} (read_crc fname) Any
  unfolding read_crc
  read_crc-Defined files fname =
      Defined-after _ _ _ (search safe_rules) λ b. opened_crc-Defined files fname b

  aes_wrapper-Defined : (key : Bytes) → length key ≡ 16 → Defined {O = O} (aes_wrapper key 16) Any
  unfolding aes_wrapper
  aes_wrapper-Defined key h =
      Defined-in_bounds (read_at 0 16 key) _ _ (read_at_fits 0 16 key (omega arith))
        (Defined-pure _ _ tt)

  aes_encrypt-Defined :
      (L : Library) (a : AesWrapper) (plain : Bytes) (size : ℕ)
      → size ≤ length plain
      → Defined {O = O} (aes_encrypt L a plain size) Any
  unfolding aes_encrypt
  aes_encrypt-Defined L a plain size h = Defined-after _ _ _ (search Steps.Safe-draw) λ seed.
      Defined-in_bounds (read_at 0 size plain) _ _ (read_at_fits 0 size plain (omega arith))
        (Defined-pure _ _ tt)

  pub encrypt_with_aes-Defined :
      (L : Library) (plain key : Bytes) → Defined {O = O} (encrypt_with_aes L plain key) Any
  unfolding encrypt_with_aes
  encrypt_with_aes-Defined L plain key = elim (Bool-cases (length key == 16)) [
    | inl e ↦ rw e (
        Defined-bind (aes_wrapper key 16) _ Any _
          (aes_wrapper-Defined key ((==_iff (length key) 16).0 e))
          λ a _.
            Defined-bind (aes_encrypt L a plain (length plain % 2 ^ 32)) _ Any _
              (aes_encrypt-Defined L a plain _ (omega arith)) λ text _. Defined-pure _ _ tt)
    | inr e ↦ rw e (Safe.safe (search safe_rules))
  ]
