-- ===== src/Protocol/Payload/Layout.antt =====
-- ProtocolHandler.cpp: the payloads' memory and their layout.
use mathlib.Core.List.{append_assoc, append-nil}
use defensive_systems_open_u.Prelude.{
  ℕ, zero, suc, ◌+◌, ◌≤◌, ◌≡◌, refl, sym, ap, ap₂, ◌∙◌, arith, some, [], ◌∷◌, ◌++◌, length,
  length-append, length-replicate, length-drop, drop, replicate, Bytes, IsBytes, hex,
}
use defensive_systems_open_u.Buffer.{write_at, padded, terminated, big32}
use defensive_systems_open_u.Buffer.Laws.{
  write_at_fits, write_at_middle, length-padded, length-terminated, length-write_at,
}
use defensive_systems_open_u.Crypto.Hex.{c_str-hex}
use defensive_systems_open_u.Protocol.Payload.{
  create_file_payload_buffer, name_field, public_key_payload, status_payload,
}

abbrev zeros : ℕ → Bytes
zeros n = replicate n 0

zeros-add : (m n : ℕ) → zeros (m + n) ≡ zeros m ++ zeros n
zeros-add zero n = ap zeros (omega arith)
zeros-add (suc m) n =
    ap zeros {x = suc m + n} {y = suc (m + n)} (omega arith) ∙ ap (◌∷◌ 0) (zeros-add m n)

-- `memset` over all but the end of a buffer, in three parts.
cleared :
    (k m n : ℕ) (heap : Bytes)
    → k + m + n ≤ length heap
    → write_at 0 (zeros (k + m + n)) heap
      ≡ some (zeros k ++ (zeros m ++ (zeros n ++ drop (k + m + n) heap)))
cleared k m n heap fits =
    write_at_fits 0 (zeros (k + m + n)) heap (omega (arith, length-replicate {A = ℕ} (k + m + n) 0))
    ∙ ap some (
        ap₂ ◌++◌ (zeros-add (k + m) n ∙ ap (λ (t : Bytes). t ++ zeros n) (zeros-add k m))
          (ap (λ (t : ℕ). drop t heap) (omega (arith, length-replicate {A = ℕ} (k + m + n) 0)))
        ∙ append_assoc (zeros k ++ zeros m) (zeros n) _
        ∙ append_assoc (zeros k) (zeros m) _)

-- A write behind two parts, up to the end of the buffer.
write-last :
    (off : ℕ) (first second old src : Bytes)
    → length first + length second ≡ off
    → length old ≡ length src
    → write_at off src (first ++ (second ++ old)) ≡ some (first ++ (second ++ src))
write-last off first second old src h e =
    ap (write_at off src) (
      sym (append_assoc first second old)
      ∙ ap (λ (t : Bytes). (first ++ second) ++ t) (sym (append-nil old)))
    ∙ write_at_middle off (first ++ second) old [] src (omega (arith, length-append first second)) e
    ∙ ap some (
        append_assoc first second (src ++ [])
        ∙ ap (λ (t : Bytes). first ++ (second ++ t)) (append-nil src))

terminated-hex : (s : Bytes) → IsBytes s → terminated (hex s) ≡ hex s ++ (0 ∷ [])
unfolding terminated
terminated-hex s h = ap (λ (t : Bytes). t ++ (0 ∷ [])) (c_str-hex s h)

-- The payload of a file's upload, in memory of any content: four bytes with the size of the
-- encrypted text in network order, the name cut or filled up with zeros to 255 bytes, the text, and
-- the zero of `strcpy`, with no access out of bounds.
pub create_file_payload_buffer_lem :
    (file_name encrypted heap : Bytes)
    → IsBytes encrypted
    → length heap ≡ 4 + 255 + length (hex encrypted) + 1
    → create_file_payload_buffer file_name (hex encrypted) heap
      ≡ some
          (big32 (length (hex encrypted)) ++ (padded 255 file_name ++ (hex encrypted ++ (0 ∷ []))))
unfolding create_file_payload_buffer
create_file_payload_buffer_lem file_name encrypted heap bytes room =
    rw (cleared 4 255 n heap (omega arith)) (
      rw
        (
          write_at_middle 0 [] (zeros 4) (zeros 255 ++ old) (big32 n) refl refl,
          write_at_middle 4 (big32 n) (zeros 255) old (padded 255 file_name) refl
              (sym (length-padded 255 file_name)),
          write-last 259 (big32 n) (padded 255 file_name) old (terminated (hex encrypted))
              (omega (arith, length-padded 255 file_name)) old_size,
        )
        (ap (λ (t : Bytes). some (big32 n ++ (padded 255 file_name ++ t)))
          (terminated-hex encrypted bytes)))
  where
    n : ℕ
    n = length (hex encrypted)

    old : Bytes
    old = zeros n ++ drop (4 + 255 + n) heap

    old_size : length old ≡ length (terminated (hex encrypted))
    old_size = omega (
      arith,
      ap length (terminated-hex encrypted bytes),
      length-append {0} (hex encrypted) (0 ∷ []),
      length-append (zeros n) (drop (4 + 255 + n) heap),
      length-replicate {A = ℕ} n 0,
      length-drop {0} (4 + 255 + n) heap,
    )

-- The payload that carries the public key, in memory of any content: the name, cut or filled up
-- with zeros to 254 bytes, a zero, and the key, with no access out of bounds.
pub public_key_payload_lem :
    (client_name public_key heap : Bytes)
    → length heap ≡ 255 + length public_key
    → public_key_payload client_name public_key heap
      ≡ some (padded 254 client_name ++ ((0 ∷ []) ++ padded (length public_key) public_key))
unfolding public_key_payload
public_key_payload_lem client_name public_key heap room = rw (cleared 254 1 n heap (omega arith)) (
    rw
      (
        write_at_middle 0 [] (zeros 254) (zeros 1 ++ old) (padded 254 client_name) refl
            (sym (length-padded 254 client_name)),
        write-last 255 (padded 254 client_name) (zeros 1) old (padded n public_key)
            (omega (arith, length-padded 254 client_name)) old_size,
      )
      refl)
  where
    n : ℕ
    n = length public_key

    old : Bytes
    old = zeros n ++ drop (254 + 1 + n) heap

    old_size : length old ≡ length (padded n public_key)
    old_size = omega (
      arith,
      length-padded n public_key,
      length-append (zeros n) (drop (254 + 1 + n) heap),
      length-replicate {A = ℕ} n 0,
      length-drop {0} (254 + 1 + n) heap,
    )

-- The payload of a status request fits its memory, and fills it.
pub status_payload_lem :
    (file_path heap : Bytes)
    → length heap ≡ length file_path + 1
    → (payload : Bytes) × (status_payload file_path heap ≡ some payload)
      × (length payload ≡ length file_path + 1)
unfolding status_payload
status_payload_lem file_path heap room =
    let written =
      write_at_fits 0 (terminated file_path) heap (omega (arith, length-terminated file_path)) in
    (_, written, length-write_at 0 (terminated file_path) heap written ∙ room)

-- The name field of a connection request: the name, cut or filled up with zeros to 254 bytes, and a
-- zero.
pub name_field_lem :
    (client_name : Bytes) → name_field client_name ≡ some (padded 254 client_name ++ (0 ∷ []))
unfolding name_field
name_field_lem client_name =
    write_at_middle 0 [] (zeros 254) (zeros 1) (padded 254 client_name) refl
      (sym (length-padded 254 client_name))
