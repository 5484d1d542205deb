-- ===== src/Crypto/Rsa/Pointers/Agree.antt =====
-- RSAWrapper.cpp: keys that are saved to an array and loaded from it.
use defensive_systems_open_u.Prelude.{
  ◌+◌, ◌≤◌, ◌≡◌, refl, ap, ◌∙◌, arith, some, ◌++◌, length, length-append, drop, Bytes,
}
use defensive_systems_open_u.Buffer.{read_at}
use defensive_systems_open_u.Buffer.Laws.{write_at_fits, read_at_fits, take_all, take-append}
use defensive_systems_open_u.Crypto.Aes.{or_library_error}
use defensive_systems_open_u.Crypto.Rsa.{public_wrapper, private_wrapper}
use defensive_systems_open_u.Crypto.Rsa.Pointers.{
  array_sink, public_wrapper_at, private_wrapper_at, private_wrapper_key_to, public_key_to,
}
use defensive_systems_open_u.Runtime.Os.{Os}
use defensive_systems_open_u.Runtime.Library
use defensive_systems_open_u.Runtime.Library.{Library}
use defensive_systems_open_u.Runtime.Exec.{ok, continue, ◌>>=◌}
use defensive_systems_open_u.Runtime.World.{World}

read_at-start : (bytes rest : Bytes) → read_at 0 (length bytes) (bytes ++ rest) ≡ some bytes
read_at-start bytes rest =
    read_at_fits 0 (length bytes) (bytes ++ rest) (omega (arith, length-append bytes rest))
    ∙ ap some (take-append bytes rest (length bytes) refl)

module _ {O : Os} where
  -- The bytes fill the first part of an array that has room for them.
  array_sink_fits :
      (bytes keyout : Bytes) (w : World O)
      → length bytes ≤ length keyout
      → array_sink bytes keyout (length bytes) w ≡ (ok (bytes ++ drop (0 + length bytes) keyout), w)
  unfolding array_sink
  array_sink_fits bytes keyout w h =
      rw (take_all bytes (length bytes) refl, write_at_fits 0 bytes keyout (omega (arith, h))) refl

module _ {O : Os} (L : Library) where
  private_wrapper_start :
      (bytes rest : Bytes) (w : World O)
      → private_wrapper_at L (bytes ++ rest) (length bytes) w ≡ private_wrapper L bytes w
  unfolding private_wrapper_at private_wrapper ◌>>=◌
  private_wrapper_start bytes rest w = rw (read_at-start bytes rest) refl

  public_wrapper_start :
      (bytes rest : Bytes) (w : World O)
      → public_wrapper_at L (bytes ++ rest) (length bytes) w ≡ public_wrapper L bytes w
  unfolding public_wrapper_at public_wrapper ◌>>=◌
  public_wrapper_start bytes rest w = rw (read_at-start bytes rest) refl

  private_wrapper_saved :
      Library.IsLawful L
      → (key : L.PrivateKey) (w : World O) → private_wrapper L (L.save_private key) w ≡ (ok key, w)
  unfolding private_wrapper or_library_error
  private_wrapper_saved lawful key w = rw (lawful.load_private-save_private key) refl

  public_wrapper_saved :
      Library.IsLawful L
      → (key : L.PublicKey) (w : World O) → public_wrapper L (L.save_public key) w ≡ (ok key, w)
  unfolding public_wrapper or_library_error
  public_wrapper_saved lawful key w = rw (lawful.load_public-save_public key) refl

  -- Keys that are saved to an array and loaded from it are the same again, where the library's saved
  -- keys load, the array has room, and the length that is given is the key's: the private key and
  -- the public key of a private wrapper, whatever else the array held.
  pub save-load :
      Library.IsLawful L
      → (key : L.PrivateKey) (keyout : Bytes) (w : World O)
      → length (L.save_private key) ≤ length keyout
      → length (L.save_public (L.public_of key)) ≤ length keyout
      → ((private_wrapper_key_to L key keyout (length (L.save_private key)) >>= λ b.
              private_wrapper_at L b (length (L.save_private key)))
            w
          ≡ (ok key, w))
        × ((public_key_to L key keyout (length (L.save_public (L.public_of key))) >>= λ b.
                public_wrapper_at L b (length (L.save_public (L.public_of key))))
              w
            ≡ (ok (L.public_of key), w))
  unfolding private_wrapper_key_to public_key_to ◌>>=◌
  save-load lawful key keyout w fits fits' = (
    ap (continue (λ b. private_wrapper_at L b (length private_key)))
          (array_sink_fits private_key keyout w fits)
        ∙ private_wrapper_start private_key _ w
        ∙ private_wrapper_saved lawful key w,
    ap (continue (λ b. public_wrapper_at L b (length public_key)))
          (array_sink_fits public_key keyout w fits')
        ∙ public_wrapper_start public_key _ w
        ∙ public_wrapper_saved lawful (L.public_of key) w,
  )
    where
      private_key : Bytes
      private_key = L.save_private key

      public_key : Bytes
      public_key = L.save_public (L.public_of key)
