-- ===== src/Sdk/Client/Laws/Text.antt =====
-- The texts that the client builds: its base URL, its nonces, base64 both ways.
use volq_auth.Base.{
  text_or, ℕ, zero, suc, ◌+◌, ◌<◌, ◌≡◌, refl, List, length, All, String, text_length, EndsNot,
  is_slash, drop_end-EndsNot, strip_slashes, ok, arith,
}
use volq_auth.Base.Digits.{hex_bytes-length}
use volq_auth.Base.Value.{str}
use volq_auth.Sdk.Client.{Config, new_client}
use volq_auth.Sdk.Client.Interface.{Platform, World}
use volq_auth.Sdk.Client.Encoding.{bytes_from, generate_nonce, to_base64, from_base64}

-- The base URL of a new client does not end in a slash, whatever the configuration.
new_client-EndsNot : (config : Config) → EndsNot is_slash (new_client config).base_url
unfolding new_client strip_slashes
new_client-EndsNot config =
    drop_end-EndsNot is_slash (text_or config.base_url "http://localhost:8080")

pub bytes_from-length : (f : ℕ → ℕ) (i n : ℕ) → length (bytes_from f i n) ≡ n
unfolding bytes_from
bytes_from-length f i zero = refl
bytes_from-length f i (suc n) = omega (arith, bytes_from-length f (i + 1) n)

pub bytes_from-All : (f : ℕ → ℕ) (i n : ℕ) → All (λ b. b < 256) (bytes_from f i n)
unfolding bytes_from
bytes_from-All f i zero = tt
bytes_from-All f i (suc n) = (omega arith, bytes_from-All f (i + 1) n)

-- What the platform documents of base64 and UTF-8: both encoders of base64 agree, a decoder undoes
-- them, and decoding undoes the encoding of a text.
pub record IsCodec (p : Platform) : Type 0 where
  pub same : (bytes : List ℕ) → p.btoa bytes ≡ p.buffer_base64 bytes
  pub atob-btoa : (bytes : List ℕ) → p.atob (str (p.btoa bytes)) ≡ ok bytes
  pub buffer_from-base64 : (bytes : List ℕ) → p.buffer_from (str (p.buffer_base64 bytes)) ≡ ok bytes
  pub utf8_decode-utf8 : (s : String) → p.utf8_decode (p.utf8 s) ≡ ok s
  pub utf8_replace-utf8 : (s : String) → p.utf8_replace (p.utf8 s) ≡ s

module _ (p : Platform) where
  -- A nonce has 32 characters.
  generate_nonce-length : (w : World) → text_length (generate_nonce p w).0 ≡ 32
  unfolding generate_nonce
  generate_nonce-length w =
      let bytes = bytes_from (p.random_byte w.draws) 0 16 in
      omega (
        arith,
        hex_bytes-length bytes (bytes_from-All (p.random_byte w.draws) 0 16),
        bytes_from-length (p.random_byte w.draws) 0 16,
      )

  -- Decoding gives back what was encoded, also where one of the two runs on `Buffer` and the other on
  -- the window.
  from_base64-to_base64 : IsCodec p → (s : String) → from_base64 p (str (to_base64 p s)) ≡ ok s
  unfolding from_base64 to_base64
  from_base64-to_base64 codec s = ground (
    arith,
    codec.same (p.utf8 s),
    codec.atob-btoa (p.utf8 s),
    codec.buffer_from-base64 (p.utf8 s),
    codec.utf8_decode-utf8 s,
    codec.utf8_replace-utf8 s,
  )
