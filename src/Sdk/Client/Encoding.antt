-- ===== src/Sdk/Client/Encoding.antt =====
-- The private helpers of the client: `generateNonce`, `toBase64`, `fromBase64`, `bytesToBase64`.
use volq_auth.Base.{ℕ, zero, suc, ◌+◌, ◌%◌, List, [], ◌∷◌, if◌then◌else◌, String, Result, ok, throw}
use volq_auth.Base.Digits.{hex_bytes}
use volq_auth.Base.Value.{Value}
use volq_auth.Sdk.Client.Interface.{Platform, World}

-- A `Uint8Array` of `n` bytes; what is stored wraps at 256.
unfoldable pub bytes_from : (ℕ → ℕ) → ℕ → ℕ → List ℕ
bytes_from f i zero = []
bytes_from f i (suc n) = (f i % 256) ∷ bytes_from f (i + 1) n

zeros : ℕ → List ℕ
zeros zero = []
zeros (suc n) = 0 ∷ zeros n

module _ (p : Platform) where
  -- Both branches of the source fill the array with random bytes.
  unfoldable pub generate_nonce : World → String × World
  unfolding bytes_from
  generate_nonce w =
      (hex_bytes (bytes_from (p.random_byte w.draws) 0 16), record w { draws = w.draws + 1 })

  -- `clientPubBytes`: left at zero where there is no `crypto`
  unfoldable pub random_key : World → List ℕ × World
  unfolding bytes_from zeros
  random_key w =
      if p.has_random
      then (bytes_from (p.random_byte w.draws) 0 32, record w { draws = w.draws + 1 })
      else (zeros 32, w)

  unfoldable pub to_base64 : String → String
  to_base64 s = if p.has_btoa then p.btoa (p.utf8 s) else p.buffer_base64 (p.utf8 s)

  unfoldable pub from_base64 : Value → Result String String
  from_base64 b64 =
      if p.has_atob
      then elim (p.atob b64) [ ok bytes ↦ p.utf8_decode bytes | throw e ↦ throw e ]
      else elim (p.buffer_from b64) [ ok bytes ↦ ok (p.utf8_replace bytes) | throw e ↦ throw e ]

  unfoldable pub bytes_to_base64 : List ℕ → String
  bytes_to_base64 bytes = if p.has_btoa then p.btoa bytes else p.buffer_base64 bytes
