-- ===== src/Sdk/Hwid/Laws.antt =====
-- The identifier has 64 characters and stays the same.
use Prim.Native.Nat.{bit_xor}
use volq_auth.Base.{
  ℕ, ◌<◌, ◌^◌, ◌≡◌, refl, true, none, some, List, [], ◌∷◌, All, length, String, ◌<>◌, text_length,
  text_length-append, utf16, is_empty_of_length, arith, Option-cases, inl, inr, eq_refl,
}
use volq_auth.Base.Digits.{
  to_string, pad_start, pad_start-length, repeat_text-length, hex_bytes-length,
}
use volq_auth.Base.Storage.{Storage, get_item, set_item, get_item-set_item}
use volq_auth.Sdk.Hwid.{
  Device, storage_key, no_window_hwid, fingerprint, imul, mix, fallback_hash, fresh_hwid,
  cached_hwid, get_browser_hwid,
}

-- What the SHA-256 of the platform gives: 32 bytes.
pub record IsSha256 (d : Device) : Type 0 where
  pub size : (raw : String) → length (d.digest raw) ≡ 32
  pub bytes : (raw : String) → All (λ b. b < 256) (d.digest raw)

imul-lt : (a b : ℕ) → imul a b < 2 ^ 32
unfolding imul
imul-lt a b = omega arith

mix-lt :
    (h1 h2 : ℕ) (units : List ℕ)
    → h1 < 2 ^ 32
    → h2 < 2 ^ 32
    → ((mix h1 h2 units).0 < 2 ^ 32) × ((mix h1 h2 units).1 < 2 ^ 32)
unfolding mix
mix-lt h1 h2 [] p q = (p, q)
mix-lt h1 h2 (ch ∷ rest) p q =
    mix-lt (imul (bit_xor h1 ch) 2654435761) (imul (bit_xor h2 ch) 1597334677) rest (imul-lt _ _)
      (imul-lt _ _)

fallback_hash-length : (raw : String) → text_length (fallback_hash raw) ≡ 64
unfolding fallback_hash
fallback_hash-length raw =
    let (p, q) = mix-lt 0xdeadbeef 0x41c6ce57 (utf16 raw) (omega arith) (omega arith) in
    let part1 = pad_start 8 (to_string 16 (mix 0xdeadbeef 0x41c6ce57 (utf16 raw)).0) in
    let part2 = pad_start 8 (to_string 16 (mix 0xdeadbeef 0x41c6ce57 (utf16 raw)).1) in
    omega (
      arith,
      repeat_text-length 4 (part1 <> part2),
      text_length-append part1 part2,
      pad_start-length 7 _ p,
      pad_start-length 7 _ q,
    )

fresh_hwid-length : (d : Device) → IsSha256 d → text_length (fresh_hwid d) ≡ 64
unfolding fresh_hwid
fresh_hwid-length d sha = ground (
  arith,
  hex_bytes-length (d.digest (fingerprint d)) (sha.bytes (fingerprint d)),
  sha.size (fingerprint d),
  fallback_hash-length (fingerprint d),
)

no_window_hwid-length : text_length no_window_hwid ≡ 64
unfolding text_length
no_window_hwid-length = refl

-- A cached identifier is the stored text, and it has 64 characters.
cached_hwid_sound :
    (d : Device) (m : Storage) (h : String)
    → cached_hwid d m ≡ some h
    → (get_item storage_key m ≡ some h) × (text_length h ≡ 64)
unfolding cached_hwid
cached_hwid_sound d m h e = elim (Option-cases (get_item storage_key m)) [
  | inl missing ↦ ground arith
  | inr (s, found) ↦ ground arith
]

cached_hwid_of_stored :
    (d : Device) (m : Storage) (h : String)
    → d.readable ≡ true
    → text_length h ≡ 64
    → get_item storage_key m ≡ some h
    → cached_hwid d m ≡ some h
unfolding cached_hwid
cached_hwid_of_stored d m h r n e = ground (arith, is_empty_of_length 63 h n)

hit :
    (d : Device) (m : Storage) (h : String)
    → d.has_window ≡ true
    → cached_hwid d m ≡ some h
    → get_browser_hwid d m ≡ (h, m)
unfolding get_browser_hwid
hit d m h w e = ground arith

miss :
    (d : Device) (m : Storage)
    → d.has_window ≡ true
    → d.writable ≡ true
    → cached_hwid d m ≡ none
    → get_browser_hwid d m ≡ (fresh_hwid d, set_item storage_key (fresh_hwid d) m)
unfolding get_browser_hwid
miss d m w wr e = ground arith

-- Whatever the browser and its storage hold, the identifier has 64 characters, if the platform's
-- SHA-256 gives 32 bytes.
pub get_browser_hwid-length :
    (d : Device) (m : Storage) → IsSha256 d → text_length (get_browser_hwid d m).0 ≡ 64
unfolding get_browser_hwid
get_browser_hwid-length d m sha = elim (Option-cases (cached_hwid d m)) [
  | inl fresh ↦ ground (arith, fresh_hwid-length d sha, no_window_hwid-length)
  | inr (h, found) ↦ ground (arith, cached_hwid_sound d m h found, no_window_hwid-length)
]

-- Once a call has run in a browser whose storage can be read and written, every later call in that
-- storage gives the same identifier and leaves the storage alone, whatever has become of the
-- device's screen, graphics, language or hash since.
pub get_browser_hwid_stable :
    (d later : Device) (m : Storage)
    → IsSha256 d
    → d.has_window ≡ true
    → d.writable ≡ true
    → later.has_window ≡ true
    → later.readable ≡ true
    → get_browser_hwid later (get_browser_hwid d m).1
      ≡ ((get_browser_hwid d m).0, (get_browser_hwid d m).1)
get_browser_hwid_stable d later m sha w wr w' rd' = elim (Option-cases (cached_hwid d m)) [
  | inl fresh ↦ rw (miss d m w wr fresh) (
      hit later _ _ w' (
        cached_hwid_of_stored later _ _ rd' (fresh_hwid-length d sha)
          (rw get_item-set_item (ground (arith, eq_refl storage_key)))))
  | inr (h, found) ↦
      let (e, n) = cached_hwid_sound d m h found in
      rw (hit d m h w found) (hit later m h w' (cached_hwid_of_stored later m h rd' n e))
]
