-- ===== src/Sdk/Hwid.antt =====
-- sdks/react/src/hwid.ts: the device fingerprint and its cache in `localStorage`.
pub mod Laws
use Prim.Native.Nat.{bit_xor}
use volq_auth.Base.{
  ℕ, ◌*◌, ◌%◌, ◌^◌, ◌==◌, Bool, true, false, ◌&&◌, not, Option, none, some, or_default, List, [],
  ◌∷◌, ◌++◌, if◌then◌else◌, String, ◌<>◌, utf16, text_length, is_empty,
}
use volq_auth.Base.Digits.{to_string, pad_start, repeat_text, hex_bytes}
use volq_auth.Base.Storage.{Storage, get_item, set_item}

-- What drawing on a canvas gives: an exception, no context, or the data URL.
pub data Canvas : Type 0 where
  canvas_failed no_context : Canvas
  drawn : String → Canvas

-- What WebGL gives: an exception, no context, or vendor and renderer, with the debug extension or
-- without it.
pub data WebGl : Type 0 where
  gl_failed no_gl : WebGl
  unmasked plain : String → String → WebGl

-- What the function reads of the browser. A text field holds the value as the template literal
-- prints it; `none` is a falsy value, for the screen and the time zone an exception.
pub record Device : Type 0 where
  pub has_window : Bool
  pub readable : Bool
  pub writable : Bool
  pub cores : ℕ
  pub memory : Option String
  pub platform : String
  pub language : String
  pub screen : Option (ℕ × ℕ × ℕ)
  pub pixel_ratio : Option String
  pub time_zone : Option String
  pub canvas : Canvas
  pub web_gl : WebGl
  pub has_subtle : Bool
  -- SHA-256 of the UTF-8 encoding, as `crypto.subtle.digest` returns it
  pub digest : String → List ℕ

abbrev pub storage_key : String
storage_key = "volq_device_hwid_v1"

abbrev pub no_window_hwid : String
no_window_hwid = "0000000000000000000000000000000000000000000000000000000000000000"

screen_parts : Option (ℕ × ℕ × ℕ) → Option String → List String
screen_parts none ratio = "screen:default" ∷ []
screen_parts (some (w, h, depth)) ratio =
    ("screen:" <> to_string 10 w <> "x" <> to_string 10 h <> "x" <> to_string 10 depth)
    ∷ ("dpr:" <> or_default ratio "1")
    ∷ []

time_zone_part : Option String → String
time_zone_part none = "tz:UTC"
time_zone_part (some zone) = "tz:" <> (if is_empty zone then "UTC" else zone)

canvas_parts : Canvas → List String
canvas_parts canvas_failed = "canvas:unavailable" ∷ []
canvas_parts no_context = []
canvas_parts (drawn url) = ("canvas:" <> url) ∷ []

gl_parts : WebGl → List String
gl_parts gl_failed = "gl:unavailable" ∷ []
gl_parts no_gl = []
gl_parts (unmasked vendor renderer) = ("gl:" <> vendor <> "~" <> renderer) ∷ []
gl_parts (plain vendor renderer) = ("gl:" <> vendor <> "~" <> renderer) ∷ []

-- `components.join(separator)`
join : String → List String → String
join separator [] = ""
join separator (s ∷ []) = s
join separator (s ∷ t ∷ rest) = s <> separator <> join separator (t ∷ rest)

unfoldable pub fingerprint : Device → String
unfolding screen_parts time_zone_part canvas_parts gl_parts join
fingerprint d = join "|||" (
    ("cores:" <> to_string 10 (if d.cores == 0 then 4 else d.cores))
      ∷ ("mem:" <> or_default d.memory "unknown")
      ∷ ("platform:" <> d.platform)
      ∷ ("lang:" <> d.language)
      ∷ screen_parts d.screen d.pixel_ratio
    ++ (time_zone_part d.time_zone ∷ canvas_parts d.canvas ++ gl_parts d.web_gl))

-- `Math.imul`, and `>>> 0`: a signed result and its unsigned reading are one pattern of 32 bits.
unfoldable pub imul : ℕ → ℕ → ℕ
imul a b = (a * b) % 2 ^ 32

-- the loop of the fallback hash
unfoldable pub mix : ℕ → ℕ → List ℕ → ℕ × ℕ
unfolding imul
mix h1 h2 [] = (h1, h2)
mix h1 h2 (ch ∷ rest) = mix (imul (bit_xor h1 ch) 2654435761) (imul (bit_xor h2 ch) 1597334677) rest

unfoldable pub fallback_hash : String → String
unfolding mix
fallback_hash raw =
    let (h1, h2) = mix 0xdeadbeef 0x41c6ce57 (utf16 raw) in
    repeat_text 4 (pad_start 8 (to_string 16 h1) <> pad_start 8 (to_string 16 h2))

-- The identifier of a device whose cache is not read.
unfoldable pub fresh_hwid : Device → String
fresh_hwid d =
    if d.has_subtle then hex_bytes (d.digest (fingerprint d)) else fallback_hash (fingerprint d)

-- `cached && cached.length === 64`
unfoldable pub cached_hwid : Device → Storage → Option String
cached_hwid d m = elim (if d.readable then get_item storage_key m else none) [
  | none ↦ none
  | some cached ↦ if not (is_empty cached) && text_length cached == 64 then some cached else none
]

unfoldable pub get_browser_hwid : Device → Storage → String × Storage
get_browser_hwid d m =
    if d.has_window
    then elim (cached_hwid d m) [
      | some cached ↦ (cached, m)
      | none ↦ (fresh_hwid d, if d.writable then set_item storage_key (fresh_hwid d) m else m)
    ]
    else (no_window_hwid, m)
