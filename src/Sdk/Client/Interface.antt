-- ===== src/Sdk/Client/Interface.antt =====
-- What the client uses of the browser and of the server: parameters of the model.
use volq_auth.Base.{ℕ, Bool, ◌&&◌, leb, ltb, List, String, Result}
use volq_auth.Base.Storage.{Storage}
use volq_auth.Base.Value.{Value}
use volq_auth.Sdk.Hwid.{Device}

-- A POST with the header `Content-Type: application/json`.
pub record HttpRequest : Type 0 where
  pub url : String
  pub body : String

pub record Response : Type 0 where
  pub status : ℕ
  pub json : Result String Value

-- `resp.ok`
abbrev pub is_ok : ℕ → Bool
is_ok status = leb 200 status && ltb status 300

pub data Reply : Type 0 where
  failed : String → Reply
  answered : Response → Reply

-- A function that throws gives the message of its exception. The server's answer may depend on all
-- that it was sent, the answered request last.
pub record Platform : Type 0 where
  pub device : Device
  pub has_random : Bool
  pub has_btoa : Bool
  pub has_atob : Bool
  pub random_byte : ℕ → ℕ → ℕ
  pub clock : ℕ → ℕ
  pub stringify : Value → String
  pub parse : String → Result String Value
  pub utf8 : String → List ℕ
  pub utf8_decode : List ℕ → Result String String
  pub utf8_replace : List ℕ → String
  pub btoa : List ℕ → String
  pub atob : Value → Result String (List ℕ)
  pub buffer_base64 : List ℕ → String
  pub buffer_from : Value → Result String (List ℕ)
  pub no_member : String → String
  pub respond : List HttpRequest → Reply

-- The world beside the client object: storage, requests sent, draws of random bytes, reads of the
-- clock.
pub record World : Type 0 where
  pub storage : Storage
  pub sent : List HttpRequest
  pub draws : ℕ
  pub reads : ℕ
