-- ===== src/Ingest/Auth.antt =====
-- crates/ingest/src/auth.rs: what is signed, and the headers of a signed request. The RSA key and
-- the clock are parameters: a key signs a message or fails, and the clock shows the milliseconds
-- since the epoch, or nothing before it.
pub mod Query
pub mod Examples
use kalshi_alpha.Prelude.{
  ℕ, Option, none, some, List, [], ◌∷◌, ◌++◌, ◌==◌, if◌then◌else◌, Result, ok, err, ◌>>=◌,
}
use kalshi_alpha.Prelude.Text.{Text, codes}
use kalshi_alpha.Common.Parse.{decimal}

abbrev pub ws_signing_path : Text
ws_signing_path = codes "/trade-api/ws/v2"

pub data AuthError : Type 0 where
  read_key decode_key : (path : Text) → AuthError
  clock_before_epoch sign_failed : AuthError
  decode_public_key : (origin : Text) → AuthError

unfoldable pub timestamp_ms_now : Option ℕ → Result AuthError Text
unfolding decimal
timestamp_ms_now none = err clock_before_epoch
timestamp_ms_now (some millis) = ok (decimal millis millis)

unfoldable pub path_without_query : Text → Text
path_without_query [] = []
path_without_query (c ∷ s) = let rest = path_without_query s in if c == b'?' then [] else c ∷ rest

unfoldable pub signing_message : (timestamp_ms method path : Text) → Text
unfolding path_without_query
signing_message timestamp_ms method path = timestamp_ms ++ (method ++ path_without_query path)

-- The key gives the signature of a message in base64. RSA-PSS is randomized: the function is the key
-- together with what the random generator gives it.
pub record Credentials : Type 0 where
  pub key_id : Text
  pub signing_key : Text → Option Text

pub record SignedHeaders : Type 0 where
  pub access_key : Text
  pub signature : Text
  pub timestamp : Text

unfoldable pub as_pairs : SignedHeaders → List (Text × Text)
as_pairs h =
    (codes "KALSHI-ACCESS-KEY", h.access_key)
    ∷ (codes "KALSHI-ACCESS-SIGNATURE", h.signature)
    ∷ (codes "KALSHI-ACCESS-TIMESTAMP", h.timestamp)
    ∷ []

-- `from_pem`, with what decodes a key.
unfoldable pub from_pem :
    (Text → Option (Text → Option Text)) → (key_id pem origin : Text) → Result AuthError Credentials
from_pem decode key_id pem origin = elim (decode pem) [
  | none ↦ err (decode_key origin)
  | some key ↦ ok (record { key_id = key_id; signing_key = key })
]

-- `from_pem_file`, with what the file holds.
unfoldable pub from_pem_file :
    (Text → Option (Text → Option Text))
    → (key_id path : Text) → Option Text
    → Result AuthError Credentials
unfolding from_pem
from_pem_file decode key_id path none = err (read_key path)
from_pem_file decode key_id path (some pem) = from_pem decode key_id pem path

-- The headers, from the signature of the message.
abbrev pub headers_of : Credentials → Text → Option Text → Result AuthError SignedHeaders
headers_of c timestamp_ms none = err sign_failed
headers_of c timestamp_ms (some signature) =
    ok (record { access_key = c.key_id; signature = signature; timestamp = timestamp_ms })

unfoldable pub sign :
    Credentials → (method path timestamp_ms : Text) → Result AuthError SignedHeaders
unfolding signing_message
sign c method path timestamp_ms =
    headers_of c timestamp_ms (c.signing_key (signing_message timestamp_ms method path))

unfoldable pub sign_rest :
    Credentials → Option ℕ → (method path : Text) → Result AuthError SignedHeaders
unfolding sign timestamp_ms_now
sign_rest c clock method path = do timestamp ← timestamp_ms_now clock; sign c method path timestamp

unfoldable pub sign_websocket_upgrade : Credentials → Option ℕ → Result AuthError SignedHeaders
unfolding sign timestamp_ms_now
sign_websocket_upgrade c clock = do
  timestamp ← timestamp_ms_now clock
  sign c (codes "GET") ws_signing_path timestamp
