-- ===== src/Api.antt =====
-- frontend/src/lib/api.ts: the client that all pages ask the server through, and how the pages read
-- what it throws. `fetch`, `URL` and JSON are the browser's: `J` is the type of parsed JSON, and a body
-- comes with its text.
pub mod Headers
mod Tests
use jjudge.Prelude.{
  ℕ, Bool, true, false, List, [], ◌∷◌, ◌++◌, Option, none, some, or_else, Text, lit, ◌==◌, text_eq,
  includes, to_string, if◌then◌else◌,
}

-- What a query may hold; `missing` is null or undefined.
pub data QueryValue : Type 0 where
  text : Text → QueryValue
  number : ℕ → QueryValue
  boolean : Bool → QueryValue
  missing : QueryValue

-- `String(value)`
query_text : QueryValue → Option Text
query_text (text t) = some t
query_text (number n) = some (to_string n)
query_text (boolean true) = some (lit "true")
query_text (boolean false) = some (lit "false")
query_text missing = none

append_param : Text → Option Text → List (Text × Text) → List (Text × Text)
append_param key none ps = ps
append_param key (some value) ps = (key, value) ∷ ps

-- The search parameters that `buildUrl` appends.
unfoldable pub search_params : List (Text × QueryValue) → List (Text × Text)
unfolding query_text append_param
search_params [] = []
search_params ((key, value) ∷ query) = append_param key (query_text value) (search_params query)

-- `path.startsWith("/") ? path.slice(1) : path`
unfoldable pub normalized_path : Text → Text
normalized_path [] = []
normalized_path (c ∷ path) = if c == b'/' then path else c ∷ path

-- A body: null or undefined, a form, or a value with its JSON text.
pub data Body (F : Type 0) : Type 0 where
  absent : Body F
  form : F → Body F
  json : Text → Body F

pub data Serialized (F : Type 0) : Type 0 where
  nothing : Serialized F
  form_data : F → Serialized F
  json_text : Text → Serialized F

unfoldable pub serialize_body : {F : Type 0} → Body F → Serialized F
serialize_body absent = nothing
serialize_body (form f) = form_data f
serialize_body (json t) = json_text t

abbrev pub Headers : Type 0
Headers = List (Text × Text)

-- The fields of an object literal: `{ ...headers, key: value }`
unfoldable pub with_header : Headers → Text → Text → Headers
with_header [] key value = (key, value) ∷ []
with_header ((k, v) ∷ hs) key value =
    let rest = with_header hs key value in
    if text_eq k key then (key, value) ∷ hs else (k, v) ∷ rest

-- `{ ...headers, ...others }`
unfoldable pub spread : Headers → Headers → Headers
unfolding with_header
spread headers [] = headers
spread headers ((key, value) ∷ others) = spread (with_header headers key value) others

-- `!isFormData && serializedBody ? { "Content-Type": "application/json" } : {}`
content_type_of : {F : Type 0} → Serialized F → Headers
content_type_of nothing = []
content_type_of (form_data f) = []
content_type_of (json_text []) = []
content_type_of (json_text (c ∷ t)) = (lit "Content-Type", lit "application/json") ∷ []

unfoldable pub request_headers : {F : Type 0} → Body F → Headers → Headers
unfolding content_type_of serialize_body spread
request_headers body headers =
    spread
      (spread ((lit "Accept", lit "application/json") ∷ []) (content_type_of (serialize_body body)))
      headers

-- What `fetch` gives. `json` is none where the body cannot be parsed.
pub record Response (J : Type 0) : Type 0 where
  pub status : ℕ
  pub ok : Bool
  pub content_type : Option Text
  pub json : Option J
  pub text : Text

pub data Payload (J : Type 0) : Type 0 where
  parsed : Option J → Payload J
  plain : Text → Payload J

is_json : Option Text → Bool
is_json none = false
is_json (some t) = includes t (lit "application/json")

unfoldable pub payload_of : {J : Type 0} → Response J → Payload J
unfolding is_json
payload_of response =
    if is_json response.content_type then parsed response.json else plain response.text

-- What `request` returns or throws.
pub data Result (J : Type 0) : Type 0 where
  returns : Payload J → Result J
  throws : ℕ → Payload J → Result J

unfoldable pub request : {J : Type 0} → Response J → Result J
unfolding payload_of
request response =
    let payload = payload_of response in
    if response.ok then returns payload else throws response.status payload

-- `text || undefined` and `text || null`
unfoldable pub non_empty : Text → Option Text
non_empty [] = none
non_empty (c ∷ s) = some (c ∷ s)

-- The header `Authorization`: a missing token is written out as "null".
unfoldable pub bearer : Option Text → Text
bearer none = lit "Bearer null"
bearer (some token) = lit "Bearer " ++ token

-- What a rejected promise holds: an `ApiError`, whose data may have a text under `error`, or any other
-- error.
pub data Failure : Type 0 where
  api_error : Option Text → Failure
  other_error : Failure

-- `err instanceof ApiError ? (err.data?.error ?? fallback) : fallback`
unfoldable pub message : Text → Failure → Text
message fallback (api_error e) = or_else e fallback
message fallback other_error = fallback
