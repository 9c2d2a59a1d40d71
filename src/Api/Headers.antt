-- ===== src/Api/Headers.antt =====
-- frontend/src/lib/api.ts: which headers a request has.
use jjudge.Prelude.{
  ◌≡◌, refl, sym, ap, ◌∙◌, Bool, true, false, ◌&&◌, Bool-cases, inl, inr, [], ◌∷◌, Option, none,
  some, Text, lit, text_eq, text_eq_sound, text_eq_refl, if◌then◌else◌,
}
use jjudge.Api.{
  Body, absent, form, json, serialize_body, Headers, with_header, spread, content_type_of,
  request_headers,
}

-- The value of a field; of two the last one counts, and with_header keeps one.
abbrev pub header : Text → Headers → Option Text
header name [] = none
header name ((k, v) ∷ hs) = let rest = header name hs in if text_eq k name then some v else rest

-- The value that the object literal has for the field: the last one given, or the first one's.
abbrev pub last_header : Text → Option Text → Headers → Option Text
last_header name d [] = d
last_header name d ((k, v) ∷ hs) = last_header name (if text_eq k name then some v else d) hs

if_else_same :
    (b : Bool) (x y z : Option Text)
    → (if b then x else y) ≡ (if b then x else (if b then z else y))
if_else_same true x y z = refl
if_else_same false x y z = refl

if_swap :
    (a b : Bool) (x y z : Option Text)
    → (a ≡ true → b ≡ true → ⊥)
    → (if a then y else (if b then x else z)) ≡ (if b then x else (if a then y else z))
if_swap true true x y z h = absurd (h refl refl)
if_swap true false x y z h = refl
if_swap false b x y z h = refl

-- Two keys that differ are not both `name`.
differ :
    (name k key : Text)
    → text_eq k key ≡ false
    → text_eq k name ≡ true
    → text_eq key name ≡ true
    → ⊥
differ name k key h a b =
    let e : k ≡ key = text_eq_sound k name a ∙ sym (text_eq_sound key name b) in
    let t : text_eq k key ≡ true = rw e (text_eq_refl key) in cc

header-with_header :
    (name : Text) (hs : Headers) (key value : Text)
    → header name (with_header hs key value)
      ≡ (if text_eq key name then some value else header name hs)
unfolding with_header
header-with_header name [] key value = refl
header-with_header name ((k, v) ∷ hs) key value =
    let ih = header-with_header name hs key value in
    elim (Bool-cases (text_eq k key)) [
      | inl h ↦ rw h (
          rw (text_eq_sound k key h)
            (if_else_same (text_eq key name) (some value) (header name hs) (some v)))
      | inr h ↦ rw h (
          rw ih (
            if_swap (text_eq k name) (text_eq key name) (some value) (some v) (header name hs)
              (differ name k key h)))
    ]

header-spread :
    (name : Text) (hs others : Headers)
    → header name (spread hs others) ≡ last_header name (header name hs) others
unfolding spread
header-spread name hs [] = refl
header-spread name hs ((key, value) ∷ others) =
    header-spread name (with_header hs key value) others
    ∙ ap (λ d. last_header name d others) (header-with_header name hs key value)

-- Whether a body is sent as JSON: it is neither missing, nor a form, nor an empty text.
abbrev pub is_json_body : {F : Type 0} → Body F → Bool
is_json_body absent = false
is_json_body (form f) = false
is_json_body (json []) = false
is_json_body (json (c ∷ t)) = true

-- The headers that the client chooses.
abbrev pub default_header : {F : Type 0} → Text → Body F → Option Text
default_header name body =
    if text_eq (lit "Accept") name
    then some (lit "application/json")
    else if is_json_body body && text_eq (lit "Content-Type") name
    then some (lit "application/json")
    else none

type_or_accept : text_eq (lit "Content-Type") (lit "Accept") ≡ false
unfolding text_eq lit
type_or_accept = refl

own_headers-default :
    {F : Type 0} (name : Text) (body : Body F)
    → header name (
        spread
          ((lit "Accept", lit "application/json") ∷ [])
          (content_type_of (serialize_body body)))
      ≡ default_header name body
unfolding content_type_of serialize_body
own_headers-default name absent = header-spread name _ []
own_headers-default name (form f) = header-spread name _ []
own_headers-default name (json []) = header-spread name _ []
own_headers-default name (json (c ∷ t)) =
    let value = some (lit "application/json") in
    header-spread name _ ((lit "Content-Type", lit "application/json") ∷ [])
    ∙ if_swap (text_eq (lit "Content-Type") name) (text_eq (lit "Accept") name) value value none
        (differ name (lit "Content-Type") (lit "Accept") type_or_accept)

-- A request has every header that the page gives it, such as the token's, with the page's value. Of
-- the others it accepts JSON, and it says that it sends JSON exactly where its body is a value with a
-- JSON text, and not a form, whose type is left to the browser, and not missing.
pub header-request_headers :
    {F : Type 0} (name : Text) (body : Body F) (headers : Headers)
    → header name (request_headers body headers)
      ≡ last_header name (default_header name body) headers
unfolding request_headers
header-request_headers name body headers =
    header-spread name _ headers
    ∙ ap (λ d. last_header name d headers) (own_headers-default name body)
