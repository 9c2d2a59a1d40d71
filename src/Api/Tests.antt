-- ===== src/Api/Tests.antt =====
-- The client at concrete inputs.
use jjudge.Prelude.{ℕ, ◌≡◌, refl, false, [], ◌∷◌, none, lit}
use jjudge.Api.{
  json, Headers, request_headers, search_params, text, missing, normalized_path, plain, request,
  payload_of, throws,
}
use jjudge.Api.Headers.{header, default_header, last_header, header-request_headers}

normalized_path_test : normalized_path (lit "/problems") ≡ lit "problems"
unfolding normalized_path lit
normalized_path_test = refl

search_params_test :
    search_params ((lit "page", missing) ∷ (lit "tag", text (lit "dp")) ∷ [])
    ≡ (lit "tag", lit "dp") ∷ []
unfolding search_params
search_params_test = refl

-- A refusal without JSON is thrown with its text.
request_test :
    request {J = ℕ} (record {
      status = 502;
      ok = false;
      content_type = none;
      json = none;
      text = lit "Bad Gateway";
    })
    ≡ throws 502 (plain (lit "Bad Gateway"))
unfolding request payload_of
request_test = refl

abbrev signed : Headers
signed = (lit "Authorization", lit "Bearer token") ∷ []

header-request_headers_example :
    header (lit "Content-Type") (request_headers {F = ℕ} (json (lit "{}")) signed)
    ≡ last_header
        (lit "Content-Type")
        (default_header {F = ℕ} (lit "Content-Type") (json (lit "{}")))
        signed
header-request_headers_example =
    header-request_headers {F = ℕ} (lit "Content-Type") (json (lit "{}")) signed
