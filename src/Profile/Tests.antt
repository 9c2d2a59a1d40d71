-- ===== src/Profile/Tests.antt =====
-- The theorems on profiles at concrete inputs.
use jjudge.Prelude.{◌≡◌, refl, false, [], ◌∷◌, none, some, lit, starts_with, to_upper_case, All}
use jjudge.Async.Run.{Oracle, run}
use jjudge.Api.{bearer}
use jjudge.Profile.{
  UserProfile, github, codeforces, atcoder, website, href, links, initial_of, given_or,
}
use jjudge.Profile.Links.{IsSound, links_of, links-IsSound}
use jjudge.Profile.Edit.{
  Request, get_user, post_avatar, patch_profile, Answer, taken, initial, load, handle_submit,
}
use jjudge.Profile.Saving.{unchanged, saved_page, handle_submit-load_profile}

abbrev ada : UserProfile
ada = record {
  username = lit "ada";
  name = some (lit "Ada");
  bio = none;
  github = some (lit "ada");
  codeforces = none;
  atcoder = some [];
  website = some (lit "httpbin.org");
  created_at = none;
  role = none;
  avatar_url = none;
}

initial_of_test : initial_of ada ≡ lit "A"
unfolding initial_of given_or lit to_upper_case
initial_of_test = refl

-- An address without a scheme that begins with "http" is linked as it is.
href_test : href website (lit "httpbin.org") ≡ lit "httpbin.org"
unfolding href starts_with lit
href_test = refl

links-IsSound_example :
    (links ada ≡ links_of ada (github ∷ codeforces ∷ atcoder ∷ website ∷ []))
    × All IsSound (links ada)
links-IsSound_example = links-IsSound ada

-- A server that cannot give the profile, and takes everything.
abbrev lost : Oracle Request Answer
lost h (get_user u) = none
lost h (post_avatar t u f) = taken 0
lost h (patch_profile t u p) = none

handle_submit-load_profile_example :
    let s = (run lost [] initial (load (lit "http://localhost:8080") (lit "ada"))).state in
    let r = patch_profile (bearer (some (lit "t"))) (lit "ada") (unchanged none) in
    let out = run lost [] s (handle_submit (lit "ada") (some (lit "t")) s.form) in
    (s.loading ≡ false) × (out.sent ≡ r ∷ []) × (out.state ≡ saved_page (lit "ada") (lost [] r) s)
handle_submit-load_profile_example =
    handle_submit-load_profile lost (lit "http://localhost:8080") (lit "ada") (some (lit "t"))
