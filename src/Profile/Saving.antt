-- ===== src/Profile/Saving.antt =====
-- frontend/src/app/profile/[username]/edit/page.tsx: what is saved of a profile.
use jjudge.Prelude.{
  ◌≡◌, refl, sym, ap, ◌∙◌, Bool, true, false, List, [], ◌∷◌, Option, none, some, or_else, Text, lit,
}
use jjudge.Async.{set, ◌>>◌}
use jjudge.Async.Run.{Oracle, run}
use jjudge.Api.{bearer, non_empty, Failure, message}
use jjudge.Profile.{UserProfile, is_given}
use jjudge.Profile.Edit.{
  profile_address, ProfileForm, Page, Payload, Request, get_user, patch_profile, Answer, empty_form,
  initial, form_of, show_avatar, found, load, payload, saved, handle_submit,
}

-- The form after the profile was asked for. Where it does not come, the form is empty, and offered
-- all the same.
abbrev pub loaded_form : Option UserProfile → ProfileForm
loaded_form none = empty_form
loaded_form (some user) = form_of user

show_avatar-form :
    (o : Oracle Request Answer) (h : List Request) (s : Page) (b : Bool) (address : Text)
    → let out = run o h s (show_avatar b address >> set (λ s. record s { loading = false })) in
      (out.state.form ≡ s.form) × (out.state.loading ≡ false) × (out.sent ≡ h)
unfolding show_avatar
show_avatar-form o h s false address = (refl, refl, refl)
show_avatar-form o h s true address = (refl, refl, refl)

found-form :
    (o : Oracle Request Answer) (h : List Request) (base username : Text) (a : Option UserProfile)
    → let out =
        run o h initial (found base username a >> set (λ s. record s { loading = false })) in
      (out.state.form ≡ loaded_form a) × (out.state.loading ≡ false) × (out.sent ≡ h)
unfolding found initial
found-form o h base username none = (refl, refl, refl)
found-form o h base username (some user) =
    show_avatar-form o h (record initial { form = form_of user }) (is_given user.avatar_url) _

pub load-form :
    (o : Oracle Request Answer) (base username : Text)
    → let out = run o [] initial (load base username) in
      (out.state.form ≡ loaded_form (o [] (get_user username)))
      × (out.state.loading ≡ false)
      × (out.sent ≡ get_user username ∷ [])
unfolding load
load-form o base username =
    let r = get_user username in found-form o (r ∷ []) base username (o [] r)

-- The page after the answer to a submission.
abbrev pub saved_page : Text → Option Failure → Page → Page
saved_page username none s = record s {
  saving = false;
  error = none;
  visited = profile_address username ∷ s.visited;
}
saved_page username (some e) s = record s {
  saving = false;
  error = some (message (lit "Failed to save profile.") e);
}

saved_lem :
    (o : Oracle Request Answer) (h : List Request) (username : Text) (s : Page) (a : Option Failure)
    → let out =
        run o h
          (record s { saving = true; error = none })
          (saved username a >> set (λ s. record s { saving = false })) in
      (out.sent ≡ h) × (out.state ≡ saved_page username a s)
unfolding saved
saved_lem o h username s none = (refl, refl)
saved_lem o h username s (some e) = (refl, refl)

handle_submit_lem :
    (o : Oracle Request Answer) (username : Text) (t : Option Text) (s : Page)
    → let r = patch_profile (bearer t) username (payload s.form) in
      let out = run o [] s (handle_submit username t s.form) in
      (out.sent ≡ r ∷ []) × (out.state ≡ saved_page username (o [] r) s)
unfolding handle_submit
handle_submit_lem o username t s =
    let r = patch_profile (bearer t) username (payload s.form) in
    saved_lem o (r ∷ []) username s (o [] r)

-- What a profile is saved as where it is not changed: empty texts become null.
abbrev pub normalized : Option Text → Option Text
normalized o = non_empty (or_else o [])

abbrev pub unchanged : Option UserProfile → Payload
unchanged none = record {
  bio = none;
  github = none;
  codeforces = none;
  atcoder = none;
  website = none;
}
unchanged (some user) = record {
  bio = normalized user.bio;
  github = normalized user.github;
  codeforces = normalized user.codeforces;
  atcoder = normalized user.atcoder;
  website = normalized user.website;
}

payload-loaded_form : (a : Option UserProfile) → payload (loaded_form a) ≡ unchanged a
unfolding payload form_of empty_form non_empty
payload-loaded_form none = refl
payload-loaded_form (some user) = refl

-- A profile that is loaded and saved without a change is saved as it is, but for empty texts, which
-- become null; a success leads back to the profile, a failure shows a message and keeps the form. Where
-- the profile could not be loaded, the form is empty, and to save it clears every field of the profile.
pub handle_submit-load_profile :
    (o : Oracle Request Answer) (base username : Text) (t : Option Text)
    → let s = (run o [] initial (load base username)).state in
      let r = patch_profile (bearer t) username (unchanged (o [] (get_user username))) in
      let out = run o [] s (handle_submit username t s.form) in
      (s.loading ≡ false) × (out.sent ≡ r ∷ []) × (out.state ≡ saved_page username (o [] r) s)
handle_submit-load_profile o base username t =
    let s = (run o [] initial (load base username)).state in
    let l = load-form o base username in
    let e = ap payload l.0 ∙ payload-loaded_form (o [] (get_user username)) in
    let k = handle_submit_lem o username t s in (l.1, rw (sym e) k.0, rw (sym e) k.1)
