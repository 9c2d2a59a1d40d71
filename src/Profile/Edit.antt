-- ===== src/Profile/Edit.antt =====
-- frontend/src/app/profile/[username]/edit/page.tsx: the page on which users edit their profiles.
-- `username` is the one in the page's address, and `base` is `getApiBaseUrl()`.
use jjudge.Prelude.{
  ℕ, Bool, true, false, List, [], ◌∷◌, ◌++◌, Option, none, some, or_else, Text, lit, text_eq,
  to_string, if◌then◌else◌,
}
use jjudge.Async.{Task, set, call, done, ◌>>=◌, ◌>>◌}
use jjudge.Api.{bearer, non_empty, Failure, message}
use jjudge.Profile.{UserProfile, is_given}

abbrev pub File : Type 0
File = ℕ

pub record ProfileForm : Type 0 where
  pub bio : Text
  pub github : Text
  pub codeforces : Text
  pub atcoder : Text
  pub website : Text

-- `visited` logs what `router.push` and `router.replace` were given, the last one first.
pub record Page : Type 0 where
  pub form : ProfileForm
  pub avatar_url : Option Text
  pub avatar_preview : Option Text
  pub uploading_avatar : Bool
  pub avatar_error : Option Text
  pub loading : Bool
  pub saving : Bool
  pub error : Option Text
  pub visited : List Text

-- The body of the request that saves; `none` is null.
pub record Payload : Type 0 where
  pub bio : Option Text
  pub github : Option Text
  pub codeforces : Option Text
  pub atcoder : Option Text
  pub website : Option Text

-- The requests with the name of the user, and the header where they have one.
pub data Request : Type 0 where
  get_user : Text → Request
  post_avatar : Text → Text → File → Request
  patch_profile : Text → Text → Payload → Request

-- An avatar is taken at some time, which is `Date.now()` after the answer, or refused.
pub data Upload : Type 0 where
  refused : Failure → Upload
  taken : ℕ → Upload

-- `none` where the profile cannot be loaded, and where it is saved.
abbrev pub Answer : Request → Type 0
Answer (get_user u) = Option UserProfile
Answer (post_avatar header u f) = Upload
Answer (patch_profile header u p) = Option Failure

abbrev pub Handler : Type 0
Handler = Task Request Answer Page (Unit {0})

unfoldable pub empty_form : ProfileForm
empty_form = record { bio = []; github = []; codeforces = []; atcoder = []; website = [] }

unfoldable pub initial : Page
unfolding empty_form
initial = record {
  form = empty_form;
  avatar_url = none;
  avatar_preview = none;
  uploading_avatar = false;
  avatar_error = none;
  loading = true;
  saving = false;
  error = none;
  visited = [];
}

unfoldable pub profile_address : Text → Text
profile_address username = lit "/profile/" ++ username

-- The effect that redirects, given the name of the user who is signed in, if any.
unfoldable pub redirect : Option Text → Text → Handler
unfolding profile_address
redirect none username = done
redirect (some name) username =
    if text_eq name username
    then done
    else set (λ s. record s { visited = profile_address username ∷ s.visited })

unfoldable pub form_of : UserProfile → ProfileForm
form_of user = record {
  bio = or_else user.bio [];
  github = or_else user.github [];
  codeforces = or_else user.codeforces [];
  atcoder = or_else user.atcoder [];
  website = or_else user.website [];
}

avatar_address : Text → Text → Text
avatar_address base username = base ++ (lit "/users/" ++ (username ++ lit "/avatar"))

-- `if (user.avatar_url) { setAvatarUrl(...); }`
unfoldable pub show_avatar : Bool → Text → Handler
show_avatar false address = done
show_avatar true address = set (λ s. record s { avatar_url = some address })

unfoldable pub found : Text → Text → Option UserProfile → Handler
unfolding form_of is_given avatar_address show_avatar
found base username none = set (λ s. record s { error = some (lit "Failed to load profile.") })
found base username (some user) = do
  set (λ s. record s { form = form_of user })
  show_avatar (is_given user.avatar_url) (avatar_address base username)

-- The effect that loads.
unfoldable pub load : Text → Text → Handler
unfolding found
load base username = do
  found base username (← call (get_user username))
  set (λ s. record s { loading = false })

unfoldable pub uploaded : Text → Text → Upload → Handler
unfolding avatar_address message
uploaded base username (taken now) = set (λ s. record s {
  avatar_url = some (avatar_address base username ++ (lit "?t=" ++ to_string now));
})
uploaded base username (refused e) = do
  set (λ s. record s { avatar_error = some (message (lit "Failed to upload avatar.") e) })
  set (λ s. record s { avatar_preview = none })

-- `object_url` is what `URL.createObjectURL` makes of the file, if one was chosen.
unfoldable pub handle_avatar_change : Text → Text → Option Text → Option (File × Text) → Handler
unfolding uploaded bearer
handle_avatar_change base username token none = done
handle_avatar_change base username token (some (file, object_url)) = do
  set (λ s. record s { avatar_preview = some object_url })
  set (λ s. record s { uploading_avatar = true })
  set (λ s. record s { avatar_error = none })
  uploaded base username (← call (post_avatar (bearer token) username file))
  set (λ s. record s { uploading_avatar = false })

unfoldable pub payload : ProfileForm → Payload
unfolding non_empty
payload form = record {
  bio = non_empty form.bio;
  github = non_empty form.github;
  codeforces = non_empty form.codeforces;
  atcoder = non_empty form.atcoder;
  website = non_empty form.website;
}

unfoldable pub saved : Text → Option Failure → Handler
unfolding profile_address message
saved username none = set (λ s. record s { visited = profile_address username ∷ s.visited })
saved username (some e) =
    set (λ s. record s { error = some (message (lit "Failed to save profile.") e) })

unfoldable pub handle_submit : Text → Option Text → ProfileForm → Handler
unfolding saved payload bearer
handle_submit username token form = do
  set (λ s. record s { saving = true })
  set (λ s. record s { error = none })
  saved username (← call (patch_profile (bearer token) username (payload form)))
  set (λ s. record s { saving = false })

-- `avatarPreview ?? avatarUrl`, where one of them is not empty.
unfoldable pub shown_avatar : Page → Option Text
shown_avatar s = elim s.avatar_preview [ none ↦ s.avatar_url | some t ↦ some t ]

-- The names of the inputs, and `handleChange`.
pub data Field : Type 0 where
  bio github codeforces atcoder website : Field

unfoldable pub handle_change : Field → Text → ProfileForm → ProfileForm
handle_change bio value prev = record prev { bio = value }
handle_change github value prev = record prev { github = value }
handle_change codeforces value prev = record prev { codeforces = value }
handle_change atcoder value prev = record prev { atcoder = value }
handle_change website value prev = record prev { website = value }
