-- ===== src/SignIn/Registration.antt =====
-- frontend/src/app/register/page.tsx: the form's state and its handler. `v` is the browser when the
-- answer comes.
use jjudge.Prelude.{
  Bool, true, false, not, ◌||◌, List, [], ◌∷◌, Option, none, some, Text, lit, truthy, text_eq,
  split,
}
use jjudge.Async.{Task, set, call, ◌>>=◌, ◌>>◌}
use jjudge.Auth.Store.{User, Store, Env, set_auth}
use jjudge.SignIn.{Response, Navigation, push, account}

pub record Registration : Type 0 where
  pub name : Text
  pub username : Text
  pub email : Text
  pub password : Text
  pub confirm : Text
  pub loading : Bool
  pub error : Option Text
  pub store : Store
  pub visited : List Navigation

-- The name, if it is not empty, the user's name, the address and the password.
pub data Request : Type 0 where
  post_register : Option Text → Text → Text → Text → Request

-- `none` where the promise is rejected; the body may be missing.
abbrev pub Answer : Request → Type 0
Answer (post_register name username email password) = Option (Option Response)

abbrev pub Handler : Type 0
Handler = Task Request Answer Registration (Unit {0})

unfoldable pub is_disabled : Registration → Bool
is_disabled s =
    s.loading
    || not (truthy s.email)
    || not (truthy s.password)
    || not (truthy s.username)
    || not (text_eq s.password s.confirm)

-- `name || undefined`
unfoldable pub given : Text → Option Text
given [] = none
given (c ∷ s) = some (c ∷ s)

-- `a || b`
or_name : Text → Text → Text
or_name [] b = b
or_name (c ∷ s) b = c ∷ s

first_part : List Text → Text
first_part [] = []
first_part (p ∷ ps) = p

unfoldable pub described : Registration → User
unfolding or_name first_part
described s = record {
  name = some (or_name s.name (or_name s.username (first_part (split b'@' s.email))));
  email = some s.email;
  username = some s.username;
  role = none;
}

unfoldable pub signed_up : Env → Registration → Option (Option Response) → Handler
unfolding described
signed_up v s none =
    set (λ s. record s {
      error = some (lit "Registration failed. Check your details and try again.");
    })
signed_up v s (some r) = do
  set (λ u. record u { store = set_auth v (account r (described s)) u.store })
  set (λ u. record u { visited = push (lit "/") ∷ u.visited })

unfoldable pub send : Env → Registration → Handler
unfolding signed_up given
send v s = do
  set (λ s. record s { loading = true })
  set (λ s. record s { error = none })
  signed_up v s (← call (post_register (given s.name) s.username s.email s.password))
  set (λ s. record s { loading = false })

unfoldable pub confirmed : Env → Registration → Bool → Handler
unfolding send
confirmed v s false = set (λ s. record s { error = some (lit "Passwords do not match.") })
confirmed v s true = send v s

unfoldable pub handle_submit : Env → Registration → Handler
unfolding confirmed
handle_submit v s = confirmed v s (text_eq s.password s.confirm)

-- The link of the page.
abbrev pub register_link : Text
register_link = lit "/login"
