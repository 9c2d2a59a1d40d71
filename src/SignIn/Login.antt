-- ===== src/SignIn/Login.antt =====
-- frontend/src/app/login/page.tsx: the form's state and its handler. `v` is the browser when the
-- answer comes.
use jjudge.Prelude.{
  Bool, true, false, not, ◌||◌, List, [], ◌∷◌, Option, none, some, Text, lit, truthy,
}
use jjudge.Async.{Task, set, call, ◌>>=◌, ◌>>◌}
use jjudge.Auth.Store.{User, Store, Env, set_auth}
use jjudge.SignIn.{Response, Navigation, push, back, account}

pub record Login : Type 0 where
  pub username : Text
  pub password : Text
  pub loading : Bool
  pub error : Option Text
  pub store : Store
  pub visited : List Navigation

-- The parameters of the address.
pub record SearchParams : Type 0 where
  pub redirect : Option Text
  pub return_to : Option Text
  pub from : Option Text

pub data Request : Type 0 where
  post_login : Text → Text → Request

-- `none` where the promise is rejected; the body may be missing.
abbrev pub Answer : Request → Type 0
Answer (post_login username password) = Option (Option Response)

abbrev pub Handler : Type 0
Handler = Task Request Answer Login (Unit {0})

unfoldable pub is_disabled : Login → Bool
is_disabled s = s.loading || not (truthy s.username) || not (truthy s.password)

-- `a ?? b`
or_param : Option Text → Option Text → Option Text
or_param none b = b
or_param (some a) b = some a

go_to : Option Text → Navigation
go_to none = back
go_to (some []) = back
go_to (some (c ∷ path)) = push (c ∷ path)

unfoldable pub destination : SearchParams → Navigation
unfolding or_param go_to
destination q = go_to (or_param q.redirect (or_param q.return_to q.from))

unfoldable pub described : Login → User
described s = record {
  name = some s.username;
  email = none;
  username = some s.username;
  role = none;
}

unfoldable pub signed_in : Env → SearchParams → Login → Option (Option Response) → Handler
unfolding destination described
signed_in v q s none =
    set (λ s. record s { error = some (lit "Sign in failed. Check credentials and try again.") })
signed_in v q s (some r) = do
  set (λ u. record u { store = set_auth v (account r (described s)) u.store })
  set (λ u. record u { visited = destination q ∷ u.visited })

unfoldable pub handle_submit : Env → SearchParams → Login → Handler
unfolding signed_in
handle_submit v q s = do
  set (λ s. record s { loading = true })
  set (λ s. record s { error = none })
  signed_in v q s (← call (post_login s.username s.password))
  set (λ s. record s { loading = false })

-- The links of the page.
abbrev pub login_links : List Text
login_links = lit "/forgot-password" ∷ lit "/register" ∷ []
