-- ===== src/SignIn/Accounts.antt =====
-- frontend/src/app/login/page.tsx and frontend/src/app/register/page.tsx: what the two forms leave in
-- the session store.
use jjudge.Prelude.{
  ℕ, ◌≡◌, refl, Bool, true, false, List, [], ◌∷◌, Option, none, some, lit, text_eq,
}
use jjudge.Async.{set, ◌>>◌}
use jjudge.Async.Run.{Oracle, Outcome, run}
use jjudge.Auth.Store.{Env, set_auth, normalize_auth, get_auth_snapshot, Store, tick}
use jjudge.Auth.Token.{Platform}
use jjudge.Auth.Store.Session.{IsInReach}
use jjudge.Auth.Store.Session.Since.{Since}
use jjudge.SignIn.{Response, push, account}
use jjudge.SignIn.Login
use jjudge.SignIn.Registration
use jjudge.SignIn.Registration.{post_register}

-- The page after the answer.
abbrev pub logged_in :
    Env → Login.SearchParams → Option (Option Response) → Login.Login → Login.Login
logged_in v q none s = record s {
  loading = false;
  error = some (lit "Sign in failed. Check credentials and try again.");
}
logged_in v q (some r) s = record s {
  loading = false;
  error = none;
  store = set_auth v (account r (Login.described s)) s.store;
  visited = Login.destination q ∷ s.visited;
}

abbrev pub registered :
    Env → Option (Option Response) → Registration.Registration → Registration.Registration
registered v none s = record s {
  loading = false;
  error = some (lit "Registration failed. Check your details and try again.");
}
registered v (some r) s = record s {
  loading = false;
  error = none;
  store = set_auth v (account r (Registration.described s)) s.store;
  visited = push (lit "/") ∷ s.visited;
}

signed_up_lem :
    (o : Oracle Registration.Request Registration.Answer) (h : List Registration.Request) (v : Env)
    (s : Registration.Registration) (a : Option (Option Response))
    → let out =
        run o h
          (record s { loading = true; error = none })
          (Registration.signed_up v s a >> set (λ s. record s { loading = false })) in
      (out.sent ≡ h) × (out.state ≡ registered v a s)
unfolding Registration.signed_up
signed_up_lem o h v s none = (refl, refl)
signed_up_lem o h v s (some r) = (refl, refl)

-- The answer to the request of a sign-in, and what the sign-in comes to.
abbrev pub answer_of : Oracle Login.Request Login.Answer → Login.Login → Option (Option Response)
answer_of o s = o [] (Login.post_login s.username s.password)

abbrev pub submitted :
    Oracle Login.Request Login.Answer
    → Env
    → Login.SearchParams
    → Login.Login
    → Outcome Login.Request Login.Login (Unit {0})
submitted o v q s = run o [] s (Login.handle_submit v q s)

-- The token of the account that an answer signs in, if any, is not good for 2^31 ms or longer.
abbrev pub IsAnswerInReach : Platform → ℕ → Login.Login → Option (Option Response) → Type 0
IsAnswerInReach p now s none = Unit {0}
IsAnswerInReach p now s (some a) = IsInReach p now (account a (Login.described s))

-- Where the answer signs in, the components read its account in the store `u`, once the timers that are
-- due have run.
abbrev pub IsGiven : Env → Login.Login → Store → Option (Option Response) → Type 0
IsGiven v s u none = Unit {0}
IsGiven v s u (some a) =
    (get_auth_snapshot v (tick v u)).0 ≡ normalize_auth v (account a (Login.described s))

-- What the registration comes to, given whether the two passwords agree.
abbrev pub Confirmed :
    Bool
    → Oracle Registration.Request Registration.Answer
    → Env
    → Registration.Registration
    → Outcome Registration.Request Registration.Registration (Unit {0})
    → Type 0
Confirmed false o v s out =
    (out.sent ≡ []) × (out.state ≡ record s { error = some (lit "Passwords do not match.") })
Confirmed true o v s out =
    let r = post_register (Registration.given s.name) s.username s.email s.password in
    (out.sent ≡ r ∷ []) × (out.state ≡ registered v (o [] r) s)

confirmed_lem :
    (o : Oracle Registration.Request Registration.Answer) (v : Env) (s : Registration.Registration)
    (b : Bool)
    → Confirmed b o v s (run o [] s (Registration.confirmed v s b))
unfolding Registration.confirmed Registration.send
confirmed_lem o v s false = (refl, refl)
confirmed_lem o v s true =
    signed_up_lem o (post_register (Registration.given s.name) s.username s.email s.password ∷ []) v
      s (o [] (post_register (Registration.given s.name) s.username s.email s.password))

-- A registration whose two passwords differ sends nothing and says so. Any other asks the server once,
-- with what is in the form, an empty name left out; a success stores the account of the answer and goes
-- to the first page, a failure changes nothing but the message, and in both cases the form can be sent
-- again.
pub handle_submit-Confirmed :
    (o : Oracle Registration.Request Registration.Answer) (v : Env) (s : Registration.Registration)
    → Confirmed (text_eq s.password s.confirm) o v s (run o [] s (Registration.handle_submit v s))
unfolding Registration.handle_submit
handle_submit-Confirmed o v s = confirmed_lem o v s (text_eq s.password s.confirm)
