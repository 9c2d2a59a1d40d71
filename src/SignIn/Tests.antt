-- ===== src/SignIn/Tests.antt =====
-- The theorem on signing in, at a concrete answer and time.
use jjudge.Prelude.{false, none, some, [], Option, lit}
use jjudge.Async.Run.{Oracle}
use jjudge.Auth.Token.{Platform, number, absent}
use jjudge.Auth.Store.{Store, initial, browser}
use jjudge.Auth.Store.Guarded.{render, step}
use jjudge.SignIn.{Response}
use jjudge.SignIn.Login
use jjudge.SignIn.Accounts.{submitted}

-- Every token of this browser expires after 20 seconds.
abbrev platform : Platform
platform = record {
  parse = λ s. some (record { exp = number 20; user_id = absent; sub = absent; id = absent });
  to_number = λ s. none;
}

abbrev response : Option Response
response = some (record { token = some (lit "h.p.s"); user = none })

abbrev login : Login.Login
login = record {
  username = lit "ada";
  password = lit "secret";
  loading = false;
  error = none;
  store = initial none;
  visited = [];
}

abbrev address : Login.SearchParams
address = record { redirect = none; return_to = some (lit "/contests"); from = none }

abbrev accept : Oracle Login.Request Login.Answer
accept h (Login.post_login u w) = some response

-- The store after the sign-in, once a component has been rendered at time 10.
abbrev rendered : Store
rendered =
    step (browser platform 10) render
      (submitted accept (browser platform 5) address login).state.store
