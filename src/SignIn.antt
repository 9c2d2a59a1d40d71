-- ===== src/SignIn.antt =====
-- frontend/src/app/login/page.tsx and frontend/src/app/register/page.tsx: the two forms that sign a
-- user in.
pub mod Login
pub mod Registration
pub mod Accounts
mod Tests
use jjudge.Prelude.{Option, none, some, or_else, Text, lit}
use jjudge.Auth.Store.{User, StoredAuth}

pub record Response : Type 0 where
  pub token : Option Text
  pub user : Option User

-- `router.push(path)` and `router.back()`
pub data Navigation : Type 0 where
  push : Text → Navigation
  back : Navigation

abbrev no_response : Response
no_response = record { token = none; user = none }

-- What is stored for a response, which may be missing, and the user that the form describes.
unfoldable pub account : Option Response → User → StoredAuth
account r described = record {
  token = some (or_else (or_else r no_response).token (lit "dev-token"));
  user = some (or_else (or_else r no_response).user described);
}
