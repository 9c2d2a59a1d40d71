-- ===== src/ProblemContent/Views.antt =====
-- What the page of a problem comes to show.
use jjudge.Prelude.{
  ◌≡◌, refl, Bool, true, false, List, [], ◌∷◌, Option, none, some, ◌==◌, if◌then◌else◌, Text,
}
use jjudge.Async.Run.{Oracle, run}
use jjudge.ProblemContent.{
  Request, get_problem, Result, failed, found, Answer, initial, header_of, loaded, set_not_found,
  load, shown, View, not_found, loading, problem_page, view_of, view,
}

-- The view after each answer.
abbrev pub view_after : Result → View
view_after (found none) = loading
view_after (found (some p)) = problem_page (shown p)
view_after (failed none) = loading
view_after (failed (some status)) = if status == 404 then not_found else loading

set_not_found-view :
    (o : Oracle Request Answer) (h : List Request) (b : Bool)
    → let out = run o h initial (set_not_found b) in
      (out.sent ≡ h) × (view out.state ≡ (if b then not_found else loading))
unfolding set_not_found view view_of initial
set_not_found-view o h true = (refl, refl)
set_not_found-view o h false = (refl, refl)

loaded-view :
    (o : Oracle Request Answer) (h : List Request) (a : Result)
    → let out = run o h initial (loaded a) in (out.sent ≡ h) × (view out.state ≡ view_after a)
unfolding loaded view view_of initial
loaded-view o h (found none) = (refl, refl)
loaded-view o h (found (some p)) = (refl, refl)
loaded-view o h (failed none) = (refl, refl)
loaded-view o h (failed (some status)) = set_not_found-view o h (status == 404)

-- The page of a problem asks for it once. It shows the problem where there is one, and that
-- there is none where the server answers 404. After any other failure, and after an empty answer, it
-- goes on to say that it is loading.
pub load-view :
    (o : Oracle Request Answer) (token : Option Text) (id : Text)
    → let r = get_problem (header_of token) id in
      let out = run o [] initial (load token id) in
      (out.sent ≡ r ∷ []) × (view out.state ≡ view_after (o [] r))
unfolding load
load-view o token id = let r = get_problem (header_of token) id in loaded-view o (r ∷ []) (o [] r)
