-- ===== src/Approvals.antt =====
-- frontend/src/app/admin/approvals/page.tsx: the queues of problems and contests that wait for an
-- administrator. The two requests of `Promise.all` are one here.
pub mod Decisions
mod Tests
use jjudge.Prelude.{
  ℕ, Bool, true, false, List, [], ◌∷◌, ◌++◌, Option, none, some, or_else, Text, lit, to_string,
}
use jjudge.Async.{Task, ret, done, set, call, ◌>>=◌, ◌>>◌}

pub record Problem : Type 0 where
  pub id : ℕ
  pub title : Option Text
  pub difficulty : Option ℕ
  pub visibility : Option Text
  pub approval_status : Text
  pub creator_id : Option ℕ

pub record Contest : Type 0 where
  pub id : ℕ
  pub title : Text
  pub approval_status : Text
  pub owner_id : Option ℕ
  pub scoring_type : Option Text
  pub visibility : Option Text
  pub start_time : Option Text
  pub end_time : Option Text

pub record Approvals : Type 0 where
  pub problems : List Problem
  pub contests : List Contest
  pub loading : Bool
  pub error : Option Text
  pub status : Option Text

pub data Subject : Type 0 where
  problem contest : Subject

pub data Decision : Type 0 where
  approve reject : Decision

pub data Request : Type 0 where
  get_pending : Text → Request
  post_decision : Text → Subject → ℕ → Decision → Request

-- `none` where a promise is rejected; each list may be missing.
abbrev pub Answer : Request → Type 0
Answer (get_pending token) = Option (Option (List Problem) × Option (List Contest))
Answer (post_decision token subject id decision) = Option (Unit {0})

abbrev pub Handler : Type 0
Handler = Task Request Answer Approvals (Unit {0})

unfoldable pub initial : Approvals
initial = record { problems = []; contests = []; loading = false; error = none; status = none }

unfoldable pub listed : Option (Option (List Problem) × Option (List Contest)) → Handler
listed none = set (λ s. record s { error = some (lit "Failed to load pending approvals.") })
listed (some (problems, contests)) = do
  set (λ s. record s { problems = or_else problems [] })
  set (λ s. record s { contests = or_else contests [] })

unfoldable pub load_pending : Option Text → Handler
unfolding listed
load_pending none = done
load_pending (some token) = do
  set (λ s. record s { loading = true })
  set (λ s. record s { error = none })
  listed (← call (get_pending token))
  set (λ s. record s { loading = false })

unfoldable pub noun : Subject → Text
noun problem = lit "problem"
noun contest = lit "contest"

unfoldable pub title : Subject → Text
title problem = lit "Problem"
title contest = lit "Contest"

unfoldable pub verb : Decision → Text
verb approve = lit "approve"
verb reject = lit "reject"

unfoldable pub past : Decision → Text
past approve = lit "approved."
past reject = lit "rejected."

unfoldable pub decided_status : Subject → ℕ → Decision → Text
unfolding title past
decided_status subject id decision =
    title subject ++ (lit " #" ++ (to_string id ++ (lit " " ++ past decision)))

unfoldable pub failed_error : Subject → Decision → Text
unfolding noun verb
failed_error subject decision =
    lit "Failed to " ++ (verb decision ++ (lit " " ++ (noun subject ++ lit ".")))

unfoldable pub decided : Text → Subject → ℕ → Decision → Option (Unit {0}) → Handler
unfolding load_pending decided_status failed_error
decided token subject id decision none =
    set (λ s. record s { error = some (failed_error subject decision) })
decided token subject id decision (some _) = do
  set (λ s. record s { status = some (decided_status subject id decision) })
  load_pending (some token)

-- The four handlers are one but for their texts.
unfoldable pub decide : Subject → Decision → Option Text → ℕ → Handler
unfolding decided
decide subject decision none id = done
decide subject decision (some token) id = do
  set (λ s. record s { status = none })
  decided token subject id decision (← call (post_decision token subject id decision))

unfoldable pub approve_problem : Option Text → ℕ → Handler
unfolding decide
approve_problem = decide problem approve

unfoldable pub reject_problem : Option Text → ℕ → Handler
unfolding decide
reject_problem = decide problem reject

unfoldable pub approve_contest : Option Text → ℕ → Handler
unfolding decide
approve_contest = decide contest approve

unfoldable pub reject_contest : Option Text → ℕ → Handler
unfolding decide
reject_contest = decide contest reject
