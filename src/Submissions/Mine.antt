-- ===== src/Submissions/Mine.antt =====
-- frontend/src/app/problems/[id]/submissions/mine/page.tsx: one's own submissions for a problem. The
-- two requests of `Promise.all` are one here.
pub mod Load
pub mod Order
pub mod Polls
use jjudge.Prelude.{
  ℕ, ◌≡◌, suc, Bool, true, false, List, [], ◌∷◌, Option, none, some, or_else, any, leb,
  if◌then◌else◌, Text, lit, split,
}
use jjudge.Prelude.Sorting.{sort_with}
use jjudge.Async.{Task, ret, done, set, call, ◌>>=◌, ◌>>◌}
use jjudge.Auth.Token.{Platform, Claims, Claim, absent, number, text, decode_jwt_payload}
use jjudge.Submissions.{Submission, is_pending}
use jjudge.Submissions.Polling.{Poll, no_poll, effect, rerun, cleanup}

pub record Problem : Type 0 where
  pub id : ℕ
  pub title : Option Text

pub record Mine : Type 0 where
  pub problem : Option Problem
  pub submissions : Option (List Submission)
  pub loading : Bool
  pub error : Option Text
  pub poll : Poll
  pub mounted : Bool

-- `a ?? b`
or_claim : Claim → Claim → Claim
or_claim absent c = c
or_claim c _ = c

id_of : Platform → Claim → Option ℕ
id_of p (number n) = some n
id_of p (text s) = p.to_number s
id_of p _ = none

-- The payload is read as in `lib/auth.ts`.
unfoldable pub decode_user_id_from_token : Platform → Option Text → Option ℕ
unfolding or_claim id_of
decode_user_id_from_token p none = none
decode_user_id_from_token p (some token) = elim (decode_jwt_payload p token) [
  | none ↦ none
  | some claims ↦ id_of p (or_claim claims.user_id (or_claim claims.sub claims.id))
]

-- What the render closes over: the problem of the address, `none` where it is missing or empty, the token and the user's id.
pub record Session : Type 0 where
  pub problem_id : Option Text
  pub token : Option Text
  pub user_id : Option ℕ

-- An empty token and the id 0 count as missing.
unfoldable pub credentials : Option Text → Option ℕ → Option (Text × ℕ)
credentials (some (c ∷ t)) (some (suc i)) = some (c ∷ t, suc i)
credentials _ _ = none

pub data Request : Type 0 where
  load_page list_submissions : Text → ℕ → Text → Request

-- `none` where a promise is rejected; each body may be missing.
abbrev pub Answer : Request → Type 0
Answer (load_page problem_id user_id token) = Option (Option Problem × Option (List Submission))
Answer (list_submissions problem_id user_id token) = Option (Option (List Submission))

abbrev pub Handler : Type 0
Handler = Task Request Answer Mine (Unit {0})

unfoldable pub has_pending : Option (List Submission) → Bool
has_pending none = false
has_pending (some xs) = any (λ x. is_pending x.verdict) xs

-- The page as it is first shown, its polling effect run.
unfoldable pub mount : Mine
mount = record {
  problem = none;
  submissions = none;
  loading = true;
  error = none;
  poll = effect false no_poll;
  mounted = true;
}

-- `setSubmissions(xs)`: a new array, so that the effect runs again.
unfoldable pub set_submissions : List Submission → Mine → Mine
unfolding has_pending
set_submissions xs s = record s {
  submissions = if s.mounted then some xs else s.submissions;
  poll = if s.mounted then rerun (has_pending (some xs)) s.poll else s.poll;
}

unfoldable pub polled : Option (Option (List Submission)) → Handler
polled none = done
polled (some xs) = do set (set_submissions (or_else xs [])); set (λ s. record s { error = none })

fetch_for : Option Text → Option (Text × ℕ) → Handler
unfolding polled
fetch_for (some problem_id) (some (token, user_id)) =
    call (list_submissions problem_id user_id token) >>= polled
fetch_for _ _ = done

unfoldable pub fetch_submissions : Session → Handler
unfolding fetch_for
fetch_submissions v = fetch_for v.problem_id (credentials v.token v.user_id)

unfoldable pub loaded : Option (Option Problem × Option (List Submission)) → Handler
loaded none = do
  set (λ s. record s { error = some (lit "Failed to load your submissions for this problem.") })
  set (λ s. record s { loading = false })
loaded (some (problem, xs)) = do
  set (λ s. record s { problem = problem })
  set (set_submissions (or_else xs []))
  set (λ s. record s { error = none })
  set (λ s. record s { loading = false })

unfoldable pub load_for : Option Text → Option (Text × ℕ) → Handler
unfolding loaded
load_for none credentials = done
load_for (some problem_id) none = do
  set (λ s. record s { error = some (lit "Please sign in to view your submissions.") })
  set (λ s. record s { loading = false })
load_for (some problem_id) (some (token, user_id)) =
    call (load_page problem_id user_id token) >>= loaded

unfoldable pub load : Session → Handler
unfolding load_for
load v = load_for v.problem_id (credentials v.token v.user_id)

unfoldable pub created_at : Submission → ℕ
created_at x = or_else x.created_ms 0

-- The latest first.
unfoldable pub sorted_submissions : Option (List Submission) → List Submission
unfolding created_at
sorted_submissions xs = sort_with (λ a b. leb (created_at b) (created_at a)) (or_else xs [])

unfoldable pub unmount : Mine → Mine
unmount s = record s { poll = cleanup s.poll; mounted = false }

-- What can happen: the effect that loads, an interval that fires, the end of the page.
pub data Event : Type 0 where
  arrive fire leave : Event

unfoldable pub handler : Session → Event → Handler
handler v arrive = load v
handler v fire = fetch_submissions v
handler v leave = set unmount

pub record Offers (v : Session) (s : Mine) (t : Handler) : Type 0 where
  pub event : Event
  pub runs : t ≡ handler v event
