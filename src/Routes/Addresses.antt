-- ===== src/Routes/Addresses.antt =====
-- The addresses that the links of the pages have, and that a page answers to each of them.
use jjudge.Prelude.{
  is_unreserved, has_no_slash, ◌≡◌, refl, true, arith, [], ◌∷◌, ◌++◌, Text, lit, truthy, text_eq,
  split, push_head, IsSegment, split-segment, split-slash,
}
use jjudge.Routes.Plain.{Serves, plain_page, is_plain-end, is_plain-middle}
use jjudge.Routes.{
  is_absolute, is_plain, segments, is_page, serves, match_route, matches, public_routes,
  guarded_routes,
}

pub login-Serves : Serves (lit "/login")
unfolding serves is_absolute is_plain is_unreserved segments is_page match_route matches
    public_routes guarded_routes text_eq split push_head lit
login-Serves = refl

is_page-problem : (t : Text) → truthy t ≡ true → is_page (lit "problems" ∷ t ∷ []) ≡ true
unfolding is_page match_route matches public_routes guarded_routes text_eq lit
is_page-problem (c ∷ t) h = refl
is_page-problem [] h = cc

pub problem-Serves : (t : Text) → IsSegment t → Serves (lit "/problems/" ++ t)
unfolding is_absolute is_plain is_unreserved segments split push_head lit
problem-Serves t h =
    plain_page (lit "/problems/" ++ t) refl (is_plain-end (lit "/problems/") t refl h) (
      rw (split-segment t (has_no_slash t h))
        (rw h.is_not_empty (is_page-problem t h.is_not_empty)))

is_page-submission : (t : Text) → truthy t ≡ true → is_page (lit "submissions" ∷ t ∷ []) ≡ true
unfolding is_page match_route matches public_routes guarded_routes text_eq lit
is_page-submission (c ∷ t) h = refl
is_page-submission [] h = cc

pub submission-Serves : (t : Text) → IsSegment t → Serves (lit "/submissions/" ++ t)
unfolding is_absolute is_plain is_unreserved segments split push_head lit
submission-Serves t h =
    plain_page (lit "/submissions/" ++ t) refl (is_plain-end (lit "/submissions/") t refl h) (
      rw (split-segment t (has_no_slash t h))
        (rw h.is_not_empty (is_page-submission t h.is_not_empty)))

is_page-contest : (t : Text) → truthy t ≡ true → is_page (lit "contests" ∷ t ∷ []) ≡ true
unfolding is_page match_route matches public_routes guarded_routes text_eq lit
is_page-contest (c ∷ t) h = refl
is_page-contest [] h = cc

pub contest-Serves : (t : Text) → IsSegment t → Serves (lit "/contests/" ++ t)
unfolding is_absolute is_plain is_unreserved segments split push_head lit
contest-Serves t h =
    plain_page (lit "/contests/" ++ t) refl (is_plain-end (lit "/contests/") t refl h) (
      rw (split-segment t (has_no_slash t h))
        (rw h.is_not_empty (is_page-contest t h.is_not_empty)))

is_page-blog_post : (t : Text) → truthy t ≡ true → is_page (lit "blog" ∷ t ∷ []) ≡ true
unfolding is_page match_route matches public_routes guarded_routes text_eq lit
is_page-blog_post (c ∷ t) h = refl
is_page-blog_post [] h = cc

pub blog_post-Serves : (t : Text) → IsSegment t → Serves (lit "/blog/" ++ t)
unfolding is_absolute is_plain is_unreserved segments split push_head lit
blog_post-Serves t h = plain_page (lit "/blog/" ++ t) refl (is_plain-end (lit "/blog/") t refl h) (
    rw (split-segment t (has_no_slash t h))
      (rw h.is_not_empty (is_page-blog_post t h.is_not_empty)))

is_page-profile : (t : Text) → truthy t ≡ true → is_page (lit "profile" ∷ t ∷ []) ≡ true
unfolding is_page match_route matches public_routes guarded_routes text_eq lit
is_page-profile (c ∷ t) h = refl
is_page-profile [] h = cc

pub profile-Serves : (t : Text) → IsSegment t → Serves (lit "/profile/" ++ t)
unfolding is_absolute is_plain is_unreserved segments split push_head lit
profile-Serves t h =
    plain_page (lit "/profile/" ++ t) refl (is_plain-end (lit "/profile/") t refl h) (
      rw (split-segment t (has_no_slash t h))
        (rw h.is_not_empty (is_page-profile t h.is_not_empty)))

is_page-problem_submissions :
    (t : Text) → truthy t ≡ true → is_page (lit "problems" ∷ t ∷ lit "submissions" ∷ []) ≡ true
unfolding is_page match_route matches public_routes guarded_routes text_eq lit
is_page-problem_submissions (c ∷ t) h = refl
is_page-problem_submissions [] h = cc

pub problem_submissions-Serves :
    (t : Text) → IsSegment t → Serves (lit "/problems/" ++ (t ++ lit "/submissions"))
unfolding is_absolute is_plain is_unreserved segments split push_head lit
problem_submissions-Serves t h =
    plain_page (lit "/problems/" ++ (t ++ lit "/submissions")) refl
      (is_plain-middle (lit "/problems/") t (lit "/submissions") refl h refl)
      (rw (split-slash t _ (has_no_slash t h))
        (rw h.is_not_empty (is_page-problem_submissions t h.is_not_empty)))

is_page-problem_mine :
    (t : Text)
    → truthy t ≡ true
    → is_page (lit "problems" ∷ t ∷ lit "submissions" ∷ lit "mine" ∷ []) ≡ true
unfolding is_page match_route matches public_routes guarded_routes text_eq lit
is_page-problem_mine (c ∷ t) h = refl
is_page-problem_mine [] h = cc

pub problem_mine-Serves :
    (t : Text) → IsSegment t → Serves (lit "/problems/" ++ (t ++ lit "/submissions/mine"))
unfolding is_absolute is_plain is_unreserved segments split push_head lit
problem_mine-Serves t h =
    plain_page (lit "/problems/" ++ (t ++ lit "/submissions/mine")) refl
      (is_plain-middle (lit "/problems/") t (lit "/submissions/mine") refl h refl)
      (rw (split-slash t _ (has_no_slash t h))
        (rw h.is_not_empty (is_page-problem_mine t h.is_not_empty)))

is_page-contest_leaderboard :
    (t : Text) → truthy t ≡ true → is_page (lit "contests" ∷ t ∷ lit "leaderboard" ∷ []) ≡ true
unfolding is_page match_route matches public_routes guarded_routes text_eq lit
is_page-contest_leaderboard (c ∷ t) h = refl
is_page-contest_leaderboard [] h = cc

pub contest_leaderboard-Serves :
    (t : Text) → IsSegment t → Serves (lit "/contests/" ++ (t ++ lit "/leaderboard"))
unfolding is_absolute is_plain is_unreserved segments split push_head lit
contest_leaderboard-Serves t h =
    plain_page (lit "/contests/" ++ (t ++ lit "/leaderboard")) refl
      (is_plain-middle (lit "/contests/") t (lit "/leaderboard") refl h refl)
      (rw (split-slash t _ (has_no_slash t h))
        (rw h.is_not_empty (is_page-contest_leaderboard t h.is_not_empty)))

is_page-contest_submissions :
    (t : Text) → truthy t ≡ true → is_page (lit "contests" ∷ t ∷ lit "submissions" ∷ []) ≡ true
unfolding is_page match_route matches public_routes guarded_routes text_eq lit
is_page-contest_submissions (c ∷ t) h = refl
is_page-contest_submissions [] h = cc

pub contest_submissions-Serves :
    (t : Text) → IsSegment t → Serves (lit "/contests/" ++ (t ++ lit "/submissions"))
unfolding is_absolute is_plain is_unreserved segments split push_head lit
contest_submissions-Serves t h =
    plain_page (lit "/contests/" ++ (t ++ lit "/submissions")) refl
      (is_plain-middle (lit "/contests/") t (lit "/submissions") refl h refl)
      (rw (split-slash t _ (has_no_slash t h))
        (rw h.is_not_empty (is_page-contest_submissions t h.is_not_empty)))

is_page-profile_edit :
    (t : Text) → truthy t ≡ true → is_page (lit "profile" ∷ t ∷ lit "edit" ∷ []) ≡ true
unfolding is_page match_route matches public_routes guarded_routes text_eq lit
is_page-profile_edit (c ∷ t) h = refl
is_page-profile_edit [] h = cc

pub profile_edit-Serves : (t : Text) → IsSegment t → Serves (lit "/profile/" ++ (t ++ lit "/edit"))
unfolding is_absolute is_plain is_unreserved segments split push_head lit
profile_edit-Serves t h =
    plain_page (lit "/profile/" ++ (t ++ lit "/edit")) refl
      (is_plain-middle (lit "/profile/") t (lit "/edit") refl h refl)
      (rw (split-slash t _ (has_no_slash t h))
        (rw h.is_not_empty (is_page-profile_edit t h.is_not_empty)))

is_page-blog_edit :
    (t : Text) → truthy t ≡ true → is_page (lit "manager" ∷ lit "blog" ∷ t ∷ lit "edit" ∷ []) ≡ true
unfolding is_page match_route matches public_routes guarded_routes text_eq lit
is_page-blog_edit (c ∷ t) h = ground arith
is_page-blog_edit [] h = cc

pub blog_edit-Serves :
    (t : Text) → IsSegment t → Serves (lit "/manager/blog/" ++ (t ++ lit "/edit"))
unfolding is_absolute is_plain is_unreserved segments split push_head lit
blog_edit-Serves t h =
    plain_page (lit "/manager/blog/" ++ (t ++ lit "/edit")) refl
      (is_plain-middle (lit "/manager/blog/") t (lit "/edit") refl h refl)
      (rw (split-slash t _ (has_no_slash t h))
        (rw h.is_not_empty (is_page-blog_edit t h.is_not_empty)))

is_page-contest_problem :
    (t u : Text)
    → truthy t ≡ true
    → truthy u ≡ true
    → is_page (lit "contests" ∷ t ∷ lit "problems" ∷ u ∷ []) ≡ true
unfolding is_page match_route matches public_routes guarded_routes text_eq lit
is_page-contest_problem (c ∷ t) (d ∷ u) h k = refl
is_page-contest_problem (c ∷ t) [] h k = cc
is_page-contest_problem [] u h k = cc

pub contest_problem-Serves :
    (t u : Text)
    → IsSegment t
    → IsSegment u
    → Serves (lit "/contests/" ++ (t ++ (lit "/problems/" ++ u)))
unfolding is_absolute is_plain is_unreserved segments split push_head lit
contest_problem-Serves t u h k =
    plain_page (lit "/contests/" ++ (t ++ (lit "/problems/" ++ u))) refl
      (is_plain-middle (lit "/contests/") t (lit "/problems/" ++ u) refl h
        (is_plain-end (lit "/problems/") u refl k))
      (rw (split-slash t _ (has_no_slash t h)) (
        rw (split-segment u (has_no_slash u k)) (
          rw h.is_not_empty
            (rw k.is_not_empty (is_page-contest_problem t u h.is_not_empty k.is_not_empty)))))

is_page-contest_submission :
    (t u : Text)
    → truthy t ≡ true
    → truthy u ≡ true
    → is_page (lit "contests" ∷ t ∷ lit "submissions" ∷ u ∷ []) ≡ true
unfolding is_page match_route matches public_routes guarded_routes text_eq lit
is_page-contest_submission (c ∷ t) (d ∷ u) h k = refl
is_page-contest_submission (c ∷ t) [] h k = cc
is_page-contest_submission [] u h k = cc

pub contest_submission-Serves :
    (t u : Text)
    → IsSegment t
    → IsSegment u
    → Serves (lit "/contests/" ++ (t ++ (lit "/submissions/" ++ u)))
unfolding is_absolute is_plain is_unreserved segments split push_head lit
contest_submission-Serves t u h k =
    plain_page (lit "/contests/" ++ (t ++ (lit "/submissions/" ++ u))) refl
      (is_plain-middle (lit "/contests/") t (lit "/submissions/" ++ u) refl h
        (is_plain-end (lit "/submissions/") u refl k))
      (rw (split-slash t _ (has_no_slash t h)) (
        rw (split-segment u (has_no_slash u k)) (
          rw h.is_not_empty
            (rw k.is_not_empty (is_page-contest_submission t u h.is_not_empty k.is_not_empty)))))
