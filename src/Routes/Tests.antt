-- ===== src/Routes/Tests.antt =====
-- Addresses that a page answers to, and one that none does.
use jjudge.Prelude.{
  inr, ◌⊎◌, is_unreserved, ◌≡◌, refl, true, false, [], ◌∷◌, map, All, none, some, lit, Text,
  text_eq, split, push_head, IsSegment,
}
use jjudge.Routes.{
  is_absolute, is_plain, serves, segments, is_page, match_route, matches, public_routes,
  guarded_routes,
}
use jjudge.Routes.Plain.{Serves}
use jjudge.Routes.Links.{Found, LinksServe, links-LinksServe}
use jjudge.Routes.Fixed.{bars-Serves}
use jjudge.Auth.Store.{StoredAuth}
use jjudge.Submissions.{Submission}
use jjudge.SubmissionForm.{practice, destination}
use jjudge.Auth.Guard.{user_field}
use jjudge.Navbar
use jjudge.Sidebar.{admin_links, manager_links, admin_page, manager_page}
use jjudge.SignIn.Login.{login_links}
use jjudge.SignIn.Registration.{register_link}
use jjudge.Blog.{Author, author_address}
use jjudge.Profile.{edit_address}
use jjudge.Profile.Edit.{profile_address}
use jjudge.BlogEditor.Listing
use jjudge.BlogEditor.Listing.{post_links}

-- Of an address with a query, of one to another host and of one that is not absolute nothing is claimed.
serves_test :
    map serves (
      lit "/"
      ∷ lit "/problems/7/submissions/mine"
      ∷ lit "/forgot-password"
      ∷ lit "/problems/7/edit"
      ∷ lit "/profile/?x"
      ∷ lit "//problems"
      ∷ lit "problems"
      ∷ [])
    ≡ true ∷ true ∷ false ∷ false ∷ false ∷ false ∷ false ∷ []
unfolding serves is_absolute is_plain is_unreserved segments is_page match_route matches
    public_routes guarded_routes text_eq split push_head lit
serves_test = refl

four-IsSegment : IsSegment (lit "4")
unfolding lit is_unreserved
four-IsSegment = record { is_not_empty = refl; is_plain = refl }

abbrev submission : Submission
submission = record {
  id = 5;
  problem_id = 7;
  user_id = none;
  username = none;
  language = none;
  verdict = none;
  score = none;
  cpu_time = none;
  memory = none;
  message = none;
  tests_passed = none;
  tests_total = none;
  created_ms = none;
}

abbrev found : Found
found = record {
  listed = record { submission = submission; problem_title = none };
  submission = submission;
  code = none;
  results = none;
  problem_ref = record { id = 7; title = none };
  contest = record {
    id = 4;
    title = lit "Spring Round";
    description = none;
    start_ms = 10;
    end_ms = 20;
    scoring_type = lit "icpc";
    visibility = lit "public";
    problems = none;
  };
  contest_problem = record {
    contest_id = 4;
    problem_id = 7;
    ordinal = 0;
    max_points = 100;
    problem = none;
  };
  problem = record {
    id = 7;
    title = none;
    difficulty = none;
    tags = none;
    description = none;
    time_limit = none;
    memory_limit = none;
    approval_status = none;
  };
}

links-LinksServe_example :
    LinksServe (lit "4") 15 found × Serves (destination (practice 7) (some 5))
links-LinksServe_example = links-LinksServe (lit "4") four-IsSegment 15 found (practice 7) (some 5)

abbrev admin : StoredAuth
admin = record {
  token = some (lit "token");
  user = some (record {
    name = none;
    email = none;
    username = some (lit "ada");
    role = some (lit "admin");
  });
}

abbrev post : Listing.Post
post = record {
  id = 1;
  title = lit "Four";
  slug = lit "4";
  excerpt = [];
  published = true;
  tags = [];
  created_at = lit "2026-01-01";
  author = record { username = lit "ada"; name = lit "Ada" };
}

abbrev ada : Author
ada = record { username = lit "ada"; name = lit "Ada" }

ada-IsSegment : IsSegment ada.username
unfolding lit is_unreserved
ada-IsSegment = record { is_not_empty = refl; is_plain = refl }

admin_name : (u : Text) → user_field (λ x. x.username) admin.user ≡ some u → (u ≡ []) ⊎ IsSegment u
unfolding user_field
admin_name u e = let same : u ≡ lit "ada" = cc in inr (rw same ada-IsSegment)

bars-Serves_example :
    All Serves (Navbar.bar admin)
    × All Serves (map (λ l. l.href) admin_links)
    × All Serves (map (λ l. l.href) manager_links)
    × Serves admin_page
    × Serves manager_page
    × Serves register_link
    × All Serves (post_links post)
    × Serves (author_address (some ada))
    × Serves (profile_address ada.username)
    × Serves (edit_address ada.username)
    × (map serves login_links ≡ false ∷ true ∷ [])
bars-Serves_example = bars-Serves admin admin_name post four-IsSegment ada ada-IsSegment
