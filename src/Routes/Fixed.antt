-- ===== src/Routes/Fixed.antt =====
-- The links of the bars, of the forms, of the blog and of the sidebars.
use jjudge.Prelude.{
  is_unreserved, Option, none, All-append, ◌⊎◌, inl, inr, ◌≡◌, refl, Bool, true, false, List, [],
  ◌∷◌, ◌++◌, map, All, some, Text, lit, text_eq, split, push_head, IsSegment, if◌then◌else◌,
}
use jjudge.Routes.{
  is_absolute, is_plain, segments, is_page, serves, match_route, matches, public_routes,
  guarded_routes,
}
use jjudge.Routes.Plain.{Serves}
use jjudge.Routes.Addresses.{
  blog_post-Serves, blog_edit-Serves, profile-Serves, profile_edit-Serves,
}
use jjudge.Auth.Store.{StoredAuth, truthy_token}
use jjudge.Navbar
use jjudge.Auth.Guard.{user_field}
use jjudge.Navbar.{
  is_admin, is_manager, base_links, admin_link, manager_link, profile_link, account_links,
  sign_in_links, to_list,
}
use jjudge.Sidebar.{admin_links, manager_links, admin_page, manager_page}
use jjudge.SignIn.Login.{login_links}
use jjudge.SignIn.Registration.{register_link}
use jjudge.Blog.{Author, author_address, username_of}
use jjudge.Profile.{edit_address}
use jjudge.Profile.Edit.{profile_address}
use jjudge.BlogEditor.Listing
use jjudge.BlogEditor.Listing.{post_links}

abbrev pub hrefs : List Navbar.NavLink → List Text
hrefs = map (λ l. l.href)

bar_links : Bool → Bool → List Text
bar_links manager admin =
    let base = if manager then base_links ++ manager_link ∷ [] else base_links in
    hrefs (if admin then base ++ admin_link ∷ [] else base)

bar-Serves : (manager admin : Bool) → All Serves (bar_links manager admin)
unfolding bar_links is_absolute is_plain is_unreserved segments is_page serves match_route matches
    public_routes guarded_routes text_eq split push_head lit
bar-Serves true true = (refl, (refl, (refl, (refl, (refl, (refl, tt))))))
bar-Serves true false = (refl, (refl, (refl, (refl, (refl, tt)))))
bar-Serves false true = (refl, (refl, (refl, (refl, (refl, tt)))))
bar-Serves false false = (refl, (refl, (refl, (refl, tt))))

nav_links-Serves : (a : StoredAuth) → All Serves (hrefs (Navbar.nav_links a))
unfolding Navbar.nav_links bar_links
nav_links-Serves a = bar-Serves (is_manager a) (is_admin a)

profile_address-Serves :
    (username : Option Text)
    → ((u : Text) → username ≡ some u → (u ≡ []) ⊎ IsSegment u)
    → All Serves (to_list (Navbar.profile_address username))
unfolding Navbar.profile_address to_list
profile_address-Serves none h = tt
profile_address-Serves (some []) h = tt
profile_address-Serves (some (c ∷ u)) h = elim (h (c ∷ u) refl) [
  | inl e ↦ cc
  | inr k ↦ (profile-Serves (c ∷ u) k, tt)
]

sign_in_links-Serves : All Serves sign_in_links
unfolding is_absolute is_plain is_unreserved segments is_page serves match_route matches
    public_routes guarded_routes text_eq split push_head lit
sign_in_links-Serves = (refl, (refl, tt))

-- The links of the account, given whether somebody is signed in.
account_links-Serves :
    (b : Bool) (username : Option Text)
    → ((u : Text) → username ≡ some u → (u ≡ []) ⊎ IsSegment u)
    → All Serves (if b then to_list (Navbar.profile_address username) else sign_in_links)
account_links-Serves true username h = profile_address-Serves username h
account_links-Serves false username h = sign_in_links-Serves

home-Serves : Serves Navbar.home_link
unfolding is_absolute is_plain is_unreserved segments is_page serves match_route matches
    public_routes guarded_routes text_eq split push_head lit
home-Serves = refl

-- A page answers to every link of the bar, whoever is signed in, to every link of the sidebars and to the
-- addresses that /admin and /manager lead to, to the link of the registration, to the links beside a post, and
-- to those to the profile of a user. This holds where the name of the user who is signed in, if there is one
-- and it is not empty, the slug of the post and the name of the other user consist of letters, digits,
-- dashes and underscores. Of the two links of the sign-in no page answers to /forgot-password.
pub bars-Serves :
    (a : StoredAuth)
    → ((u : Text) → user_field (λ x. x.username) a.user ≡ some u → (u ≡ []) ⊎ IsSegment u)
    → (post : Listing.Post) → IsSegment post.slug
    → (author : Author) → IsSegment author.username
    → All Serves (Navbar.bar a)
      × All Serves (map (λ l. l.href) admin_links)
      × All Serves (map (λ l. l.href) manager_links)
      × Serves admin_page
      × Serves manager_page
      × Serves register_link
      × All Serves (post_links post)
      × Serves (author_address (some author))
      × Serves (profile_address author.username)
      × Serves (edit_address author.username)
      × (map serves login_links ≡ false ∷ true ∷ [])
unfolding is_absolute is_plain is_unreserved serves segments is_page match_route matches
    public_routes guarded_routes text_eq split push_head lit post_links author_address username_of
    profile_address edit_address Navbar.bar account_links profile_link to_list
bars-Serves a n post h author k = (
  (
    home-Serves,
    All-append Serves (hrefs (Navbar.nav_links a)) (account_links a) (nav_links-Serves a)
        (account_links-Serves (truthy_token a.token) (user_field (λ x. x.username) a.user) n),
  ),
  (refl, (refl, (refl, (refl, tt)))),
  (refl, (refl, (refl, tt))),
  refl,
  refl,
  refl,
  (blog_post-Serves post.slug h, (blog_edit-Serves post.slug h, tt)),
  profile-Serves author.username k,
  profile-Serves author.username k,
  profile_edit-Serves author.username k,
  refl,
)
