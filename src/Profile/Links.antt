-- ===== src/Profile/Links.antt =====
-- The links of a profile.
use jjudge.Prelude.{
  ◌≡◌, refl, ap, Bool, true, false, Bool-cases, inl, inr, List, [], ◌∷◌, ◌++◌, map, filter, Option,
  none, some, Text, lit, truthy, starts_with, All,
}
use jjudge.Profile.{
  UserProfile, is_given, given_or, Social, github, codeforces, atcoder, website, socials, field,
  href, active_socials, Link, link, links,
}

href-starts_with : (s : Social) (v : Text) → starts_with (lit "http") (href s v) ≡ true
unfolding href starts_with lit
href-starts_with github v = refl
href-starts_with codeforces v = refl
href-starts_with atcoder v = refl
href-starts_with website v = elim (Bool-cases (starts_with (lit "http") v)) [
  | inl h ↦ rw h h
  | inr h ↦ rw h refl
]

-- A link that is sound: it has a text, and its address starts with "http".
pub record IsSound (l : Link) : Type 0 where
  pub has_text : truthy l.value ≡ true
  pub has_scheme : starts_with (lit "http") l.address ≡ true

truthy-given_or : (o : Option Text) → is_given o ≡ true → truthy (given_or o []) ≡ true
unfolding is_given given_or
truthy-given_or none h = cc
truthy-given_or (some []) h = cc
truthy-given_or (some (c ∷ t)) h = refl

link-IsSound :
    (user : UserProfile) (s : Social) → is_given (field s user) ≡ true → IsSound (link user s)
unfolding link
link-IsSound user s h = record {
  has_text = truthy-given_or (field s user) h;
  has_scheme = href-starts_with s (given_or (field s user) []);
}

-- The link of one key, if the user has one.
abbrev pub link_if : Bool → UserProfile → Social → List Link
link_if true user s = link user s ∷ []
link_if false user s = []

abbrev pub links_of : UserProfile → List Social → List Link
links_of user [] = []
links_of user (s ∷ ss) = link_if (is_given (field s user)) user s ++ links_of user ss

map-filter :
    (user : UserProfile) (ss : List Social)
    → map (link user) (filter (λ s. is_given (field s user)) ss) ≡ links_of user ss
map-filter user [] = refl
map-filter user (s ∷ ss) = elim (Bool-cases (is_given (field s user))) [
  | inl h ↦ rw h (ap (λ l. link user s ∷ l) (map-filter user ss))
  | inr h ↦ rw h (map-filter user ss)
]

links_of-IsSound : (user : UserProfile) (ss : List Social) → All IsSound (links_of user ss)
links_of-IsSound user [] = tt
links_of-IsSound user (s ∷ ss) = elim (Bool-cases (is_given (field s user))) [
  | inl h ↦ rw h (link-IsSound user s h, links_of-IsSound user ss)
  | inr h ↦ rw h (links_of-IsSound user ss)
]

-- A profile has a link for each of GitHub, Codeforces, AtCoder and the website that the user has given,
-- in this order, and no other. Whatever the user has written there, every link has a text, and its
-- address starts with "http": none runs a script.
pub links-IsSound :
    (user : UserProfile)
    → (links user ≡ links_of user (github ∷ codeforces ∷ atcoder ∷ website ∷ []))
      × All IsSound (links user)
unfolding links active_socials socials
links-IsSound user =
    let e = map-filter user (github ∷ codeforces ∷ atcoder ∷ website ∷ []) in
    (e, rw e (links_of-IsSound user (github ∷ codeforces ∷ atcoder ∷ website ∷ [])))
