-- ===== src/ProblemBrowser/Tags.antt =====
-- frontend/src/app/problems/problems-client.tsx: the choice of tags.
use jjudge.Prelude.{
  ◌≡◌, refl, sym, ap, ◌∙◌, inl, inr, Bool, true, false, not, ◌||◌, List, [], ◌∷◌, ◌++◌, map,
  or_else, if◌then◌else◌, filter, any, all, arith, Bool-cases, Text, text_eq, text_eq_sound,
  text_eq_refl, to_lower_case,
}
use jjudge.ProblemBrowser.{Problem, has, add, Filters, toggle_tag, has_tags, is_kept, filtered}

text_eq_sym : (s t : Text) → text_eq s t ≡ text_eq t s
unfolding text_eq
text_eq_sym [] [] = refl
text_eq_sym [] (c ∷ t) = refl
text_eq_sym (c ∷ s) [] = refl
text_eq_sym (c ∷ s) (d ∷ t) = ground (arith, text_eq_sym s t)

text_eq_left : (t x y : Text) → text_eq t x ≡ true → text_eq x y ≡ text_eq t y
text_eq_left t x y h = ap (λ z. text_eq z y) (sym (text_eq_sound t x h))

has-remove :
    (x t : Text) (ts : List Text)
    → has x (filter (λ y. not (text_eq t y)) ts) ≡ (if text_eq t x then false else has x ts)
has-remove x t [] = ground arith
has-remove x t (y ∷ ys) = elim (Bool-cases (text_eq t y)) [
  | inl e ↦ ground (arith, has-remove x t ys, ap (text_eq x) (text_eq_sound t y e), text_eq_sym x t)
  | inr e ↦ ground (arith, has-remove x t ys, text_eq_left t x y)
]

pub any-append : (p : Text → Bool) (xs ys : List Text) → any p (xs ++ ys) ≡ (any p xs || any p ys)
any-append p [] ys = refl
any-append p (x ∷ xs) ys = ground (arith, any-append p xs ys)

pub has-add : (x t : Text) (ts : List Text) → has x (add t ts) ≡ (text_eq x t || has x ts)
has-add x t ts = elim (Bool-cases (has t ts)) [
  | inl e ↦
      rw e (ground (arith, λ (h : text_eq x t ≡ true). ap (λ z. has z ts) (text_eq_sound x t h)))
  | inr e ↦ rw e (ground (arith, any-append (text_eq x) ts (t ∷ [])))
]

-- A click on a tag changes whether this tag is chosen, and no other.
pub has-toggle_tag :
    (x t : Text) (f : Filters)
    → has x (toggle_tag t f).active_tags
      ≡ (if text_eq x t then not (has t f.active_tags) else has x f.active_tags)
unfolding toggle_tag
has-toggle_tag x t f = elim (Bool-cases (has t f.active_tags)) [
  | inl e ↦ ground (arith, has-remove x t f.active_tags, text_eq_sym t x)
  | inr e ↦ ground (arith, has-add x t f.active_tags)
]

all_elim :
    (q : Text → Bool) (x : Text) (ts : List Text) → all q ts ≡ true → has x ts ≡ true → q x ≡ true
all_elim q x [] h k = cc
all_elim q x (t ∷ ts) h k = elim (Bool-cases (text_eq x t)) [
  | inl e ↦ ap q (text_eq_sound x t e) ∙ (ground arith)
  | inr e ↦ all_elim q x ts (ground arith) (ground arith)
]

all_intro :
    (q : Text → Bool) (ts : List Text)
    → ((x : Text) → has x ts ≡ true → q x ≡ true)
    → all q ts ≡ true
all_intro q [] h = refl
all_intro q (t ∷ ts) h =
    let first : q t ≡ true = h t (rw (text_eq_refl t) refl) in
    rw first (all_intro q ts (λ x k. h x (ground arith)))

iff-eq : (a b : Bool) → (a ≡ true → b ≡ true) → (b ≡ true → a ≡ true) → a ≡ b
iff-eq a b f g = ground arith

-- Whether a problem is kept depends on which tags are chosen only, not on their order.
is_kept-same :
    (f : Filters) (ts : List Text) (p : Problem)
    → ((x : Text) → has x ts ≡ has x f.active_tags)
    → is_kept (record f { active_tags = ts }) p ≡ is_kept f p
unfolding is_kept has_tags
is_kept-same f ts p h =
    let q : Text → Bool = λ t. has (to_lower_case t) (map to_lower_case (or_else p.tags [])) in
    let same : all q ts ≡ all q f.active_tags =
      iff-eq _ _ (λ k. all_intro q f.active_tags (λ x m. all_elim q x ts k (h x ∙ m)))
        (λ k. all_intro q ts (λ x m. all_elim q x f.active_tags k (sym (h x) ∙ m))) in
    rw same refl

filter-same :
    (f g : Filters) (ps : List Problem)
    → ((p : Problem) → is_kept f p ≡ is_kept g p)
    → filter (is_kept f) ps ≡ filter (is_kept g) ps
filter-same f g [] h = refl
filter-same f g (p ∷ ps) h = cc (h p, filter-same f g ps h)

toggled_twice :
    (x t : Text) (f : Filters)
    → has x (toggle_tag t (toggle_tag t f)).active_tags ≡ has x f.active_tags
toggled_twice x t f = ground (
  arith,
  has-toggle_tag x t (toggle_tag t f),
  has-toggle_tag x t f,
  has-toggle_tag t t f,
  text_eq_refl t,
  λ (h : text_eq x t ≡ true). ap (λ z. has z f.active_tags) (text_eq_sound x t h),
)

-- A second click on a tag brings back the list that the first one had changed.
pub filtered-toggle_tag :
    (t : Text) (f : Filters) (ps : List Problem)
    → filtered (toggle_tag t (toggle_tag t f)) ps ≡ filtered f ps
unfolding filtered toggle_tag
filtered-toggle_tag t f ps =
    filter-same (toggle_tag t (toggle_tag t f)) f ps
      (λ p. is_kept-same f (toggle_tag t (toggle_tag t f)).active_tags p (λ x. toggled_twice x t f))
