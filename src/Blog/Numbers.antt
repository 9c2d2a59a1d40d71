-- ===== src/Blog/Numbers.antt =====
-- The numbers beside the posts.
use jjudge.Prelude.{
  ℕ, zero, suc, ◌≡◌, refl, ◌∙◌, ap, ◌-◌, ◌+◌, List, [], ◌∷◌, ◌++◌, map, map_from, length, lit,
  value, value-to_string, value-replicate, arith, pad_start, to_string,
}
use jjudge.Blog.{Post, article, articles}

-- `n`, `n - 1`, ..., 1
abbrev pub countdown : ℕ → List ℕ
countdown zero = []
countdown (suc n) = suc n ∷ countdown n

value-number : (n i : ℕ) (p : Post) → value (article n i p).number ≡ n - i
unfolding article pad_start
value-number n i p = value-replicate _ (to_string (n - i)) ∙ value-to_string (n - i)

numbers_from :
    (n i : ℕ) (posts : List Post)
    → n ≡ i + length posts
    → map (λ a. value a.number) (map_from (article n) i posts) ≡ countdown (length posts)
numbers_from n i [] e = refl
numbers_from n i (p ∷ posts) e =
    let v = value-number n i p in
    let d : n - i ≡ suc (length posts) = ground arith in
    let r = numbers_from n (suc i) posts (ground arith) in rw (v ∙ d, r) refl

addresses_from :
    (n i : ℕ) (posts : List Post)
    → map (λ a. a.href) (map_from (article n) i posts) ≡ map (λ p. lit "/blog/" ++ p.slug) posts
unfolding article
addresses_from n i [] = refl
addresses_from n i (p ∷ posts) =
    ap (λ r. (lit "/blog/" ++ p.slug) ∷ r) (addresses_from n (suc i) posts)

-- The list of posts keeps their order, every entry leads to the page of its post, and the numbers beside the
-- entries, read as numbers, count down from the number of posts to 1.
pub articles-countdown :
    (posts : List Post)
    → (map (λ a. value a.number) (articles posts) ≡ countdown (length posts))
      × (map (λ a. a.href) (articles posts) ≡ map (λ p. lit "/blog/" ++ p.slug) posts)
unfolding articles
articles-countdown posts =
    (numbers_from (length posts) 0 posts (ground arith), addresses_from (length posts) 0 posts)
