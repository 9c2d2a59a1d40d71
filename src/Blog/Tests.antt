-- ===== src/Blog/Tests.antt =====
-- The blog at concrete posts.
use jjudge.Prelude.{◌≡◌, refl, true, [], ◌∷◌, map, none, Text, lit, to_string, pad_start}
use jjudge.Blog.{Post, articles, article, blog_page, no_posts}

abbrev post : Text → Post
post slug = record {
  id = 1;
  title = lit "A post";
  slug = slug;
  excerpt = [];
  author = none;
  published = true;
  tags = none;
}

-- A request that fails looks like a blog without posts.
failed_test : blog_page none ≡ no_posts
unfolding blog_page
failed_test = refl

numbers_test :
    map (λ a. a.number) (articles (post (lit "b") ∷ post (lit "a") ∷ [])) ≡ lit "02" ∷ lit "01" ∷ []
unfolding articles article to_string pad_start lit
numbers_test = refl
