-- ===== src/BlogEditor/Reopen.antt =====
-- frontend/src/app/manager/blog/[slug]/edit/page.tsx: a post that is opened and saved without a change.
use jjudge.Prelude.{
  false, ◌≡◌, refl, sym, ap, ◌∙◌, List, [], ◌∷◌, Option, none, some, or_else, Text, lit,
  text_eq_refl, All, IsTag, split-join,
}
use jjudge.Async.{set, ◌>>◌}
use jjudge.Async.Run.{Oracle, run}
use jjudge.Api.{non_empty, bearer}
use jjudge.BlogEditor.{tags_of}
use jjudge.BlogEditor.Edit.{
  Post, PostUpdate, Page, Request, get_post, patch_post, Answer, initial, join_tags, form_of, load,
  found, changed_slug, post_update, handle_submit,
}
use jjudge.BlogEditor.Outcomes.{edit-Saved}

-- The page after the answer.
abbrev pub loaded : Option Post → Page
loaded none = record initial { error = some (lit "Failed to load post."); loading = false }
loaded (some p) = record initial { form = form_of p; loading = false }

found-loaded :
    (o : Oracle Request Answer) (h : List Request) (a : Option Post)
    → (run o h initial (found a >> set (λ s. record s { loading = false }))).state ≡ loaded a
unfolding found
found-loaded o h none = refl
found-loaded o h (some p) = refl

load-loaded :
    (o : Oracle Request Answer) (t slug : Text)
    → (run o [] initial (load (some t) slug)).state
      ≡ loaded (o [] (get_post (bearer (some t)) slug))
unfolding load
load-loaded o t slug = let r = get_post (bearer (some t)) slug in found-loaded o (r ∷ []) (o [] r)

changed_slug_refl : (slug : Text) → changed_slug slug slug ≡ none
unfolding changed_slug
changed_slug_refl slug = rw (text_eq_refl slug) refl

tags_of-form_of :
    (p : Post) (tags : List Text) → p.tags ≡ some tags → All IsTag tags → tags_of (form_of p) ≡ tags
unfolding tags_of form_of join_tags
tags_of-form_of p tags e h = rw e (split-join tags h)

-- What is sent of a post as it was opened.
abbrev pub unchanged : Post → List Text → PostUpdate
unchanged p tags = record {
  title = p.title;
  slug = none;
  excerpt = non_empty (or_else p.excerpt []);
  content = p.content;
  tags = tags;
  published = p.published;
}

post_update-form_of :
    (p : Post) (tags : List Text)
    → p.tags ≡ some tags
    → All IsTag tags
    → post_update p.slug (form_of p) p.published ≡ unchanged p tags
unfolding post_update form_of
post_update-form_of p tags e h =
    rw (changed_slug_refl p.slug) (rw (tags_of-form_of p tags e h) refl)

-- A post that is opened and saved without a change is sent back as it is: its title, content, state of
-- publication and excerpt, an empty or missing one being null, no new slug, and its tags, if none of them
-- is empty, has a comma, or has white space around it.
pub handle_submit-load :
    (o : Oracle Request Answer) (t slug : Text) (p : Post) (tags : List Text)
    → o [] (get_post (bearer (some t)) slug) ≡ some p
    → p.slug ≡ slug
    → p.tags ≡ some tags
    → All IsTag tags
    → let s = (run o [] initial (load (some t) slug)).state in
      (run o [] s (handle_submit (some t) slug s.form s.form.published)).sent
      ≡ patch_post (bearer (some t)) slug (unchanged p tags) ∷ []
unfolding form_of
handle_submit-load o t slug p tags e f g h =
    let page = record initial { form = form_of p; loading = false } in
    let sent = (edit-Saved o (some t) slug page p.published).0 in
    let same =
      ap (λ slug'. post_update slug' (form_of p) p.published) (sym f)
      ∙ post_update-form_of p tags g h in
    rw (load-loaded o t slug ∙ ap loaded e)
      (sent ∙ ap (λ u. patch_post (bearer (some t)) slug u ∷ []) same)
