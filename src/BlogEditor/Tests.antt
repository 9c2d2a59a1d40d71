-- ===== src/BlogEditor/Tests.antt =====
-- The theorems on the blog at concrete inputs.
use jjudge.Prelude.{◌≡◌, refl, true, false, [], ◌∷◌, none, some, lit, IsTag, trim}
use jjudge.Async.Run.{Oracle, run}
use jjudge.Api.{bearer, api_error}
use jjudge.BlogEditor.{failed, saved}
use jjudge.BlogEditor.Create as Create
use jjudge.BlogEditor.Edit as Edit
use jjudge.BlogEditor.Listing as Listing
use jjudge.BlogEditor.Outcomes.{
  created_page, updated_page, Deleted, handle_submit-Saved, handle_delete-Deleted_post,
}
use jjudge.BlogEditor.Reopen.{unchanged, handle_submit-load}

abbrev post : Edit.Post
post = record {
  title = lit "Finals";
  slug = lit "finals";
  excerpt = none;
  content = lit "The finals are on.";
  tags = some (lit "news" ∷ lit "big day" ∷ []);
  published = true;
}

-- A server that refuses new posts, and takes changes.
abbrev refuse : Oracle Create.Request Create.Answer
refuse h (Create.post_post t p) = failed (api_error (some (lit "slug already taken")))

abbrev accept : Oracle Edit.Request Edit.Answer
accept h (Edit.get_post t s) = some post
accept h (Edit.patch_post t s p) = saved (some (lit "finals"))

handle_submit-Saved_example :
    (let r =
        Create.post_post (bearer (some (lit "t"))) (Create.new_post Create.initial.form true) in
      let out =
        run refuse [] Create.initial
          (Create.handle_submit (some (lit "t")) Create.initial.form true) in
      (out.sent ≡ r ∷ []) × (out.state ≡ created_page (refuse [] r) Create.initial))
    × (let r =
          Edit.patch_post
            (bearer (some (lit "t")))
            (lit "finals")
            (Edit.post_update (lit "finals") Edit.initial.form true) in
        let out =
          run accept [] Edit.initial
            (Edit.handle_submit (some (lit "t")) (lit "finals") Edit.initial.form true) in
        (out.sent ≡ r ∷ []) × (out.state ≡ updated_page (accept [] r) Edit.initial))
handle_submit-Saved_example =
    handle_submit-Saved refuse accept (some (lit "t")) (lit "finals") Create.initial Edit.initial
      true

news-IsTag : IsTag (lit "news")
unfolding trim lit
news-IsTag = record { is_trimmed = refl; is_truthy = refl; has_no_comma = refl }

big_day-IsTag : IsTag (lit "big day")
unfolding trim lit
big_day-IsTag = record { is_trimmed = refl; is_truthy = refl; has_no_comma = refl }

handle_submit-load_example :
    let s = (run accept [] Edit.initial (Edit.load (some (lit "t")) (lit "finals"))).state in
    (run accept [] s
      (Edit.handle_submit (some (lit "t")) (lit "finals") s.form s.form.published)).sent
    ≡ Edit.patch_post
        (bearer (some (lit "t")))
        (lit "finals")
        (unchanged post (lit "news" ∷ lit "big day" ∷ []))
      ∷ []
handle_submit-load_example =
    handle_submit-load accept (lit "t") (lit "finals") post (lit "news" ∷ lit "big day" ∷ []) refl
      refl refl (news-IsTag, (big_day-IsTag, tt))

abbrev entry : Listing.Post
entry = record {
  id = 5;
  title = lit "Finals";
  slug = lit "finals";
  excerpt = [];
  published = true;
  tags = [];
  created_at = lit "2026-01-02T00:00:00Z";
  author = record { username = lit "ada"; name = lit "Ada" };
}

abbrev listing : Listing.Page
listing = record Listing.initial { posts = entry ∷ []; loading = false }

abbrev take_all : Oracle Listing.Request Listing.Answer
take_all h (Listing.list_posts t) = some (some (entry ∷ []))
take_all h (Listing.delete_post t s) = none

handle_delete-Deleted_post_example :
    Deleted true take_all
      (some (lit "t"))
      (lit "finals")
      5
      listing
      (run take_all [] listing (Listing.handle_delete (some (lit "t")) (lit "finals") 5 true))
handle_delete-Deleted_post_example =
    handle_delete-Deleted_post take_all (some (lit "t")) (lit "finals") 5 listing true
