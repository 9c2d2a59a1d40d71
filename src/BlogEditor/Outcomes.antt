-- ===== src/BlogEditor/Outcomes.antt =====
-- What saving a post and deleting one come to, for every answer of the server.
use jjudge.Prelude.{
  ℕ, Bool, true, false, not, ◌≡◌, refl, List, [], ◌∷◌, filter, Option, none, some, ◌==◌, Text, lit,
}
use jjudge.Async.{set, ◌>>◌}
use jjudge.Async.Run.{Oracle, Outcome, run}
use jjudge.Api.{bearer, message, Failure}
use jjudge.BlogEditor.{Result, failed, saved, post_address}
use jjudge.BlogEditor.Create as Create
use jjudge.BlogEditor.Edit as Edit
use jjudge.BlogEditor.Listing as Listing

-- The page of a new post, and that of an old one, after the answer.
abbrev pub created_page : Result → Create.Page → Create.Page
created_page (saved slug) s = record s {
  saving = false;
  error = none;
  visited = post_address slug ∷ s.visited;
}
created_page (failed e) s = record s {
  saving = false;
  error = some (message (lit "Failed to create post.") e);
}

abbrev pub updated_page : Result → Edit.Page → Edit.Page
updated_page (saved slug) s = record s {
  saving = false;
  error = none;
  visited = post_address slug ∷ s.visited;
}
updated_page (failed e) s = record s {
  saving = false;
  error = some (message (lit "Failed to save.") e);
}

created_lem :
    (o : Oracle Create.Request Create.Answer) (h : List Create.Request) (s : Create.Page)
    (a : Result)
    → let out =
        run o h
          (record s { saving = true; error = none })
          (Create.created a >> set (λ s. record s { saving = false })) in
      (out.sent ≡ h) × (out.state ≡ created_page a s)
unfolding Create.created
created_lem o h s (saved slug) = (refl, refl)
created_lem o h s (failed e) = (refl, refl)

updated_lem :
    (o : Oracle Edit.Request Edit.Answer) (h : List Edit.Request) (s : Edit.Page) (a : Result)
    → let out =
        run o h
          (record s { saving = true; error = none })
          (Edit.updated a >> set (λ s. record s { saving = false })) in
      (out.sent ≡ h) × (out.state ≡ updated_page a s)
unfolding Edit.updated
updated_lem o h s (saved slug) = (refl, refl)
updated_lem o h s (failed e) = (refl, refl)

create-Saved :
    (o : Oracle Create.Request Create.Answer) (t : Option Text) (s : Create.Page) (b : Bool)
    → let r = Create.post_post (bearer t) (Create.new_post s.form b) in
      let out = run o [] s (Create.handle_submit t s.form b) in
      (out.sent ≡ r ∷ []) × (out.state ≡ created_page (o [] r) s)
unfolding Create.handle_submit
create-Saved o t s b =
    let r = Create.post_post (bearer t) (Create.new_post s.form b) in
    created_lem o (r ∷ []) s (o [] r)

pub edit-Saved :
    (o : Oracle Edit.Request Edit.Answer) (t : Option Text) (slug : Text) (s : Edit.Page) (b : Bool)
    → let r = Edit.patch_post (bearer t) slug (Edit.post_update slug s.form b) in
      let out = run o [] s (Edit.handle_submit t slug s.form b) in
      (out.sent ≡ r ∷ []) × (out.state ≡ updated_page (o [] r) s)
unfolding Edit.handle_submit
edit-Saved o t slug s b =
    let r = Edit.patch_post (bearer t) slug (Edit.post_update slug s.form b) in
    updated_lem o (r ∷ []) s (o [] r)

-- Saving a new post or an old one sends one request, signed in or not. A success leads to the post under
-- the slug of the answer and clears the error; a failure stays on the page with the server's own
-- message, or a general one where there is none. In both cases the form is as it was, and can be sent
-- again.
pub handle_submit-Saved :
    (o : Oracle Create.Request Create.Answer) (o' : Oracle Edit.Request Edit.Answer)
    (t : Option Text) (slug : Text) (s : Create.Page) (s' : Edit.Page) (b : Bool)
    → (let r = Create.post_post (bearer t) (Create.new_post s.form b) in
        let out = run o [] s (Create.handle_submit t s.form b) in
        (out.sent ≡ r ∷ []) × (out.state ≡ created_page (o [] r) s))
      × (let r = Edit.patch_post (bearer t) slug (Edit.post_update slug s'.form b) in
          let out = run o' [] s' (Edit.handle_submit t slug s'.form b) in
          (out.sent ≡ r ∷ []) × (out.state ≡ updated_page (o' [] r) s'))
handle_submit-Saved o o' t slug s s' b = (create-Saved o t s b, edit-Saved o' t slug s' b)

-- The list after the answer to a deletion, which is a failure or nothing.
abbrev pub deleted_page : ℕ → Option Failure → Listing.Page → Listing.Page
deleted_page id none s = record s {
  posts = filter (λ p. not (p.id == id)) s.posts;
  deleting = none;
}
deleted_page id (some e) s = record s {
  deleting = none;
  alerts = message (lit "Failed to delete.") e ∷ s.alerts;
}

deleted_lem :
    (o : Oracle Listing.Request Listing.Answer) (h : List Listing.Request) (s : Listing.Page)
    (id : ℕ) (a : Option Failure)
    → let out =
        run o h
          (record s { deleting = some id })
          (Listing.deleted id a >> set (λ s. record s { deleting = none })) in
      (out.sent ≡ h) × (out.state ≡ deleted_page id a s)
unfolding Listing.deleted
deleted_lem o h s id none = (refl, refl)
deleted_lem o h s id (some e) = (refl, refl)

-- What a click on "Delete" comes to, by what the user answers.
abbrev pub Deleted :
    Bool
    → Oracle Listing.Request Listing.Answer
    → Option Text
    → Text
    → ℕ
    → Listing.Page
    → Outcome Listing.Request Listing.Page (Unit {0})
    → Type 0
Deleted false o t slug id s out = (out.sent ≡ []) × (out.state ≡ s)
Deleted true o t slug id s out =
    let r = Listing.delete_post (bearer t) slug in
    (out.sent ≡ r ∷ []) × (out.state ≡ deleted_page id (o [] r) s)

-- The deletion of a post asks first, and does nothing where the user does not confirm. Else it sends
-- one request: a success takes the posts of this id off the list, in whatever order they are; a failure
-- raises an alert with the server's message, or a general one, and leaves the list as it is.
pub handle_delete-Deleted_post :
    (o : Oracle Listing.Request Listing.Answer) (t : Option Text) (slug : Text) (id : ℕ)
    (s : Listing.Page) (confirmed : Bool)
    → Deleted confirmed o t slug id s (run o [] s (Listing.handle_delete t slug id confirmed))
unfolding Listing.handle_delete
handle_delete-Deleted_post o t slug id s false = (refl, refl)
handle_delete-Deleted_post o t slug id s true =
    let r = Listing.delete_post (bearer t) slug in deleted_lem o (r ∷ []) s id (o [] r)
