-- ===== src/SubmissionPage.antt =====
-- frontend/src/app/submissions/[submissionId]/page.tsx and
-- frontend/src/app/problems/[id]/submissions/[submissionId]/page.tsx: the page of a submission, with its
-- source code, which the first of the two highlights.
pub mod Code
pub mod InContest
mod Tests
use jjudge.Prelude.{
  ℕ, suc, ◌++◌, Bool, true, false, List, [], ◌∷◌, Option, none, some, or_else, if◌then◌else◌, Text,
  lit, to_string, text_eq, to_lower_case, truthy, join,
}
use jjudge.Submissions.{Submission}
use jjudge.Submissions.Format.{language_label}

-- A class name: missing, a text, or an array of texts.
pub data ClassName : Type 0 where
  missing : ClassName
  single : Text → ClassName
  many : List Text → ClassName

-- What the highlighter makes of a text; `other` is a comment and the like.
mutual
  pub data HastNode : Type 0 where
    text : Text → HastNode
    element : Text → ClassName → HastNodes → HastNode
    other : HastNode

  pub data HastNodes : Type 0 where
    end : HastNodes
    node : HastNode → HastNodes → HastNodes

-- What React renders: nothing, a text, or an element with its key.
mutual
  pub data ReactNode : Type 0 where
    nothing : ReactNode
    string : Text → ReactNode
    created : Text → ℕ → Option Text → ReactNodes → ReactNode

  pub data ReactNodes : Type 0 where
    no_more : ReactNodes
    child : ReactNode → ReactNodes → ReactNodes

unfoldable pub class_text : ClassName → Option Text
class_text missing = none
class_text (single t) = some t
class_text (many ts) = some (join (lit " ") ts)

-- `node.tagName || "span"`
unfoldable pub tag_or_span : Text → Text
tag_or_span [] = lit "span"
tag_or_span (c ∷ t) = c ∷ t

-- `render_nodes` is `children.map((child, index) => renderNode(child, index))`, from the index `i` on.
unfoldable mutual
  pub render_node : HastNode → ℕ → ReactNode
  render_node (text t) key = string t
  render_node (element tag class_name children) key =
      created (tag_or_span tag) key (class_text class_name) (render_nodes children 0)
  render_node other key = nothing

  pub render_nodes : HastNodes → ℕ → ReactNodes
  render_nodes end i = no_more
  render_nodes (node n ns) i = child (render_node n i) (render_nodes ns (suc i))

-- `languageScopes`
unfoldable pub language_scopes : List (Text × Text)
language_scopes =
    (lit "cpp", lit "source.cpp")
    ∷ (lit "cpp20", lit "source.cpp")
    ∷ (lit "c", lit "source.c")
    ∷ (lit "python", lit "source.python")
    ∷ (lit "py", lit "source.python")
    ∷ (lit "javascript", lit "source.js")
    ∷ (lit "js", lit "source.js")
    ∷ (lit "typescript", lit "source.ts")
    ∷ (lit "ts", lit "source.ts")
    ∷ (lit "go", lit "source.go")
    ∷ (lit "rust", lit "source.rust")
    ∷ []

scope_of : List (Text × Text) → Text → Option Text
scope_of [] lang = none
scope_of ((k, v) ∷ kvs) lang =
    let rest = scope_of kvs lang in if text_eq k lang then some v else rest

source_or_plain : Text → Text
source_or_plain [] = lit "text.plain"
source_or_plain (c ∷ lang) = lit "source." ++ (c ∷ lang)

unfoldable pub scope_id : Option Text → Text
unfolding language_scopes scope_of source_or_plain
scope_id language =
    let lang = to_lower_case (or_else language []) in
    or_else (scope_of language_scopes lang) (source_or_plain lang)

-- The highlighter, a package: which scope a flag stands for, if any, and the tree of a text.
pub record Highlighter : Type 1 where
  pub Scope : Type 0
  pub flag_to_scope : Text → Option Scope
  pub highlight : Text → Scope → HastNodes

-- `a ?? b`
or_other : {A : Type 0} → Option A → Option A → Option A
or_other none b = b
or_other (some x) b = some x

pub highlight_in : (v : Highlighter) → Text → Option v.Scope → ReactNodes
highlight_in v code none = child (string code) no_more
highlight_in v code (some scope) = render_nodes (v.highlight code scope) 0

unfoldable pub highlighted_code : Highlighter → Text → Option Text → ReactNodes
unfolding scope_id or_other highlight_in
highlighted_code v code language =
    highlight_in v code
      (or_other (v.flag_to_scope (scope_id language)) (v.flag_to_scope (lit "text.plain")))

-- The section with the source code: `none` where there is none, or an empty one.
unfoldable pub source_code : Highlighter → Option Text → Option Text → Option ReactNodes
unfolding highlighted_code
source_code v none language = none
source_code v (some []) language = none
source_code v (some (c ∷ code)) language = some (highlighted_code v (c ∷ code) language)

pub record Problem : Type 0 where
  pub id : ℕ
  pub title : Option Text

-- The page around it, where the submission is found; the problem may not be.
pub record Page : Type 0 where
  pub heading : Text
  pub title : Text
  pub problem : Text
  pub links : List Text
  pub language : Text

unfoldable pub links_of : Option Problem → List Text
links_of none = []
links_of (some p) =
    (lit "/problems/" ++ to_string p.id)
    ∷ (lit "/problems/" ++ (to_string p.id ++ lit "/submissions"))
    ∷ []

title_of : Option Problem → Text
title_of none = lit "Untitled problem"
title_of (some p) = or_else p.title (lit "Untitled problem")

problem_id_of : Option Problem → ℕ → ℕ
problem_id_of none i = i
problem_id_of (some p) i = p.id

unfoldable pub submission_page : Option Problem → Submission → Page
unfolding links_of title_of problem_id_of
submission_page problem x = record {
  heading = lit "Submission #" ++ to_string x.id;
  title = title_of problem;
  problem = lit "Problem " ++ to_string (problem_id_of problem x.problem_id);
  links = links_of problem;
  language = language_label x.language;
}

-- The page of a submission: `none` is the page "not found".
unfoldable pub submission_route : Option Submission → Option Problem → Option Page
unfolding submission_page
submission_route none problem = none
submission_route (some x) problem = some (submission_page problem x)

-- The page of a submission below a problem, which
-- is the one of the address.
unfoldable pub problem_submission_route : Option Problem → Option Submission → Option Page
unfolding links_of title_of problem_id_of
problem_submission_route none x = none
problem_submission_route (some p) none = none
problem_submission_route (some p) (some x) = some (record {
  heading = lit "Submission #" ++ to_string x.id;
  title = or_else p.title (lit "Untitled problem");
  problem = lit "Problem " ++ to_string p.id;
  links = links_of (some p);
  language = language_label x.language;
})

-- Its source code.
unfoldable pub plain_code : Option Text → Option Text
plain_code none = none
plain_code (some []) = none
plain_code (some (c ∷ code)) = some (c ∷ code)
