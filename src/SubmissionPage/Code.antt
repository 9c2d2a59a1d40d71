-- ===== src/SubmissionPage/Code.antt =====
-- The source code as it is shown.
use mathlib.Core.List.{append-nil}
use jjudge.Prelude.{ℕ, suc, ◌≡◌, refl, ◌∙◌, [], ◌∷◌, ◌++◌, Option, none, some, Text, lit, or_else}
use jjudge.SubmissionPage.{
  HastNode, text, element, other, HastNodes, end, node, ReactNode, nothing, string, created,
  ReactNodes, no_more, child, render_node, render_nodes, Highlighter, highlight_in,
  highlighted_code, or_other, source_code, scope_id,
}

-- The text that a tree of the highlighter stands for, and the one that the browser shows.
unfoldable mutual
  pub hast_text : HastNode → Text
  hast_text (text t) = t
  hast_text (element tag class_name children) = hast_texts children
  hast_text other = []

  pub hast_texts : HastNodes → Text
  hast_texts end = []
  hast_texts (node n ns) = hast_text n ++ hast_texts ns

unfoldable mutual
  pub shown_text : ReactNode → Text
  shown_text nothing = []
  shown_text (string t) = t
  shown_text (created tag key class_name children) = shown_texts children

  pub shown_texts : ReactNodes → Text
  shown_texts no_more = []
  shown_texts (child n ns) = shown_text n ++ shown_texts ns

mutual
  unfolding render_node render_nodes hast_text hast_texts shown_text shown_texts

  shown_text-render_node : (n : HastNode) (key : ℕ) → shown_text (render_node n key) ≡ hast_text n
  shown_text-render_node (text t) key = refl
  shown_text-render_node (element tag class_name children) key = shown_texts-render_nodes children 0
  shown_text-render_node other key = refl

  shown_texts-render_nodes :
      (ns : HastNodes) (i : ℕ) → shown_texts (render_nodes ns i) ≡ hast_texts ns
  shown_texts-render_nodes end i = refl
  shown_texts-render_nodes (node n ns) i =
      cc (shown_text-render_node n i, shown_texts-render_nodes ns (suc i))

shown_texts-highlight_in :
    (v : Highlighter)
    (keeps : (code : Text) (scope : v.Scope) → hast_texts (v.highlight code scope) ≡ code)
    (code : Text) (scope : Option v.Scope)
    → shown_texts (highlight_in v code scope) ≡ code
unfolding highlight_in shown_text shown_texts
shown_texts-highlight_in v keeps code none = append-nil code
shown_texts-highlight_in v keeps code (some scope) =
    shown_texts-render_nodes (v.highlight code scope) 0 ∙ keeps code scope

-- The text in the section with the source code, which is empty where the section says that there is none.
unfoldable pub section_text : Option ReactNodes → Text
section_text none = []
section_text (some ns) = shown_texts ns

-- Where the highlighter keeps the text of what it highlights, the section of the page shows exactly the
-- code of the submission, character by character, whatever its language is and whether or not the
-- highlighter knows a scope for it or for plain text; where there is no code, or an empty one, it
-- shows no text.
pub source_code-Keeps :
    (v : Highlighter)
    → ((code : Text) (scope : v.Scope) → hast_texts (v.highlight code scope) ≡ code)
    → (code : Option Text) (language : Option Text)
    → section_text (source_code v code language) ≡ or_else code []
unfolding source_code highlighted_code section_text
source_code-Keeps v keeps none language = refl
source_code-Keeps v keeps (some []) language = refl
source_code-Keeps v keeps (some (c ∷ code)) language =
    shown_texts-highlight_in v keeps (c ∷ code)
      (or_other (v.flag_to_scope (scope_id language)) (v.flag_to_scope (lit "text.plain")))
