-- ===== src/SubmissionPage/Tests.antt =====
-- The source code of a submission on a small highlighter.
use mathlib.Core.List.{append-nil}
use jjudge.Prelude.{
  ◌≡◌, refl, ◌∙◌, ◌++◌, [], ◌∷◌, none, some, Text, lit, text_eq, to_lower_case, join,
}
use jjudge.SubmissionPage.{
  HastNodes, end, node, text, element, many, Highlighter, no_more, child, string, created,
  source_code, scope_id, highlighted_code, highlight_in, render_node, render_nodes, class_text,
  tag_or_span, language_scopes,
}
use jjudge.SubmissionPage.Code.{source_code-Keeps, section_text, hast_text, hast_texts}

-- A highlighter with one scope, which puts the whole code into a span with two classes.
abbrev pl_span : Text → Text → HastNodes
pl_span code scope = node (element [] (many (lit "pl" ∷ scope ∷ [])) (node (text code) end)) end

abbrev one_span : Highlighter
one_span = record { Scope = Text; flag_to_scope = some; highlight = pl_span }

one_span-keeps : (code scope : Text) → hast_texts (pl_span code scope) ≡ code
unfolding hast_text hast_texts
one_span-keeps code scope = append-nil (code ++ []) ∙ append-nil code

scope_id_test : scope_id (some (lit "CPP")) ≡ lit "source.cpp"
unfolding scope_id language_scopes text_eq to_lower_case lit
scope_id_test = refl

scope_id_plain_test : scope_id none ≡ lit "text.plain"
unfolding scope_id language_scopes text_eq to_lower_case lit
scope_id_plain_test = refl

source_code_test :
    source_code one_span (some (lit "x = 1")) (some (lit "py"))
    ≡ some (
        child
          (created
            (lit "span")
            0
            (some (lit "pl source.python"))
            (child (string (lit "x = 1")) no_more))
          no_more)
unfolding source_code highlighted_code highlight_in render_node render_nodes class_text tag_or_span
    scope_id language_scopes text_eq to_lower_case join lit
source_code_test = refl

source_code-Keeps_example :
    section_text (source_code one_span (some (lit "x = 1")) (some (lit "py"))) ≡ lit "x = 1"
source_code-Keeps_example =
    source_code-Keeps one_span one_span-keeps (some (lit "x = 1")) (some (lit "py"))
