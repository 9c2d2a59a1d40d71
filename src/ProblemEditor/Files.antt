-- ===== src/ProblemEditor/Files.antt =====
-- frontend/src/app/manager/problems/page.tsx: the form of an upload holds each chosen file under
-- the key that the metadata names for its testcase.
use mathlib.Core.List.{append-nil}
use native.Mathlib.Nat.{zero-add}
use jjudge.Prelude.{
  ℕ, zero, suc, ◌+◌, ◌<◌, ◌≡◌, ◌≢◌, refl, ◌&&◌, List, [], ◌∷◌, ◌++◌, arith, ◌==◌, Option, none,
  some, ◌⊎◌, if◌then◌else◌, Text, text_eq, get_elem?, inl, inr,
}
use jjudge.ProblemEditor.{Testcase, TestcaseGroup, Editor, File, Entry, file, FormData}
use jjudge.ProblemEditor.Groups.{get_input_key, get_output_key}
use jjudge.ProblemEditor.Payload.{
  append_file, testcase_files, group_files, all_files, individual_form,
}
use jjudge.ProblemEditor.Keys.{
  text_eq-input_key, text_eq-output_key, text_eq-input_key-output_key, text_eq-output_key-input_key,
  text_eq-key-metadata,
}

-- `formData.getAll(key)`
pub get_all : Text → FormData → List Entry
get_all key [] = []
get_all key ((k, e) ∷ form) = if text_eq key k then e ∷ get_all key form else get_all key form

get_all-append :
    (key : Text) (a b : FormData) → get_all key (a ++ b) ≡ get_all key a ++ get_all key b
unfolding get_all
get_all-append key [] b = refl
get_all-append key ((k, e) ∷ a) b = ground (arith, get_all-append key a b)

-- A chosen file as the one entry, or none.
abbrev pub entries : Option File → List Entry
entries none = []
entries (some f) = file f ∷ []

-- The file that a testcase has chosen, if there is such a testcase.
abbrev pub chosen : (Testcase → Option File) → Option Testcase → Option File
chosen pick none = none
chosen pick (some t) = pick t

abbrev pub testcases_of : Option TestcaseGroup → List Testcase
testcases_of none = []
testcases_of (some g) = g.testcases

get_all-append_file :
    (key k : Text) (f : Option File)
    → get_all key (append_file k f) ≡ (if text_eq key k then entries f else [])
unfolding get_all append_file
get_all-append_file key k none = ground arith
get_all-append_file key k (some f) = ground arith

get_all-testcase_files :
    (i j k l : ℕ) (t : Testcase)
    → (get_all (get_input_key i j) (testcase_files k l t)
        ≡ (if (i == k) && (j == l) then entries t.in_file else []))
      × (get_all (get_output_key i j) (testcase_files k l t)
          ≡ (if (i == k) && (j == l) then entries t.out_file else []))
unfolding testcase_files
get_all-testcase_files i j k l t = (
  simp (
    get_all-append, get_all-append_file, text_eq-input_key, text_eq-input_key-output_key,
    append-nil,
  ),
  simp (get_all-append, get_all-append_file, text_eq-output_key, text_eq-output_key-input_key),
)

-- Both kinds of keys at once: `key` with the file `pick` of a testcase.
module _ (key : ℕ → ℕ → Text) (pick : Testcase → Option File)
    (one : (i j k l : ℕ) (t : Testcase)
      → get_all (key i j) (testcase_files k l t)
        ≡ (if (i == k) && (j == l) then entries (pick t) else [])) where
  before :
      (i j k l : ℕ) (ts : List Testcase)
      → (i ≢ k) ⊎ (j < l)
      → get_all (key i j) (group_files k l ts) ≡ []
  unfolding group_files
  before i j k l [] h = unfold get_all in refl
  before i j k l (t ∷ ts) h =
      rw
        (
          get_all-append (key i j) (testcase_files k l t) (group_files k (suc l) ts),
          one i j k l t,
          before i j k (suc l) ts (omega arith),
        )
        (ground arith)

  found :
      (i l d : ℕ) (ts : List Testcase)
      → get_all (key i (l + d)) (group_files i l ts) ≡ entries (chosen pick (get_elem? ts d))
  unfolding group_files
  found i l d [] = unfold get_all in refl
  found i l zero (t ∷ ts) =
      rw
        (
          get_all-append (key i (l + 0)) (testcase_files i l t) (group_files i (suc l) ts),
          one i (l + 0) i l t,
          before i (l + 0) i (suc l) ts (inr (omega arith)),
          append-nil,
        )
        (ground arith)
  found i l (suc d) (t ∷ ts) =
      let shift : l + suc d ≡ suc l + d = omega arith in
      rw
        (
          get_all-append (key i (l + suc d)) (testcase_files i l t) (group_files i (suc l) ts),
          one i (l + suc d) i l t,
          shift,
          found i (suc l) d ts,
        )
        (ground arith)

  all_before :
      (i j k : ℕ) (gs : List TestcaseGroup) → i < k → get_all (key i j) (all_files k gs) ≡ []
  unfolding all_files
  all_before i j k [] h = unfold get_all in refl
  all_before i j k (g ∷ gs) h = rw (
    get_all-append (key i j) (group_files k 0 g.testcases) (all_files (suc k) gs),
    before i j k 0 g.testcases (inl (omega arith)),
    all_before i j (suc k) gs (omega arith),
  )

  all_found :
      (k d j : ℕ) (gs : List TestcaseGroup)
      → get_all (key (k + d) j) (all_files k gs)
        ≡ entries (chosen pick (get_elem? (testcases_of (get_elem? gs d)) j))
  unfolding all_files
  all_found k d j [] = unfold get_all in refl
  all_found k zero j (g ∷ gs) =
      let here : k + 0 ≡ k = omega arith in
      rw
        (
          here,
          get_all-append (key k j) (group_files k 0 g.testcases) (all_files (suc k) gs),
          all_before k j (suc k) gs (omega arith),
          append-nil,
        )
        (rw zero-add at (found k 0 j g.testcases))
  all_found k (suc d) j (g ∷ gs) =
      let shift : k + suc d ≡ suc k + d = omega arith in
      rw
        (
          shift,
          get_all-append (key (suc k + d) j) (group_files k 0 g.testcases) (all_files (suc k) gs),
          before (suc k + d) j k 0 g.testcases (inl (omega arith)),
        )
        (all_found (suc k) d j gs)

-- The form of an upload of individual files: under the input key of testcase `j` of group `i` it
-- has the input file that was chosen there and nothing else, under the output key the output file;
-- nothing where no file was chosen, or where there is no such testcase.
pub get_all-individual_form :
    (s : Editor) (i j : ℕ)
    → let t = get_elem? (testcases_of (get_elem? s.groups i)) j in
      (get_all (get_input_key i j) (individual_form s) ≡ entries (chosen (λ t. t.in_file) t))
      × (get_all (get_output_key i j) (individual_form s) ≡ entries (chosen (λ t. t.out_file) t))
unfolding get_all individual_form
get_all-individual_form s i j =
    let (p, q) = text_eq-key-metadata i j in
    (
      rw p (
          rw zero-add at (
            all_found get_input_key (λ t. t.in_file)
              (λ i j k l t. (get_all-testcase_files i j k l t).0) 0 i j s.groups)),
      rw q (
          rw zero-add at (
            all_found get_output_key (λ t. t.out_file)
              (λ i j k l t. (get_all-testcase_files i j k l t).1) 0 i j s.groups)),
    )
