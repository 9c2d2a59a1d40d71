-- ===== src/Leaderboard/Table.antt =====
-- The shape of the leaderboard.
use jjudge.Prelude.{
  ℕ, zero, suc, ◌+◌, ◌≡◌, ◌≢◌, refl, none, text_eq, text_eq_refl, text_eq_sound, Bool-cases, inl,
  inr, ap, sym, ◌∙◌, Bool, true, false, List, [], ◌∷◌, ◌++◌, map, Option, some, length,
  length-append, length-map, get_elem?, Text, lit, to_string, if◌then◌else◌, arith,
}
use jjudge.Leaderboard.{
  Contest, ContestProblem, ContestProblemResult, LeaderboardEntry, result_cell, lookup,
  sorted_problems, is_icpc, problem_cell, icpc_cell, header, entry_row, penalty_cell,
}
use jjudge.Contest.{ordinal_label}

-- The cells before those of the problems.
abbrev pub fixed_columns : Option Contest → ℕ
fixed_columns contest = if is_icpc contest then 4 else 3

get_elem?-append :
    {A : Type 0} (xs ys : List A) (i : ℕ) → get_elem? (xs ++ ys) (length xs + i) ≡ get_elem? ys i
get_elem?-append [] ys i = let e : 0 + i ≡ i = omega arith in rw e refl
get_elem?-append (x ∷ xs) ys i =
    let e : suc (length xs) + i ≡ suc (length xs + i) = omega arith in
    rw e (get_elem?-append xs ys i)

get_elem?-map :
    {A B : Type 0} (f : A → B) (xs : List A) (i : ℕ) (x : A)
    → get_elem? xs i ≡ some x
    → get_elem? (map f xs) i ≡ some (f x)
get_elem?-map f [] i x e = cc
get_elem?-map f (y ∷ ys) zero x e = cc
get_elem?-map f (y ∷ ys) (suc i) x e = get_elem?-map f ys i x e

get_elem?-columns :
    {A : Type 0} (f : A → Text) (xs : List Text) (ps : List A) (i n : ℕ) (p : A)
    → length xs ≡ n
    → get_elem? ps i ≡ some p
    → get_elem? (xs ++ map f ps) (n + i) ≡ some (f p)
get_elem?-columns f xs ps i n p h e =
    rw (sym h) (get_elem?-append xs (map f ps) i ∙ get_elem?-map f ps i p e)

length-columns :
    {A : Type 0} (f : A → Text) (xs : List Text) (ps : List A)
    → length (xs ++ map f ps) ≡ length xs + length ps
length-columns f xs ps = length-append xs (map f ps) ∙ ap (λ n. length xs + n) (length-map f ps)

header_cells : Option Contest → List Text
header_cells contest =
    lit "Rank"
    ∷ (lit "User"
        ∷ ((if is_icpc contest then lit "Solved" else lit "Score")
            ∷ icpc_cell (is_icpc contest) (lit "Penalty")))

entry_cells : Option Contest → LeaderboardEntry → List Text
entry_cells contest entry =
    (lit "#" ++ to_string entry.rank)
    ∷ (entry.username
        ∷ (to_string entry.total_score
            ∷ icpc_cell (is_icpc contest) (penalty_cell entry.penalty_seconds)))

length-icpc_cell : (b : Bool) (t : Text) → 3 + length (icpc_cell b t) ≡ (if b then 4 else 3)
unfolding icpc_cell
length-icpc_cell true t = refl
length-icpc_cell false t = refl

length-header_cells :
    (contest : Option Contest) → length (header_cells contest) ≡ fixed_columns contest
unfolding header_cells
length-header_cells contest = omega (arith, length-icpc_cell (is_icpc contest) (lit "Penalty"))

length-entry_cells :
    (contest : Option Contest) (entry : LeaderboardEntry)
    → length (entry_cells contest entry) ≡ fixed_columns contest
unfolding entry_cells
length-entry_cells contest entry =
    omega (arith, length-icpc_cell (is_icpc contest) (penalty_cell entry.penalty_seconds))

-- The texts of a result, of one that is there by the contest's scoring.
abbrev pub result_text : Bool → ContestProblemResult → Text
result_text icpc pr =
    if icpc
    then (if pr.accepted then lit "+" else lit "-") ++ to_string pr.attempts
    else to_string pr.score

-- What an entry has for the id of a problem: its result, or nothing. No key stands twice in an object, so
-- none before the result is the id.
pub data ResultFor (id : ℕ)
    : List (Text × ContestProblemResult) → Option ContestProblemResult → Type 0 where
  absent : ResultFor id [] none
  present :
      (pr : ContestProblemResult) (kvs : List (Text × ContestProblemResult))
      → ResultFor id ((to_string id, pr) ∷ kvs) (some pr)
  past :
      {k : Text} {pr : ContestProblemResult} {kvs : List (Text × ContestProblemResult)}
      {r : Option ContestProblemResult}
      → k ≢ to_string id
      → ResultFor id kvs r
      → ResultFor id ((k, pr) ∷ kvs) r

-- The text in the column of a problem.
abbrev pub cell_text : Bool → Option ContestProblemResult → Text
cell_text icpc none = lit "—"
cell_text icpc (some pr) = result_text icpc pr

text_eq_no : (s t : Text) → s ≢ t → text_eq s t ≡ false
text_eq_no s t n = elim (Bool-cases (text_eq s t)) [
  | inl e ↦ absurd (n (text_eq_sound s t e))
  | inr e ↦ e
]

lookup-ResultFor :
    (id : ℕ) (kvs : List (Text × ContestProblemResult)) (r : Option ContestProblemResult)
    → ResultFor id kvs r
    → lookup (to_string id) kvs ≡ r
unfolding lookup
lookup-ResultFor id _ _ absent = refl
lookup-ResultFor id _ _ (present pr kvs) = rw (text_eq_refl (to_string id)) refl
lookup-ResultFor id _ _ (past {k} {pr} {kvs} {r} n h) =
    rw (text_eq_no k (to_string id) n) (lookup-ResultFor id kvs r h)

result_cell-cell_text :
    (icpc accepted : Bool) (pr : ContestProblemResult)
    → pr.accepted ≡ accepted
    → result_cell icpc (some pr) ≡ result_text icpc pr
unfolding result_cell
result_cell-cell_text true true pr e = rw e refl
result_cell-cell_text true false pr e = rw e refl
result_cell-cell_text false b pr e = refl

no_result : (icpc : Bool) → result_cell icpc none ≡ lit "—"
unfolding result_cell
no_result true = refl
no_result false = refl

problem_cell-cell_text :
    (icpc : Bool) (entry : LeaderboardEntry) (cp : ContestProblem) (r : Option ContestProblemResult)
    → ResultFor cp.problem_id entry.problem_results r
    → problem_cell icpc entry cp ≡ cell_text icpc r
unfolding problem_cell
problem_cell-cell_text icpc entry cp none h =
    rw (lookup-ResultFor cp.problem_id entry.problem_results none h) (no_result icpc)
problem_cell-cell_text icpc entry cp (some pr) h =
    rw (lookup-ResultFor cp.problem_id entry.problem_results (some pr) h)
      (result_cell-cell_text icpc pr.accepted pr refl)

-- Every row of the leaderboard has as many cells as the header, and its columns are those of the header:
-- after the fixed ones, the column of the problem at place `i` of the contest's order is headed by the
-- letter of the problem, and holds what the entry has for the id of this problem: the attempts behind a
-- plus or a minus where the contest is scored as ICPC, else the score, and a dash where there is no
-- result.
pub entry_row-header :
    (contest : Option Contest) (entry : LeaderboardEntry) (i : ℕ) (cp : ContestProblem)
    (r : Option ContestProblemResult)
    → get_elem? (sorted_problems contest) i ≡ some cp
    → ResultFor cp.problem_id entry.problem_results r
    → (length (entry_row contest entry) ≡ length (header contest))
      × (get_elem? (header contest) (fixed_columns contest + i) ≡ some (ordinal_label cp.ordinal))
      × (get_elem? (entry_row contest entry) (fixed_columns contest + i)
          ≡ some (cell_text (is_icpc contest) r))
unfolding header entry_row header_cells entry_cells
entry_row-header contest entry i cp r e f =
    let ps = sorted_problems contest in
    let letter : ContestProblem → Text = λ p. ordinal_label p.ordinal in
    let cell = problem_cell (is_icpc contest) entry in
    let h = length-header_cells contest in
    let k = length-entry_cells contest entry in
    (
      length-columns cell (entry_cells contest entry) ps
          ∙ ap (λ n. n + length ps) (k ∙ sym h)
          ∙ sym (length-columns letter (header_cells contest) ps),
      get_elem?-columns letter (header_cells contest) ps i (fixed_columns contest) cp h e,
      get_elem?-columns cell (entry_cells contest entry) ps i (fixed_columns contest) cp k e
          ∙ ap some (problem_cell-cell_text (is_icpc contest) entry cp r f),
    )
