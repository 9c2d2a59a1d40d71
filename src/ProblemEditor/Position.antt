-- ===== src/ProblemEditor/Position.antt =====
-- frontend/src/app/manager/problems/page.tsx: an update by ids is an update at one position.
use jjudge.Prelude.{
  ℕ, zero, suc, ◌≡◌, refl, ap, ◌∙◌, List, [], ◌∷◌, some, get_elem?, set, arith, All, ◌≢◌,
}
use jjudge.ProblemEditor.{Testcase, TestcaseGroup, Editor}
use jjudge.ProblemEditor.Groups.{map_group, map_testcase, update_group, update_testcase}
use jjudge.ProblemEditor.Distinct.{Absent, Distinct, at_id}
use jjudge.ProblemEditor.Ids.{GroupIsValid, IsValid, group_id, testcase_id}

module _ {A : Type 0} (id : A → ℕ) (f : A → A) where
  at_id-Absent : (i : ℕ) (xs : List A) → Absent id i xs → at_id id i f xs ≡ xs
  at_id-Absent i [] h = refl
  at_id-Absent i (x ∷ xs) (p, h) = ground (arith, at_id-Absent i xs h)

  Absent-get : (i k : ℕ) (xs : List A) (x : A) → Absent id i xs → get_elem? xs k ≡ some x → id x ≢ i
  Absent-get i k [] x h e = cc
  Absent-get i zero (y ∷ xs) x (p, h) e = ground arith
  Absent-get i (suc k) (y ∷ xs) x (p, h) e = Absent-get i k xs x h e

  at_id-set :
      (k : ℕ) (xs : List A) (x : A)
      → Distinct id xs
      → get_elem? xs k ≡ some x
      → at_id id (id x) f xs ≡ set xs k (f x)
  at_id-set k [] x d e = cc
  at_id-set zero (y ∷ xs) x (a, d) e =
      let same : y ≡ x = ground arith in
      let tail = at_id-Absent (id x) xs (rw same at a) in ground arith
  at_id-set (suc k) (y ∷ xs) x (a, d) e =
      let other = Absent-get (id y) k xs x a e in ground (arith, at_id-set k xs x d e)

All-get :
    {A : Type 0} (P : A → Type 0) (k : ℕ) (xs : List A) (x : A)
    → All P xs
    → get_elem? xs k ≡ some x
    → P x
All-get P k [] x h e = cc
All-get P zero (y ∷ xs) x (p, h) e = let same : y ≡ x = ground arith in rw (← same) p
All-get P (suc k) (y ∷ xs) x (p, h) e = All-get P k xs x h e

-- In a valid form an input of testcase `j` of group `i`, addressed by the two ids, changes that
-- testcase and nothing else.
pub update_testcase-set :
    (s : Editor) (i j : ℕ) (g : TestcaseGroup) (t : Testcase) (f : Testcase → Testcase)
    → IsValid s
    → get_elem? s.groups i ≡ some g
    → get_elem? g.testcases j ≡ some t
    → update_testcase g.id t.id f s
      ≡ record s { groups = set s.groups i (record g { testcases = set g.testcases j (f t) }) }
unfolding update_testcase update_group map_group
update_testcase-set s i j g t f v p q =
    let (_, _, apart) = All-get (GroupIsValid s.supply) i s.groups g v.1 p in
    let inner : map_testcase t.id f g ≡ record g { testcases = set g.testcases j (f t) } =
      unfold map_testcase in
      ap (λ ts. record g { testcases = ts }) (at_id-set testcase_id f j g.testcases t apart q) in
    ap (λ gs. record s { groups = gs })
      (at_id-set group_id (map_testcase t.id f) i s.groups g v.2 p ∙ ap (set s.groups i) inner)
