-- ===== src/ProblemEditor/Ids.antt =====
-- frontend/src/app/manager/problems/page.tsx: the ids of the form stay distinct, and there is
-- always a group, under each operation on the groups.
use jjudge.Prelude.{
  ℕ, suc, ◌+◌, ◌≤◌, ◌<◌, ◌≡◌, refl, List, [], ◌∷◌, arith, Option, length, length-append, length-map,
  All, All-append, or_else, All-map, if◌then◌else◌, ◌==◌,
}
use jjudge.ProblemEditor.{ApiGroup, ApiTestcase, Problem, Testcase, TestcaseGroup, Editor}
use jjudge.ProblemEditor.Groups.{
  create_testcase, create_group, map_group, map_testcase, update_group, update_testcase, add_group,
  remove_group, append_testcase, add_testcase, drop_testcase, remove_testcase,
}
use jjudge.ProblemEditor.Distinct.{
  Distinct, Distinct-append, All-without, Distinct-without, length-without, Distinct-at_id,
  All-at_id,
}
use jjudge.ProblemEditor.Handlers.{
  reset_form, fresh_testcases, fresh_groups, ids_of_groups, set_groups, fill_form, fill_fields,
  groups_of,
}

abbrev pub testcase_id : Testcase → ℕ
testcase_id t = t.id

abbrev pub group_id : TestcaseGroup → ℕ
group_id g = g.id

-- The ids of a group are below `n`, and those of its testcases are distinct.
abbrev pub GroupIsValid : ℕ → TestcaseGroup → Type 0
GroupIsValid n g = (g.id < n) × All (λ t. t.id < n) g.testcases × Distinct testcase_id g.testcases

abbrev pub GroupsAreValid : ℕ → List TestcaseGroup → Type 0
GroupsAreValid n gs = (1 ≤ length gs) × All (GroupIsValid n) gs × Distinct group_id gs

-- There is a group; the ids of the groups are distinct, and so are those of the testcases of each;
-- the ids to come are none of them.
abbrev pub IsValid : Editor → Type 0
IsValid s = GroupsAreValid s.supply s.groups

GroupIsValid-grow : (n m : ℕ) (g : TestcaseGroup) → n ≤ m → GroupIsValid n g → GroupIsValid m g
GroupIsValid-grow n m g h (p, q, d) = (omega arith, All-map g.testcases (λ t k. omega arith) q, d)

create_group-IsValid : (n i : ℕ) → GroupIsValid (n + 2) (create_group n i)
unfolding create_group
create_group-IsValid n i = omega arith

-- A single new group.
pub one_group-IsValid : (n : ℕ) → GroupsAreValid (n + 2) (create_group n 0 ∷ [])
one_group-IsValid n = (omega arith, (create_group-IsValid n 0, tt), (tt, tt))

id_of-create_group : (n i : ℕ) → (create_group n i).id ≡ n
unfolding create_group
id_of-create_group n i = refl

pub add_group-IsValid : (s : Editor) → IsValid s → IsValid (add_group s)
unfolding add_group
add_group-IsValid s (l, v, d) = (
  omega (arith, length-append s.groups (create_group s.supply (length s.groups) ∷ [])),
  All-append (GroupIsValid (s.supply + 2)) s.groups _
      (All-map s.groups (λ g. GroupIsValid-grow s.supply (s.supply + 2) g (omega arith)) v)
      (create_group-IsValid s.supply (length s.groups), tt),
  Distinct-append group_id s.supply s.groups _ d (All-map s.groups (λ g h. h.0) v)
      (id_of-create_group s.supply (length s.groups)),
)

pub remove_group-IsValid :
    (i : ℕ) (s : Editor) → 1 < length s.groups → IsValid s → IsValid (remove_group i s)
unfolding remove_group
remove_group-IsValid i s m (l, v, d) = (
  omega (arith, length-without group_id i s.groups d),
  All-without group_id (GroupIsValid s.supply) i s.groups v,
  Distinct-without group_id i s.groups d,
)

append_testcase-IsValid :
    (n : ℕ) (g : TestcaseGroup) → GroupIsValid n g → GroupIsValid (n + 1) (append_testcase n g)
unfolding append_testcase create_testcase
append_testcase-IsValid n g (b, v, d) = (
  omega arith,
  All-append (λ t. t.id < n + 1) g.testcases _ (All-map g.testcases (λ t k. omega arith) v)
      (omega arith),
  Distinct-append testcase_id n g.testcases _ d v refl,
)

drop_testcase-IsValid :
    (n j : ℕ) (g : TestcaseGroup) → GroupIsValid n g → GroupIsValid n (drop_testcase j g)
unfolding drop_testcase
drop_testcase-IsValid n j g (b, v, d) = (
  b,
  All-without testcase_id (λ t. t.id < n) j g.testcases v,
  Distinct-without testcase_id j g.testcases d,
)

map_testcase-IsValid :
    (n j : ℕ) (f : Testcase → Testcase) (g : TestcaseGroup)
    → ((t : Testcase) → (f t).id ≡ t.id)
    → GroupIsValid n g
    → GroupIsValid n (map_testcase j f g)
unfolding map_testcase
map_testcase-IsValid n j f g k (b, v, d) = (
  b,
  All-at_id testcase_id (λ t. t.id < n) (λ t. t.id < n) f j g.testcases (λ t h. rw (k t) h)
      (λ t h. h) v,
  Distinct-at_id testcase_id f k j g.testcases d,
)

-- An updater of a group that keeps its id.
update_group-IsValid :
    (n i : ℕ) (f : TestcaseGroup → TestcaseGroup) (s : Editor)
    → s.supply ≤ n
    → ((g : TestcaseGroup) → (f g).id ≡ g.id)
    → ((g : TestcaseGroup) → GroupIsValid s.supply g → GroupIsValid n (f g))
    → IsValid s
    → GroupsAreValid n (update_group i f s).groups
unfolding update_group map_group
update_group-IsValid n i f s m k h (l, v, d) = (
  omega (
    arith,
    length-map {0, 0} (λ (g : TestcaseGroup). if group_id g == i then f g else g) s.groups,
  ),
  All-at_id group_id (GroupIsValid s.supply) (GroupIsValid n) f i s.groups h
      (λ g. GroupIsValid-grow s.supply n g m) v,
  Distinct-at_id group_id f k i s.groups d,
)

update_group-supply :
    (i : ℕ) (f : TestcaseGroup → TestcaseGroup) (s : Editor)
    → (update_group i f s).supply ≡ s.supply
unfolding update_group
update_group-supply i f s = refl

-- An updater that changes neither ids nor testcases.
pub relabel-IsValid :
    (i : ℕ) (f : TestcaseGroup → TestcaseGroup) (s : Editor)
    → ((g : TestcaseGroup) → (f g).id ≡ g.id)
    → ((g : TestcaseGroup) → GroupIsValid s.supply g → GroupIsValid s.supply (f g))
    → IsValid s
    → IsValid (update_group i f s)
relabel-IsValid i f s k h v =
    rw (update_group-supply i f s) (update_group-IsValid s.supply i f s (omega arith) k h v)

pub add_testcase-IsValid : (i : ℕ) (s : Editor) → IsValid s → IsValid (add_testcase i s)
unfolding add_testcase
add_testcase-IsValid i s v =
    update_group-IsValid (s.supply + 1) i (append_testcase s.supply) s (omega arith)
      (λ g. unfold append_testcase in refl) (λ g h. append_testcase-IsValid s.supply g h) v

pub remove_testcase-IsValid : (i j : ℕ) (s : Editor) → IsValid s → IsValid (remove_testcase i j s)
unfolding remove_testcase
remove_testcase-IsValid i j s v =
    relabel-IsValid i (drop_testcase j) s (λ g. unfold drop_testcase in refl)
      (λ g h. drop_testcase-IsValid s.supply j g h) v

pub update_testcase-IsValid :
    (i j : ℕ) (f : Testcase → Testcase) (s : Editor)
    → ((t : Testcase) → (f t).id ≡ t.id)
    → IsValid s
    → IsValid (update_testcase i j f s)
unfolding update_testcase
update_testcase-IsValid i j f s k v =
    relabel-IsValid i (map_testcase j f) s (λ g. unfold map_testcase in refl)
      (λ g h. map_testcase-IsValid s.supply j f g k h) v

-- The groups of a problem that is loaded.
fresh_testcases-IsValid :
    (n i m : ℕ) (ts : List ApiTestcase)
    → n + length ts ≤ m
    → All (λ t. t.id < m) (fresh_testcases n i ts)
      × All (λ t. n ≤ t.id) (fresh_testcases n i ts)
      × Distinct testcase_id (fresh_testcases n i ts)
unfolding fresh_testcases create_testcase
fresh_testcases-IsValid n i m [] h = (tt, tt, tt)
fresh_testcases-IsValid n i m (t ∷ ts) h =
    let (below, above, distinct) = fresh_testcases-IsValid (n + 1) (suc i) m ts (omega arith) in
    (
      (omega arith, below),
      (omega arith, All-map (fresh_testcases (n + 1) (suc i) ts) (λ t k. omega arith) above),
      (All-map (fresh_testcases (n + 1) (suc i) ts) (λ t k. omega arith) above, distinct),
    )

fresh_groups-IsValid :
    (n i : ℕ) (gs : List ApiGroup) (m : ℕ)
    → n + ids_of_groups gs ≤ m
    → All (GroupIsValid m) (fresh_groups n i gs)
      × All (λ g. n ≤ g.id) (fresh_groups n i gs)
      × Distinct group_id (fresh_groups n i gs)
unfolding fresh_groups ids_of_groups
fresh_groups-IsValid n i [] m h = (tt, tt, tt)
fresh_groups-IsValid n i (g ∷ gs) m h =
    let ts = or_else g.testcases [] in
    let next = n + 1 + length ts in
    let (below, above, distinct) = fresh_groups-IsValid next (suc i) gs m (omega arith) in
    let (bound, _, apart) = fresh_testcases-IsValid (n + 1) 0 m ts (omega arith) in
    (
      ((omega arith, bound, apart), below),
      (omega arith, All-map (fresh_groups next (suc i) gs) (λ g k. omega arith) above),
      (All-map (fresh_groups next (suc i) gs) (λ g k. omega arith) above, distinct),
    )

length-fresh_groups :
    (n i : ℕ) (g : ApiGroup) (gs : List ApiGroup) → 1 ≤ length (fresh_groups n i (g ∷ gs))
unfolding fresh_groups
length-fresh_groups n i g gs = omega arith

set_groups-IsValid : (gs : List ApiGroup) (s : Editor) → IsValid (set_groups gs s)
unfolding set_groups
set_groups-IsValid [] s = one_group-IsValid s.supply
set_groups-IsValid (g ∷ gs) s =
    let (valid, _, distinct) =
      fresh_groups-IsValid s.supply 0 (g ∷ gs) (s.supply + ids_of_groups (g ∷ gs)) (omega arith) in
    (length-fresh_groups s.supply 0 g gs, valid, distinct)

pub fill_form-IsValid : (p : Option Problem) (s : Editor) → IsValid (fill_form p s)
unfolding fill_form
fill_form-IsValid p s = set_groups-IsValid (groups_of p) (fill_fields p s)

pub reset_form-IsValid : (s : Editor) → IsValid (reset_form s)
unfolding reset_form
reset_form-IsValid s = one_group-IsValid s.supply
