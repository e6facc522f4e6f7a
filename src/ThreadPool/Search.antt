-- ===== src/ThreadPool/Search.antt =====
-- The cycle search: its fuel is enough, and it finds an id that it will come to.
use stv_renew.Prelude.{
  ◌≡◌, refl, ◌≢◌, inl, inr, ℕ, zero, suc, ◌+◌, ◌<◌, ◌≤◌, Bool, true, false, String, List, [], ◌∷◌,
  none, some, arith, Bool-cases, str_eq, eq_iff, contains, length, if◌then◌else◌,
}
use stv_renew.ThreadPool.State.{Successors, successors_of}
use stv_renew.ThreadPool.Graph.{push_all, edge_count, cycle_search}

-- The edges out of the ids that were not visited.
pub budget : Successors → List String → ℕ
budget [] visited = 0
budget ((k, v) ∷ m) visited =
    if contains visited k then budget m visited else length v + budget m visited

pub length-push_all :
    (xs stack : List String) → length (push_all xs stack) ≡ length xs + length stack
length-push_all [] stack = omega arith
length-push_all (x ∷ xs) stack = omega (arith, length-push_all xs (x ∷ stack))

pub budget_empty : (succ : Successors) → budget succ [] ≡ edge_count succ
unfolding budget
budget_empty [] = refl
budget_empty ((k, v) ∷ m) = omega (arith, budget_empty m)

budget_mono :
    (succ : Successors) (x : String) (visited : List String)
    → budget succ (x ∷ visited) ≤ budget succ visited
unfolding budget
budget_mono [] x visited = omega arith
budget_mono ((k, v) ∷ m) x visited = ground (arith, budget_mono m x visited)

-- Visiting an id takes its edges out of the budget.
budget_visit :
    (succ : Successors) (x : String) (visited : List String)
    → contains visited x ≡ false
    → budget succ (x ∷ visited) + length (successors_of x succ) ≤ budget succ visited
unfolding budget successors_of
budget_visit [] x visited h = omega arith
budget_visit ((k, v) ∷ m) x visited h =
    ground (arith, eq_iff k x, eq_iff x k, budget_visit m x visited h, budget_mono m x visited)

pub cycle_search_answers :
    (fuel : ℕ) (succ : Successors) (id : String) (stack visited : List String)
    → length stack + budget succ visited < fuel
    → cycle_search fuel succ id stack visited ≢ none
unfolding cycle_search
cycle_search_answers zero succ id stack visited h = absurd (omega arith)
cycle_search_answers (suc fuel) succ id [] visited h = λ e. cc
cycle_search_answers (suc fuel) succ id (x ∷ stack) visited h = ground (
  arith,
  cycle_search_answers fuel succ id stack visited,
  cycle_search_answers fuel succ id (push_all (successors_of x succ) stack) (x ∷ visited),
  length-push_all (successors_of x succ) stack,
  budget_visit succ x visited,
)

pub contains-push_all :
    (id : String) (xs stack : List String)
    → contains stack id ≡ true
    → contains (push_all xs stack) id ≡ true
contains-push_all id [] stack h = h
contains-push_all id (x ∷ xs) stack h = contains-push_all id xs (x ∷ stack) (ground arith)

pub contains-push_all_new :
    (id : String) (xs stack : List String)
    → contains xs id ≡ true
    → contains (push_all xs stack) id ≡ true
contains-push_all_new id [] stack h = cc
contains-push_all_new id (x ∷ xs) stack h = elim (Bool-cases (str_eq x id)) [
  | inl e ↦ contains-push_all id xs (x ∷ stack) (rw e)
  | inr e ↦ contains-push_all_new id xs (x ∷ stack) (rw e at h)
]

-- An id on the stack stays there until it is popped, and then the answer is yes.
cycle_search_on_stack :
    (fuel : ℕ) (succ : Successors) (id : String) (stack visited : List String) (b : Bool)
    → contains stack id ≡ true
    → cycle_search fuel succ id stack visited ≡ some b
    → b ≡ true
unfolding cycle_search
cycle_search_on_stack zero succ id stack visited b k h = cc
cycle_search_on_stack (suc fuel) succ id [] visited b k h = cc
cycle_search_on_stack (suc fuel) succ id (x ∷ stack) visited b k h = ground (
  arith,
  cycle_search_on_stack fuel succ id stack visited b,
  cycle_search_on_stack fuel succ id (push_all (successors_of x succ) stack) (x ∷ visited) b,
  contains-push_all id (successors_of x succ) stack,
)
