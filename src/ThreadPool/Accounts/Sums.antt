-- ===== src/ThreadPool/Accounts/Sums.antt =====
-- What the nodes hold together, and how writes to the tables change it.
use stv_renew.ThreadPool.Changes.{IsNormal}
use mathlib.Core.Path.{subst}
use stv_renew.Prelude.{
  ◌≡◌, ◌≢◌, ◌∙◌, sym, ap, ◌⊎◌, inl, inr, ℕ, ◌+◌, Bool, true, false, ◌||◌, String, List, [], ◌∷◌,
  ◌++◌, Option, none, some, Bool-cases, some_inj, contains, str_eq, str_eq-cases, if◌then◌else◌,
  if_true, if_false, arith, eq_iff, All,
}
use stv_renew.Prelude.Int.{
  ℤ, pos, pos_part, leb_ℤ, max_ℤ, ◌+ℤ◌, ◌-ℤ◌, +ℤ_parts, -ℤ_parts, eq_of_parts,
}
use stv_renew.Task.{ResourceDemand}
use stv_renew.ThreadPool.State.{
  Node, ResourceUsage, find_node, set_node, insert, erase, reserve_resources, release_resources,
}
use stv_renew.ThreadPool.Nodes.{find_node-set_node_same, find_node-set_node_other}

-- What a node holds of one resource, and what all the marked nodes hold of it.
abbrev pub share : (ResourceDemand → ℤ) → Node → ℕ
share f n = if n.running then pos_part (f n.task.resource_demand) else 0

abbrev pub total : (ResourceDemand → ℤ) → List Node → ℕ
total f [] = 0
total f (n ∷ ns) = share f n + total f ns

abbrev pub usage : List Node → ResourceUsage
usage ns = record {
  cpu_slots = pos (total (λ d. d.cpu_slots) ns);
  ram_mb = pos (total (λ d. d.ram_mb) ns);
  vram_mb = pos (total (λ d. d.vram_mb) ns);
}

abbrev mark_of : Option Node → Bool
mark_of none = false
mark_of (some n) = n.running

-- The node exists and bears the running mark.
abbrev pub marked : String → List Node → Bool
marked id ns = mark_of (find_node id ns)

pub total-set_node :
    (f : ResourceDemand → ℤ) (n n' : Node) (ns : List Node)
    → find_node n'.task.task_id ns ≡ some n
    → total f (set_node n' ns) + share f n ≡ total f ns + share f n'
unfolding find_node set_node
total-set_node f n n' [] h = cc
total-set_node f n n' (x ∷ ns) h = ground (arith, total-set_node f n n' ns)

pub total-append :
    (f : ResourceDemand → ℤ) (n : Node) (ns : List Node)
    → total f (ns ++ n ∷ []) ≡ total f ns + share f n
total-append f n [] = omega arith
total-append f n (x ∷ ns) = omega (arith, total-append f n ns)

module _ (P : Node → Type 0) where
  pub All-find_node :
      (id : String) (ns : List Node) (n : Node) → All P ns → find_node id ns ≡ some n → P n
  unfolding find_node
  All-find_node id [] n a h = cc
  All-find_node id (x ∷ ns) n a h = elim (Bool-cases (str_eq x.task.task_id id)) [
    | inl e ↦ subst P (some_inj (ground arith)) a.0
    | inr e ↦ All-find_node id ns n a.1 (ground arith)
  ]

  pub All-set_node : (n : Node) (ns : List Node) → All P ns → P n → All P (set_node n ns)
  unfolding set_node
  All-set_node n [] a h = tt
  All-set_node n (x ∷ ns) a h = elim (Bool-cases (str_eq x.task.task_id n.task.task_id)) [
    | inl e ↦ rw e (h, a.1)
    | inr e ↦ rw e (a.0, All-set_node n ns a.1 h)
  ]

  pub All-append : (n : Node) (ns : List Node) → All P ns → P n → All P (ns ++ n ∷ [])
  All-append n [] a h = (h, tt)
  All-append n (x ∷ ns) a h = (a.0, All-append n ns a.1 h)

contains-append :
    (y : String) (xs : List String) (x : String)
    → contains (xs ++ x ∷ []) y ≡ (contains xs y || str_eq x y)
contains-append y [] x = ground arith
contains-append y (z ∷ xs) x = ground (arith, contains-append y xs x)

contains_same : (x y : String) (xs : List String) → x ≡ y → contains xs x ≡ contains xs y
contains_same x y xs e = ap (contains xs) e

pub insert-contains :
    (x y : String) (xs : List String) → contains (insert x xs) y ≡ (str_eq x y || contains xs y)
unfolding insert
insert-contains x y xs = ground (arith, contains-append y xs x, eq_iff x y, contains_same x y xs)

pub erase-contains :
    (x y : String) (xs : List String)
    → contains (erase x xs) y ≡ (if str_eq x y then false else contains xs y)
unfolding erase
erase-contains x y [] = ground arith
erase-contains x y (z ∷ xs) =
    ground (arith, erase-contains x y xs, eq_iff z x, eq_iff x y, eq_iff z y)

-- Where the marks are after a write.
pub marked-set_node :
    (id : String) (n n' : Node) (ns : List Node)
    → find_node n'.task.task_id ns ≡ some n
    → marked id (set_node n' ns) ≡ (if str_eq n'.task.task_id id then n'.running else marked id ns)
marked-set_node id n n' ns found = by_name (str_eq-cases n'.task.task_id id)
  where
    by_name :
        ((str_eq n'.task.task_id id ≡ true) × (n'.task.task_id ≡ id))
          ⊎ ((str_eq n'.task.task_id id ≡ false) × (n'.task.task_id ≢ id))
        → marked id (set_node n' ns)
          ≡ (if str_eq n'.task.task_id id then n'.running else marked id ns)
    by_name (inl (e, same)) =
        ap mark_of
          (find_node-set_node_same id n' n ns same (ap (λ i. find_node i ns) (sym same) ∙ found))
        ∙ sym (if_true _ n'.running (marked id ns) e)
    by_name (inr (e, other)) =
        ap mark_of (find_node-set_node_other id n' ns other)
        ∙ sym (if_false _ n'.running (marked id ns) e)

pub marked-append :
    (id : String) (n : Node) (ns : List Node)
    → n.running ≡ false
    → marked id (ns ++ n ∷ []) ≡ marked id ns
unfolding find_node
marked-append id n [] idle = ground arith
marked-append id n (x ∷ ns) idle = ground (arith, marked-append id n ns idle)

usage_of_parts :
    (u v : ResourceUsage)
    → u.cpu_slots ≡ v.cpu_slots
    → u.ram_mb ≡ v.ram_mb
    → u.vram_mb ≡ v.vram_mb
    → u ≡ v
usage_of_parts u v a b c = cc

pub usage_same :
    (ns ms : List Node) → ((f : ResourceDemand → ℤ) → total f ms ≡ total f ns) → usage ms ≡ usage ns
usage_same ns ms h =
    usage_of_parts (usage ms) (usage ns) (ap pos (h (λ d. d.cpu_slots)))
      (ap pos (h (λ d. d.ram_mb))) (ap pos (h (λ d. d.vram_mb)))

same_share :
    (f : ResourceDemand → ℤ) (n n' : Node)
    → n'.running ≡ n.running
    → n'.task.resource_demand ≡ n.task.resource_demand
    → share f n' ≡ share f n
same_share f n n' mark demand = cc

pub usage-quiet :
    (n n' : Node) (ns : List Node)
    → find_node n'.task.task_id ns ≡ some n
    → n'.running ≡ n.running
    → n'.task.resource_demand ≡ n.task.resource_demand
    → usage (set_node n' ns) ≡ usage ns
usage-quiet n n' ns found mark demand =
    usage_same ns (set_node n' ns)
      (λ f. omega (arith, total-set_node f n n' ns found, same_share f n n' mark demand))

pub usage-idle : (n : Node) (ns : List Node) → n.running ≡ false → usage (ns ++ n ∷ []) ≡ usage ns
usage-idle n ns idle = usage_same ns (ns ++ n ∷ []) (λ f. ground (arith, total-append f n ns))

add_share : (a c : ℕ) (z : ℤ) → leb_ℤ (pos 0) z ≡ true → c ≡ a + pos_part z → pos a +ℤ z ≡ pos c
add_share a c z h e = ground (arith, +ℤ_parts (pos a) z, eq_of_parts (pos a +ℤ z) (pos c))

take_share :
    (a c : ℕ) (z : ℤ)
    → leb_ℤ (pos 0) z ≡ true
    → c + pos_part z ≡ a
    → max_ℤ (pos 0) (pos a -ℤ z) ≡ pos c
unfolding max_ℤ
take_share a c z h e = ground (arith, -ℤ_parts (pos a) z, eq_of_parts (pos a -ℤ z) (pos c))

-- A demand that is not negative.
abbrev IsNatural : ResourceDemand → Type 0
IsNatural d =
    (leb_ℤ (pos 0) d.cpu_slots ≡ true)
    × (leb_ℤ (pos 0) d.ram_mb ≡ true)
    × (leb_ℤ (pos 0) d.vram_mb ≡ true)

pub IsNormal-IsNatural : (d : ResourceDemand) → IsNormal d → IsNatural d
IsNormal-IsNatural d (a, b, c) = (ground arith, b, c)

pub usage-reserve_resources :
    (n n' : Node) (ns : List Node)
    → find_node n'.task.task_id ns ≡ some n
    → n.running ≡ false
    → n'.running ≡ true
    → IsNatural n'.task.resource_demand
    → reserve_resources n'.task.resource_demand (usage ns) ≡ usage (set_node n' ns)
unfolding reserve_resources
usage-reserve_resources n n' ns found idle mark (a, b, c) =
    usage_of_parts _ _ (add_share _ _ _ a (more (λ d. d.cpu_slots)))
      (add_share _ _ _ b (more (λ d. d.ram_mb))) (add_share _ _ _ c (more (λ d. d.vram_mb)))
  where
    more :
        (f : ResourceDemand → ℤ)
        → total f (set_node n' ns) ≡ total f ns + pos_part (f n'.task.resource_demand)
    more f = ground (arith, total-set_node f n n' ns found)

pub usage-release_resources :
    (n : Node) (ns : List Node)
    → find_node n.task.task_id ns ≡ some n
    → n.running ≡ true
    → IsNatural n.task.resource_demand
    → release_resources n.task.resource_demand (usage ns)
      ≡ usage (set_node (record n { running = false }) ns)
unfolding release_resources
usage-release_resources n ns found mark (a, b, c) =
    usage_of_parts _ _ (take_share _ _ _ a (less (λ d. d.cpu_slots)))
      (take_share _ _ _ b (less (λ d. d.ram_mb))) (take_share _ _ _ c (less (λ d. d.vram_mb)))
  where
    less :
        (f : ResourceDemand → ℤ)
        → total f (set_node (record n { running = false }) ns) + pos_part (f n.task.resource_demand)
          ≡ total f ns
    less f = ground (arith, total-set_node f n (record n { running = false }) ns found)

pub marked-quiet :
    (id : String) (n n' : Node) (ns : List Node)
    → find_node n'.task.task_id ns ≡ some n
    → n'.running ≡ n.running
    → marked id (set_node n' ns) ≡ marked id ns
marked-quiet id n n' ns found mark = elim (str_eq-cases n'.task.task_id id) [
  | inl (e, same) ↦
      marked-set_node id n n' ns found
      ∙ if_true _ n'.running (marked id ns) e
      ∙ mark
      ∙ sym (ap mark_of (ap (λ i. find_node i ns) (sym same) ∙ found))
  | inr (e, other) ↦ marked-set_node id n n' ns found ∙ if_false _ n'.running (marked id ns) e
]

pub release-within :
    (a : ℕ) (d hard : ℤ)
    → leb_ℤ (pos 1) d ≡ true
    → leb_ℤ (pos a) hard ≡ true
    → leb_ℤ (max_ℤ (pos 0) (pos a -ℤ d)) hard ≡ true
unfolding max_ℤ
release-within a d hard one h = ground (arith, -ℤ_parts (pos a) d)
