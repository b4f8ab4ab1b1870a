-- ===== src/Sched/Search.antt =====
-- The search for a task goes once round the ring.
use rubi_kernel.Prelude.{
  ℕ, zero, suc, ◌<◌, ◌≡◌, ◌≢◌, refl, Bool, true, false, List, [], ◌∷◌, length, ap, ◌∙◌, arith, ◌==◌,
  ==_refl, ==_iff, Bool-cases, inl, inr, ok,
}
use rubi_kernel.Klib.Clist.{Clist}
use rubi_kernel.Klib.Slist.Chain.{has, Distinct}
use rubi_kernel.Klib.Clist.Find.{first_match}
use rubi_kernel.Klib.Clist.Ring.{Nodes, Links, IsRing}
use rubi_kernel.Sched.{
  Tasks, after, find_from, has_status, task_find_by_status_from, task_find_by_id,
}

-- The links lead from `x` through `ws` back to `x`, all of them different, not NULL and tasks.
pub record Cycle (node : Nodes) (x : ℕ) (ws : List ℕ) : Type 0 where
  pub links : Links node x ws x
  pub distinct : Distinct (x ∷ ws)
  pub non_null : has 0 (x ∷ ws) ≡ false
  pub self : (z : ℕ) → has z (x ∷ ws) ≡ true → (node z).data_ptr ≡ z

-- the tasks that the search from `x` looks at, in this order
abbrev pub looked_at : ℕ → List ℕ → List ℕ
looked_at x [] = x ∷ []
looked_at x (w ∷ ws) = w ∷ ws

find_from_lem :
    (fuel : ℕ) (test : ℕ → Bool) (stop w : ℕ) (ws : List ℕ) (node : Nodes)
    → Links node w ws stop
    → (node stop).data_ptr ≡ stop
    → ((z : ℕ) → has z (w ∷ ws) ≡ true → (node z).data_ptr ≡ z)
    → has stop ws ≡ false
    → stop ≢ 0
    → has 0 (w ∷ ws) ≡ false
    → length ws < fuel
    → find_from fuel test stop w node ≡ ok (first_match test (w ∷ ws))
unfolding find_from
find_from_lem zero test stop w ws node l d self new n r f = absurd (omega arith)
find_from_lem (suc fuel) test stop w [] node l d self new n r f =
    let live : (w == 0) ≡ false = ground (arith, ==_iff w 0, ==_iff 0 w) in
    let linked : ((node w).next == 0) ≡ false = rw l (ground arith) in
    let ends : (after node w == stop) ≡ true =
      rw (ap (λ a. (node a).data_ptr) l ∙ d) (==_refl stop) in
    elim (Bool-cases (test w)) [
      | inl e ↦ rw (live, e) refl
      | inr e ↦ rw (live, e, linked, ends) refl
    ]
find_from_lem (suc fuel) test stop w (v ∷ ws) node l d self new n r f =
    let live : (w == 0) ≡ false = ground (arith, ==_iff w 0, ==_iff 0 w) in
    let real : (v == 0) ≡ false = ground (arith, ==_iff v 0, ==_iff 0 v) in
    let on : (v == stop) ≡ false = ground (arith, ==_iff v stop, ==_iff stop v) in
    let linked : ((node w).next == 0) ≡ false = rw l.0 real in
    let here : after node w ≡ v =
      ap (λ a. (node a).data_ptr) l.0 ∙ self v (ground (arith, ==_refl v)) in
    elim (Bool-cases (test w)) [
      | inl e ↦ rw (live, e) refl
      | inr e ↦
          rw (live, e, linked, here, on, real)
            (find_from_lem fuel test stop v ws node l.1 d (λ z h. self z (ground arith))
              (ground arith) n (ground arith) (omega arith))
    ]

module _ (fuel x : ℕ) (ws : List ℕ) (s : Tasks) (c : Cycle s.task_list.node x ws)
    (enough : length ws < fuel) where
  x_self : (s.task_list.node x).data_ptr ≡ x
  x_self = c.self x (ground (arith, ==_refl x))

  x_real : x ≢ 0
  x_real e = ground (arith, c.non_null, ==_iff 0 x)

  -- When the links lead from the task `x` through the tasks `ws` back to `x`, all different, given fuel for
  -- each, `task_find_by_status_from` ends and returns the first of `ws` with the status, or NULL when none
  -- has it; `x` is looked at only when it is alone.
  pub find_by_status_from_lem :
      (status : ℕ)
      → task_find_by_status_from fuel x status s
        ≡ ok (first_match (has_status status s) (looked_at x ws))
  unfolding task_find_by_status_from
  find_by_status_from_lem status = by_shape ws c enough
    where
      by_shape :
          (vs : List ℕ) (k : Cycle s.task_list.node x vs)
          → length vs < fuel
          → task_find_by_status_from fuel x status s
            ≡ ok (first_match (has_status status s) (looked_at x vs))
      by_shape [] k f =
          let real : (x == 0) ≡ false = ground (arith, x_real) in
          let linked : ((s.task_list.node x).next == 0) ≡ false = rw k.links real in
          let next : after s.task_list.node x ≡ x =
            ap (λ a. (s.task_list.node a).data_ptr) k.links ∙ x_self in
          rw (task_find_by_status_from, real, linked, next)
            (find_from_lem fuel (has_status status s) x x [] s.task_list.node k.links x_self k.self
              refl x_real k.non_null f)
      by_shape (v ∷ vs) k f =
          let real : (x == 0) ≡ false = ground (arith, x_real) in
          let there : (v == 0) ≡ false = ground (arith, k.non_null, ==_iff v 0, ==_iff 0 v) in
          let linked : ((s.task_list.node x).next == 0) ≡ false = rw k.links.0 there in
          let next : after s.task_list.node x ≡ v =
            ap (λ a. (s.task_list.node a).data_ptr) k.links.0
            ∙ k.self v (ground (arith, ==_refl v)) in
          rw (task_find_by_status_from, real, linked, next)
            (find_from_lem fuel (has_status status s) x v vs s.task_list.node k.links.1 x_self
              (λ z h. k.self z (ground arith)) (ground (arith, k.distinct.0)) x_real
              (ground (arith, k.non_null)) (omega arith))

-- On the ring of tasks, given fuel for each, `task_find_by_id` returns the first task with the id, from the
-- head on, and NULL when none has it.
pub find_by_id_lem :
    (fuel tid x : ℕ) (ws : List ℕ) (s : Tasks)
    → IsRing s.task_list (x ∷ ws)
    → length ws < fuel
    → task_find_by_id fuel tid s ≡ ok (first_match (λ a. (s.task a).tid == tid) (x ∷ ws))
unfolding task_find_by_id
find_by_id_lem fuel tid x ws s r f =
    let real : (x == 0) ≡ false = ground (arith, r.non_null, ==_iff x 0, ==_iff 0 x) in
    let here = r.self x (ground (arith, ==_refl x)) in
    rw (r.head_eq, real, here)
      (find_from_lem fuel (λ a. (s.task a).tid == tid) x x ws s.task_list.node r.links here r.self
        r.distinct.0 (λ e. ground (arith, r.non_null, ==_iff 0 x)) r.non_null f)

pub cycle_of : (ct : Clist) (x : ℕ) (ws : List ℕ) → IsRing ct (x ∷ ws) → Cycle ct.node x ws
cycle_of ct x ws r = record {
  links = r.links;
  distinct = r.distinct;
  non_null = r.non_null;
  self = r.self;
}
