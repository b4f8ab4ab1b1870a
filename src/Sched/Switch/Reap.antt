-- ===== src/Sched/Switch/Reap.antt =====
-- Which killed task sched_schedule deletes, and which it does not.
use rubi_kernel.Prelude.{
  ℕ, ◌<◌, ◌≡◌, ◌≢◌, ◌∙◌, refl, ap, true, false, List, [], ◌∷◌, length, ◌==◌, ==_iff, ==_refl,
  Bool-cases, inl, inr, ok, arith,
}
use rubi_kernel.Klib.Slist.Chain.{has}
use rubi_kernel.Klib.Clist.Find.{first_match}
use rubi_kernel.Klib.Clist.Ring.{IsRing}
use rubi_kernel.Sched.{
  Tasks, task_running, task_killing, has_status, task_find_by_status, account, choose_next,
}
use rubi_kernel.Sched.Search.{Cycle, looked_at, cycle_of, find_by_status_from_lem}
use rubi_kernel.Sched.Life.{Machine}
use rubi_kernel.Sched.Switch.{returns, reap, switch_to, choose_and_switch, sched_schedule}
use rubi_kernel.Sched.Switch.Step.{none_matches}
use rubi_kernel.Sched.Switch.Turn.{Tick, at_tick, left, leaves, left_status}

module _ (fuel x : ℕ) (ws : List ℕ) (s : Tasks) (r : IsRing s.task_list (x ∷ ws))
    (enough : length ws < fuel) (status : ℕ) where
  -- the search from the head
  pub from_head :
      task_find_by_status fuel status s ≡ ok (first_match (has_status status s) (looked_at x ws))
  unfolding task_find_by_status
  from_head =
      let real : (x == 0) ≡ false = ground (arith, r.non_null, ==_iff x 0, ==_iff 0 x) in
      let live : (s.task_list.head == 0) ≡ false = rw r.head_eq real in
      let first : (s.task_list.node s.task_list.head).data_ptr ≡ x =
        ap (λ a. (s.task_list.node a).data_ptr) r.head_eq ∙ r.self x (ground (arith, ==_refl x)) in
      rw (live, first)
        (find_by_status_from_lem fuel x ws s (cycle_of s.task_list x ws r) enough status)

-- On a ring of two tasks or more whose head is killed, when the current task is not killed and no task
-- behind the head is, `reap` deletes nothing: the head stays.
pub reap_head :
    (fuel x w : ℕ) (ws : List ℕ) (m : Machine)
    → IsRing m.tasks.task_list (x ∷ w ∷ ws)
    → length (w ∷ ws) < fuel
    → (m.tasks.task x).status ≡ task_killing
    → (m.tasks.task m.tasks.current_task).status ≢ task_killing
    → ((z : ℕ) → has z (w ∷ ws) ≡ true → (m.tasks.task z).status ≢ task_killing)
    → reap fuel m ≡ ok m
unfolding reap
reap_head fuel x w ws m r enough killed alive others =
    let none_found : first_match (has_status task_killing m.tasks) (w ∷ ws) ≡ 0 =
      none_matches (has_status task_killing m.tasks) (w ∷ ws) (λ z h. ground (arith, others z h)) in
    let found : task_find_by_status fuel task_killing m.tasks ≡ ok 0 =
      from_head fuel x (w ∷ ws) m.tasks r enough task_killing ∙ ap ok none_found in
    let live : ((m.tasks.task m.tasks.current_task).status == task_killing) ≡ false =
      ground arith in
    elim (Bool-cases (m.tasks.current_task == 0)) [
      | inl e ↦ rw (reap, e, found) refl
      | inr e ↦ rw (reap, e, live, found) refl
    ]

-- A current task that is killed and due to be switched from, in a ring where no task that the search looks
-- at is running: sched_schedule returns to it, and it stays current and is not deleted.
pub killed_runs_on :
    (fuel : ℕ) (k : Tick) (vs : List ℕ) (s : Machine)
    → s.tasks.current_task ≢ 0
    → Cycle s.tasks.task_list.node s.tasks.current_task vs
    → length vs < fuel
    → (s.tasks.task s.tasks.current_task).status ≡ task_killing
    → (account (s.tasks.task s.tasks.current_task)).0 ≡ false
    → ((z : ℕ) → has z vs ≡ true → (s.tasks.task z).status ≢ task_running)
    → sched_schedule fuel k.ret_addr k.reg_addr (at_tick k s) ≡ ok (returns (left k s))
unfolding choose_and_switch switch_to choose_next
killed_runs_on fuel k vs s n c enough killed stop idle =
    let a = s.tasks.current_task in
    let m = left k s in
    let real : (a == 0) ≡ false = ground arith in
    let none_found : first_match (has_status task_running m.tasks) (looked_at a vs) ≡ 0 =
      none_matches (has_status task_running m.tasks) (looked_at a vs)
        (λ z h. ap (λ st. st == task_running) (left_status a vs fuel enough k s z) ∙ idle_at z h) in
    let choice : choose_next fuel m.tasks ≡ ok 0 =
      rw (choose_next, real)
        (find_by_status_from_lem fuel a vs m.tasks c enough task_running ∙ ap ok none_found) in
    leaves fuel k s n stop ∙ rw (choose_and_switch, choice) refl
  where
    a_killed :
        (z : ℕ) → z ≡ s.tasks.current_task → ((s.tasks.task z).status == task_running) ≡ false
    a_killed z e = rw (e, killed) refl

    idle_in :
        (us : List ℕ)
        → ((z : ℕ) → has z us ≡ true → (s.tasks.task z).status ≢ task_running)
        → (z : ℕ) → has z (looked_at s.tasks.current_task us) ≡ true
        → ((s.tasks.task z).status == task_running) ≡ false
    idle_in [] f z h = a_killed z (ground (arith, ==_iff z s.tasks.current_task))
    idle_in (u ∷ us) f z h = ground (arith, f z h)

    idle_at :
        (z : ℕ)
        → has z (looked_at s.tasks.current_task vs) ≡ true
        → ((s.tasks.task z).status == task_running) ≡ false
    idle_at = idle_in vs idle
