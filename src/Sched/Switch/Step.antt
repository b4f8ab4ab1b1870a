-- ===== src/Sched/Switch/Step.antt =====
-- One timer interrupt while no task is killed: the current task goes on, or the next running one gets the
-- processor. The list and every status stay.
use rubi_kernel.Prelude.{
  ℕ, ◌+◌, ◌<◌, ◌≡◌, ◌≢◌, ◌⊎◌, ◌∙◌, refl, sym, ap, inl, inr, Bool, true, false, List, [], ◌∷◌,
  length, ltb, ◌&&◌, ◌==◌, ==_iff, ==_refl, Bool-cases, u32, ok, arith,
}
use rubi_kernel.Klib.Slist.Chain.{has}
use rubi_kernel.Klib.Clist.Find.{first_match}
use rubi_kernel.Klib.Clist.Ring.{IsRing}
use rubi_kernel.Sched.{
  Task, Tasks, task_running, task_killing, task_quota, has_status, task_find_by_status, set_task,
  account, choose_next,
}
use rubi_kernel.Sched.Search.{Cycle, looked_at, cycle_of, find_by_status_from_lem}
use rubi_kernel.Sched.Life.{Machine}
use rubi_kernel.Sched.Switch.{reap, resume, switch_to, choose_and_switch}

-- What the current task has after the accounting.
pub account_status : (t : Task) → (account t).1.status ≡ t.status
unfolding account
account_status t = ground arith

pub account_time :
    (t : Task)
    → t.time < 3
    → ((account t).0 ≡ true) × ((account t).1.time ≡ t.time + 1) × (t.time + 1 < 3)
      ⊎ ((account t).0 ≡ false) × ((account t).1.time ≡ 0)
unfolding account
account_time t h = elim (Bool-cases (ltb (u32 (t.time + 1)) task_quota && (t.reschedule == 0))) [
  | inl e ↦ inl (rw e refl, rw e (omega arith), ground arith)
  | inr e ↦ inr (rw e refl, rw e refl)
]

-- A change of one task that keeps `f` of it keeps `f` of every task.
pub set_task_keeps :
    (f : Task → ℕ) (a : ℕ) (t : Task) (s : Tasks)
    → f t ≡ f (s.task a)
    → (z : ℕ) → f ((set_task a t s).task z) ≡ f (s.task z)
set_task_keeps f a t s e z = elim (Bool-cases (a == z)) [
  | inl h ↦ rw h (e ∙ ap (λ b. f (s.task b)) ((==_iff a z).0 h))
  | inr h ↦ rw h refl
]

pub none_matches :
    (f : ℕ → Bool) (xs : List ℕ) → ((z : ℕ) → has z xs ≡ true → f z ≡ false) → first_match f xs ≡ 0
none_matches f [] h = refl
none_matches f (x ∷ xs) h =
    rw (h x (ground (arith, ==_refl x))) (none_matches f xs (λ z k. h z (ground arith)))

-- The ring of the tasks from its head, and the others behind the current one.
pub record InTurn (x : ℕ) (ws vs : List ℕ) (s : Tasks) : Type 0 where
  pub ring : IsRing s.task_list (x ∷ ws)
  pub cycle : Cycle s.task_list.node s.current_task vs
  pub member : (z : ℕ) → has z (s.current_task ∷ vs) ≡ true → has z (x ∷ ws) ≡ true
  pub none_killed : (z : ℕ) → has z (x ∷ ws) ≡ true → (s.task z).status ≢ task_killing
  pub in_quota : (z : ℕ) → has z (x ∷ ws) ≡ true → (s.task z).time < 3

pub InTurn-set :
    (x : ℕ) (ws vs : List ℕ) (a : ℕ) (t : Task) (s : Tasks)
    → t.status ≡ (s.task a).status
    → t.time < 3
    → InTurn x ws vs s
    → InTurn x ws vs (set_task a t s)
InTurn-set x ws vs a t s same low i = record {
  ring = i.ring;
  cycle = i.cycle;
  member = i.member;
  none_killed = λ z h e. i.none_killed z h (sym (set_task_keeps (λ k. k.status) a t s same z) ∙ e);
  in_quota = λ z h. elim (Bool-cases (a == z)) [ inl e ↦ rw e low | inr e ↦ rw e (i.in_quota z h) ];
}

module _ (x : ℕ) (ws vs : List ℕ) (s : Tasks) (i : InTurn x ws vs s) (fuel : ℕ)
    (enough : length vs < fuel) (enough_all : length ws < fuel) where
  pub current_real : s.current_task ≢ 0
  current_real e = ground (arith, i.cycle.non_null, ==_iff 0 s.current_task)

  chosen :
      choose_next fuel s
      ≡ ok (first_match (has_status task_running s) (looked_at s.current_task vs))
  unfolding choose_next
  chosen =
      let real : (s.current_task == 0) ≡ false = ground (arith, current_real) in
      rw (choose_next, real)
        (find_by_status_from_lem fuel s.current_task vs s i.cycle enough task_running)

  looked_has : (z : ℕ) → has z (looked_at x ws) ≡ true → has z (x ∷ ws) ≡ true
  looked_has z h = looked_at_has x ws z h
    where
      looked_at_has :
          (y : ℕ) (us : List ℕ) (z : ℕ) → has z (looked_at y us) ≡ true → has z (y ∷ us) ≡ true
      looked_at_has y [] z h = h
      looked_at_has y (u ∷ us) z h = ground arith

  none_to_delete : task_find_by_status fuel task_killing s ≡ ok 0
  unfolding task_find_by_status
  none_to_delete =
      let real : (x == 0) ≡ false = ground (arith, i.ring.non_null, ==_iff x 0, ==_iff 0 x) in
      let here = i.ring.self x (ground (arith, ==_refl x)) in
      let none_found =
        none_matches (has_status task_killing s) (looked_at x ws)
          (λ z h. ground (arith, i.none_killed z (looked_has z h))) in
      let live : (s.task_list.head == 0) ≡ false = rw i.ring.head_eq real in
      let first : (s.task_list.node s.task_list.head).data_ptr ≡ x =
        ap (λ a. (s.task_list.node a).data_ptr) i.ring.head_eq ∙ here in
      rw (live, first)
        (find_by_status_from_lem fuel x ws s (cycle_of s.task_list x ws i.ring) enough_all
            task_killing
          ∙ ap ok none_found)

  none_reaped : (m : Machine) → m.tasks ≡ s → reap fuel m ≡ ok m
  unfolding reap
  none_reaped m e =
      let real : (m.tasks.current_task == 0) ≡ false =
        ap (λ (t : Tasks). t.current_task == 0) e ∙ ground (arith, current_real) in
      let in_ring = i.member s.current_task (ground (arith, ==_refl s.current_task)) in
      let alive : ((m.tasks.task m.tasks.current_task).status == task_killing) ≡ false =
        ap (λ (t : Tasks). (t.task t.current_task).status == task_killing) e
        ∙ ground (arith, i.none_killed s.current_task in_ring) in
      let found : task_find_by_status fuel task_killing m.tasks ≡ ok 0 =
        ap (task_find_by_status fuel task_killing) e ∙ none_to_delete in
      rw (reap, real, alive, found) refl

  pub switched :
      (m : Machine) (w : ℕ)
      → m.tasks ≡ s
      → first_match (has_status task_running s) (looked_at s.current_task vs) ≡ w
      → w ≢ 0
      → choose_and_switch fuel m ≡ ok (resume w m)
  unfolding choose_and_switch switch_to
  switched m w e f n =
      let real : (w == 0) ≡ false = ground arith in
      let choice : choose_next fuel m.tasks ≡ ok w = ap (choose_next fuel) e ∙ chosen ∙ ap ok f in
      rw (choose_and_switch, choice, real, none_reaped m e) refl
