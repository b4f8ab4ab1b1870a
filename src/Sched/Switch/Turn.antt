-- ===== src/Sched/Switch/Turn.antt =====
-- Every running task gets the processor.
use rubi_kernel.Prelude.{
  ℕ, zero, suc, ◌+◌, ◌<◌, ◌≡◌, ◌≢◌, ◌∙◌, refl, true, false, List, ◌∷◌, ◌++◌, length, ◌==◌, ==_refl,
  Run, ok, ◌>>=◌, arith,
}
use rubi_kernel.Klib.Text.{Mem}
use rubi_kernel.Klib.Slist.Chain.{has-append}
use rubi_kernel.Sched.{Task, Tasks, set_task, account}
use rubi_kernel.Sched.Life.{Machine}
use rubi_kernel.Sched.Switch.{
  Switch, returns, switches, save_task, load_task, resume, choose_and_switch, leave, sched_schedule,
}
use rubi_kernel.Sched.Switch.Step.{account_status, set_task_keeps, InTurn, InTurn-set}
use rubi_kernel.Sched.Switch.Rotate.{turned, has_all_turned}

-- an interrupt of the timer: the two arguments of sched_schedule, and the memory as the tasks left it
pub record Tick : Type 0 where
  pub ret_addr : ℕ
  pub reg_addr : ℕ
  pub mem : Mem

abbrev pub machine_of : Switch → Machine
machine_of (returns s) = s
machine_of (switches esp cr3 s) = s

abbrev pub at_tick : Tick → Machine → Machine
at_tick k s = record s { mem = k.mem }

-- the first `n` ticks of the sequence
unfoldable pub ticks : (fuel : ℕ) (tick : ℕ → Tick) (n : ℕ) → Machine → Run Machine
ticks fuel tick zero s = ok s
ticks fuel tick (suc n) s = do
  r ← sched_schedule fuel (tick 0).ret_addr (tick 0).reg_addr (at_tick (tick 0) s)
  ticks fuel (λ k. tick (k + 1)) n (machine_of r)

-- Within fewer than `bound` ticks the task `a` has the processor.
abbrev pub Gets : (fuel : ℕ) (tick : ℕ → Tick) (a bound : ℕ) → Machine → Type 0
Gets fuel tick a bound s =
    (n : ℕ) × (n < bound)
    × (s' : Machine) × (ticks fuel tick n s ≡ ok s')
    × (s'.tasks.current_task ≡ a)

pub Gets-later :
    (fuel : ℕ) (tick : ℕ → Tick) (a bound : ℕ) (s : Machine) (r : Switch)
    → sched_schedule fuel (tick 0).ret_addr (tick 0).reg_addr (at_tick (tick 0) s) ≡ ok r
    → Gets fuel (λ k. tick (k + 1)) a bound (machine_of r)
    → Gets fuel tick a (suc bound) s
unfolding ticks
Gets-later fuel tick a bound s r e (n, h, s', g, c) = (suc n, omega arith, s', rw (ticks, e) g, c)

pub Gets-now :
    (fuel : ℕ) (tick : ℕ → Tick) (a bound : ℕ) (s : Machine)
    → s.tasks.current_task ≡ a
    → 0 < bound
    → Gets fuel tick a bound s
unfolding ticks
Gets-now fuel tick a bound s e h = (0, h, s, refl, e)

pub goes_on :
    (fuel : ℕ) (k : Tick) (s : Machine)
    → s.tasks.current_task ≢ 0
    → (account (s.tasks.task s.tasks.current_task)).0 ≡ true
    → sched_schedule fuel k.ret_addr k.reg_addr (at_tick k s)
      ≡ ok (
          returns (record (at_tick k s) {
            tasks =
                set_task s.tasks.current_task
                  (account (s.tasks.task s.tasks.current_task)).1
                  s.tasks;
          }))
unfolding sched_schedule leave
goes_on fuel k s n e =
    let real : (s.tasks.current_task == 0) ≡ false = ground arith in rw (real, e) refl

-- the state when the current task has been saved
abbrev pub left : Tick → Machine → Machine
left k s =
    let c = s.tasks.current_task in
    record (at_tick k s) {
      tasks =
          set_task c (save_task k.ret_addr k.reg_addr k.mem (account (s.tasks.task c)).1) s.tasks;
    }

pub leaves :
    (fuel : ℕ) (k : Tick) (s : Machine)
    → s.tasks.current_task ≢ 0
    → (account (s.tasks.task s.tasks.current_task)).0 ≡ false
    → sched_schedule fuel k.ret_addr k.reg_addr (at_tick k s) ≡ choose_and_switch fuel (left k s)
unfolding sched_schedule leave
leaves fuel k s n e =
    let real : (s.tasks.current_task == 0) ≡ false = ground arith in rw (real, e) refl

save_keeps :
    (ret_addr reg_addr : ℕ) (m : Mem) (t : Task)
    → ((save_task ret_addr reg_addr m t).status ≡ t.status)
      × ((save_task ret_addr reg_addr m t).time ≡ t.time)
unfolding save_task
save_keeps ret_addr reg_addr m t = (refl, refl)

load_keeps :
    (t : Task) (m : Mem) → ((load_task t m).0.status ≡ t.status) × ((load_task t m).0.time ≡ t.time)
unfolding load_task
load_keeps t m = (refl, refl)

turn_to :
    (x : ℕ) (ws : List ℕ) (w : ℕ) (us ys : List ℕ) (s : Tasks)
    → InTurn x ws (us ++ (w ∷ ys)) s
    → InTurn x ws (ys ++ (s.current_task ∷ us)) (record s { current_task = w })
turn_to x ws w us ys s i = record {
  ring = i.ring;
  cycle = turned s.task_list.node s.current_task w us ys i.cycle;
  member = λ z h. i.member z (has_all_turned z s.current_task w us ys h);
  none_killed = i.none_killed;
  in_quota = i.in_quota;
}

module _ (x : ℕ) (ws : List ℕ) (fuel : ℕ) (enough : length ws < fuel) where
  pub current_low : (vs : List ℕ) (s : Tasks) → InTurn x ws vs s → (s.task s.current_task).time < 3
  current_low vs s i =
      i.in_quota s.current_task (i.member s.current_task (ground (arith, ==_refl s.current_task)))

  -- The state when the current task has been saved is in turn, too.
  pub left-InTurn :
      (vs : List ℕ) (k : Tick) (s : Machine)
      → (account (s.tasks.task s.tasks.current_task)).1.time ≡ 0
      → InTurn x ws vs s.tasks
      → InTurn x ws vs (left k s).tasks
  left-InTurn vs k s e i =
      let c = s.tasks.current_task in
      let t = (account (s.tasks.task c)).1 in
      let kept = save_keeps k.ret_addr k.reg_addr k.mem t in
      InTurn-set x ws vs c (save_task k.ret_addr k.reg_addr k.mem t) s.tasks
        (kept.0 ∙ account_status (s.tasks.task c)) (rw (kept.1, e) (omega arith)) i

  pub left_status :
      (k : Tick) (s : Machine) (z : ℕ) → ((left k s).tasks.task z).status ≡ (s.tasks.task z).status
  left_status k s z =
      let c = s.tasks.current_task in
      let t = (account (s.tasks.task c)).1 in
      let kept = save_keeps k.ret_addr k.reg_addr k.mem t in
      set_task_keeps (λ u. u.status) c (save_task k.ret_addr k.reg_addr k.mem t) s.tasks
        (kept.0 ∙ account_status (s.tasks.task c)) z

  pub resume-InTurn :
      (us : List ℕ) (w : ℕ) (ys : List ℕ) (m : Machine)
      → InTurn x ws (us ++ (w ∷ ys)) m.tasks
      → InTurn x ws (ys ++ (m.tasks.current_task ∷ us)) (machine_of (resume w m)).tasks
  unfolding resume
  resume-InTurn us w ys m i =
      let kept = load_keeps (m.tasks.task w) m.mem in
      let there = i.cycle.non_null in
      let in_ring = i.member w (ground (arith, has-append w us (w ∷ ys), ==_refl w)) in
      turn_to x ws w us ys (set_task w (load_task (m.tasks.task w) m.mem).0 m.tasks) (
        InTurn-set x ws (us ++ (w ∷ ys)) w (load_task (m.tasks.task w) m.mem).0 m.tasks kept.0
          (rw kept.1 (i.in_quota w in_ring)) i)

  pub resumed_status :
      (w : ℕ) (m : Machine) (z : ℕ)
      → ((machine_of (resume w m)).tasks.task z).status ≡ (m.tasks.task z).status
  unfolding resume
  resumed_status w m z =
      set_task_keeps (λ u. u.status) w (load_task (m.tasks.task w) m.mem).0 m.tasks
        (load_keeps (m.tasks.task w) m.mem).0 z

  pub resumed_current : (w : ℕ) (m : Machine) → (machine_of (resume w m)).tasks.current_task ≡ w
  unfolding resume
  resumed_current w m = refl
