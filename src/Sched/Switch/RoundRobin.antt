-- ===== src/Sched/Switch/RoundRobin.antt =====
-- Every running task gets the processor, by induction on the tasks in front of it.
use rubi_kernel.Prelude.{
  ℕ, zero, suc, ◌+◌, ◌*◌, ◌<◌, ◌≡◌, ◌≢◌, ◌∙◌, refl, sym, ap, subst, inl, inr, true, false, List,
  ◌∷◌, ◌++◌, length, length-append, ◌==◌, ==_iff, ==_refl, Bool-cases, ok, arith,
}
use rubi_kernel.Klib.Clist.{Clist}
use rubi_kernel.Klib.Slist.Chain.{has, has-append}
use rubi_kernel.Klib.Clist.Find.{first_match, first_match_frame}
use rubi_kernel.Klib.Clist.Ring.{IsRing}
use rubi_kernel.Sched.{task_running, task_killing, has_status, set_task, account}
use rubi_kernel.Sched.Search.{Cycle, looked_at, cycle_of}
use rubi_kernel.Sched.Life.{Machine}
use rubi_kernel.Sched.Switch.{returns, resume, sched_schedule}
use rubi_kernel.Sched.Switch.Step.{
  account_status, account_time, set_task_keeps, InTurn, InTurn-set, current_real, switched,
}
use rubi_kernel.Sched.Switch.Rotate.{
  turned, has_turned, append_assoc, first_split, looked_at_middle, split_at,
}
use rubi_kernel.Sched.Switch.Turn.{
  Tick, machine_of, at_tick, Gets, Gets-later, Gets-now, goes_on, left, leaves, current_low,
  left-InTurn, left_status, resume-InTurn, resumed_status, resumed_current,
}

module _ (x : ℕ) (ws : List ℕ) (fuel a : ℕ) (enough : length ws < fuel) where
  -- a switch to the first running task, with the list it is in split at it
  switch_runs :
      (us : List ℕ) (w : ℕ) (ys : List ℕ) (k : Tick) (s : Machine)
      → InTurn x ws (us ++ (w ∷ ys)) s.tasks
      → length (us ++ (w ∷ ys)) < fuel
      → (account (s.tasks.task s.tasks.current_task)).0 ≡ false
      → (account (s.tasks.task s.tasks.current_task)).1.time ≡ 0
      → first_match (has_status task_running s.tasks) (us ++ (w ∷ ys)) ≡ w
      → sched_schedule fuel k.ret_addr k.reg_addr (at_tick k s) ≡ ok (resume w (left k s))
  switch_runs us w ys k s i room stop reset found =
      let m = left k s in
      let c = s.tasks.current_task in
      let vs = us ++ (w ∷ ys) in
      let i' = left-InTurn x ws fuel enough vs k s reset i in
      let same =
        first_match_frame (has_status task_running m.tasks) (has_status task_running s.tasks) vs
          (λ z h. ap (λ st. st == task_running) (left_status x ws fuel enough k s z)) in
      let first : first_match (has_status task_running m.tasks) (looked_at c vs) ≡ w =
        ap (first_match (has_status task_running m.tasks)) (looked_at_middle c us w ys)
        ∙ same
        ∙ found in
      let real : w ≢ 0 =
        λ e. ground (arith, i.cycle.non_null, has-append 0 us (w ∷ ys), ==_iff 0 w) in
      leaves fuel k s (current_real x ws vs s.tasks i fuel room enough) stop
      ∙ switched x ws vs m.tasks i' fuel room enough m w refl first real

  Gets-turn :
      (bound : ℕ) (p q : List ℕ) (tick : ℕ → Tick) (s : Machine)
      → InTurn x ws (p ++ (a ∷ q)) s.tasks
      → (s.tasks.task a).status ≡ task_running
      → length (p ++ (a ∷ q)) < fuel
      → 3 * length p + 3 < bound + (s.tasks.task s.tasks.current_task).time
      → Gets fuel tick a bound s
  Gets-turn zero p q tick s i r room d =
      absurd (omega (arith, current_low x ws fuel enough (p ++ (a ∷ q)) s.tasks i))
  Gets-turn (suc bound) p q tick s i r room d =
      let c = s.tasks.current_task in
      let t = s.tasks.task c in
      let vs = p ++ (a ∷ q) in
      let low = current_low x ws fuel enough vs s.tasks i in
      let runs : has_status task_running s.tasks a ≡ true = ground (arith, r) in
      elim (account_time t low) [
        | inl e ↦
            let t1 = (account t).1 in
            let s1 = record (at_tick (tick 0) s) { tasks = set_task c t1 s.tasks } in
            let here : (s1.tasks.task c).time ≡ t.time + 1 = rw (==_refl c) e.1 in
            let still = set_task_keeps (λ u. u.status) c t1 s.tasks (account_status t) a ∙ r in
            Gets-later fuel tick a bound s (returns s1)
              (goes_on fuel (tick 0) s (current_real x ws vs s.tasks i fuel room enough) e.0)
              (Gets-turn bound p q (λ k. tick (k + 1)) s1
                (InTurn-set x ws vs c t1 s.tasks (account_status t) (rw e.1 e.2) i) still room
                (rw here (omega arith)))
        | inr e ↦ elim (first_split (has_status task_running s.tasks) p a q runs) [
          | inl f ↦
              Gets-later fuel tick a bound s (resume a (left (tick 0) s))
                (switch_runs p a q (tick 0) s i room e.0 e.1 f)
                (Gets-now fuel (λ k. tick (k + 1)) a bound (machine_of (resume a (left (tick 0) s)))
                  (resumed_current x ws fuel enough a (left (tick 0) s)) (omega arith))
          | inr (p1, w, p2, cut, f) ↦
              let ys = p2 ++ (a ∷ q) in
              let split : vs ≡ p1 ++ (w ∷ ys) =
                ap (λ l. l ++ (a ∷ q)) cut ∙ append_assoc p1 (w ∷ p2) (a ∷ q) in
              let size : length vs ≡ length (p1 ++ (w ∷ ys)) = ap length split in
              let size_p = ap length cut ∙ length-append p1 (w ∷ p2) in
              let m = left (tick 0) s in
              let iw = subst (λ l. InTurn x ws l s.tasks) split i in
              let fw = subst (λ l. first_match (has_status task_running s.tasks) l ≡ w) split f in
              let turn = append_assoc p2 (a ∷ q) (c ∷ p1) in
              let size_turn = ap length turn in
              let im = left-InTurn x ws fuel enough (p1 ++ (w ∷ ys)) (tick 0) s e.1 iw in
              let ir = resume-InTurn x ws fuel enough p1 w ys m im in
              let still =
                resumed_status x ws fuel enough w m a
                ∙ left_status x ws fuel enough (tick 0) s a
                ∙ r in
              Gets-later fuel tick a bound s (resume w m)
                (switch_runs p1 w ys (tick 0) s iw (rw (sym size) room) e.0 e.1 fw)
                (Gets-turn bound p2 (q ++ (c ∷ p1)) (λ k. tick (k + 1)) (machine_of (resume w m))
                  (subst (λ l. InTurn x ws l (machine_of (resume w m)).tasks) turn ir) still
                  (omega
                    (arith, size, size_turn, length-append p1 (w ∷ ys), length-append ys (c ∷ p1)))
                  (omega (arith, size_p)))
        ]
      ]

-- the ring seen from one of its tasks
cycle_at :
    (ct : Clist) (x : ℕ) (ws : List ℕ) (c : ℕ)
    → IsRing ct (x ∷ ws)
    → has c (x ∷ ws) ≡ true
    → (vs : List ℕ) × Cycle ct.node c vs
      × ((z : ℕ) → has z (c ∷ vs) ≡ has z (x ∷ ws))
      × (length vs ≡ length ws)
cycle_at ct x ws c r h = elim (Bool-cases (c == x)) [
  | inl e ↦
      let same = (==_iff c x).0 e in
      (
        ws,
        subst (λ v. Cycle ct.node v ws) (sym same) (cycle_of ct x ws r),
        λ z. ap (λ v. has z (v ∷ ws)) same,
        refl,
      )
  | inr e ↦
      let (us, ys, split) = split_at c ws (ground arith) in
      let k = subst (λ l. Cycle ct.node x l) split (cycle_of ct x ws r) in
      (
        ys ++ (x ∷ us),
        turned ct.node x c us ys k,
        λ z. has_turned z x c us ys ∙ ap (λ l. has z (x ∷ l)) (sym split),
        omega (arith, ap length split, length-append us (c ∷ ys), length-append ys (x ∷ us)),
      )
]

-- The tasks are a ring from the head on, the current task is one of them, none of them is killed and each
-- has used less than its quota; there is fuel for each. At every tick of the timer the registers are
-- anywhere and the memory is any. Then each running task of the ring gets the processor within three ticks
-- for each task of the ring.
pub round_robin :
    (fuel : ℕ) (tick : ℕ → Tick) (x : ℕ) (ws : List ℕ) (a : ℕ) (s : Machine)
    → IsRing s.tasks.task_list (x ∷ ws)
    → has s.tasks.current_task (x ∷ ws) ≡ true
    → ((z : ℕ) → has z (x ∷ ws) ≡ true → (s.tasks.task z).status ≢ task_killing)
    → ((z : ℕ) → has z (x ∷ ws) ≡ true → (s.tasks.task z).time < 3)
    → has a (x ∷ ws) ≡ true
    → (s.tasks.task a).status ≡ task_running
    → length ws < fuel
    → Gets fuel tick a (3 * length (x ∷ ws) + 1) s
round_robin fuel tick x ws a s r here alive low there runs enough =
    let (vs, k, same, size) = cycle_at s.tasks.task_list x ws s.tasks.current_task r here in
    elim (Bool-cases (a == s.tasks.current_task)) [
      | inl e ↦
          Gets-now fuel tick a (3 * length (x ∷ ws) + 1) s (sym ((==_iff a _).0 e)) (omega arith)
      | inr e ↦
          let in_vs : has a vs ≡ true = ground (arith, same a) in
          let (p, q, split) = split_at a vs in_vs in
          let size_vs = ap length split ∙ length-append p (a ∷ q) in
          Gets-turn x ws fuel a enough (3 * length (x ∷ ws) + 1) p q tick s
            (record {
              ring = r;
              cycle = subst (λ l. Cycle s.tasks.task_list.node s.tasks.current_task l) split k;
              member = λ z h. sym (same z) ∙ ap (λ l. has z (s.tasks.current_task ∷ l)) split ∙ h;
              none_killed = alive;
              in_quota = low;
            })
            runs (omega (arith, size_vs, size, length-append p (a ∷ q)))
            (omega (arith, size_vs, size))
    ]
