-- ===== src/Syscall/Exit.antt =====
-- A task that exits is not chosen again, and memory that is asked for is the heap's.
use rubi_kernel.Prelude.{
  ℕ, zero, suc, ◌≡◌, ◌≢◌, ◌⊎◌, inl, inr, refl, sym, ap, ◌∙◌, Bool, true, false, ◌||◌, arith, ◌==◌,
  ==_iff, ==_refl, Bool-cases, Run, ok, fault, out_of_fuel,
}
use rubi_kernel.Klib.Clist.{ClistNode}
use rubi_kernel.Sched.{
  Tasks, after, find_from, has_status, task_running, task_killing, task_find_by_status_from,
  mark_reschedule, choose_next,
}
use rubi_kernel.Vfs.{Dirent}
use rubi_kernel.Syscall.{syscall_exit, Regs, System, yields, kill_current, cint_syscall}

-- what a run returns, NULL when it does not end
abbrev value : Run ℕ → ℕ
value (ok w) = w
value fault = 0
value out_of_fuel = 0

-- What the search returns passes the test, or is NULL.
find_from_test :
    (fuel : ℕ) (test : ℕ → Bool) (stop work : ℕ) (node : ℕ → ClistNode)
    → (value (find_from fuel test stop work node) ≡ 0)
      ⊎ (test (value (find_from fuel test stop work node)) ≡ true)
unfolding find_from
find_from_test zero test stop work node = inl refl
find_from_test (suc fuel) test stop work node =
    let w = after node work in
    elim (Bool-cases (work == 0)) [
      | inl a ↦ rw a (inl refl)
      | inr a ↦ elim (Bool-cases (test work)) [
        | inl b ↦ rw (a, b) (inr b)
        | inr b ↦ elim (Bool-cases ((node work).next == 0)) [
          | inl c ↦ rw (a, b, c) (inl refl)
          | inr c ↦ elim (Bool-cases ((w == stop) || (w == 0))) [
            | inl d ↦ rw (a, b, c, d) (inl refl)
            | inr d ↦ rw (a, b, c, d) (find_from_test fuel test stop w node)
          ]
        ]
      ]
    ]

by_status_test :
    (fuel start status : ℕ) (s : Tasks)
    → (value (task_find_by_status_from fuel start status s) ≡ 0)
      ⊎ ((s.task (value (task_find_by_status_from fuel start status s))).status ≡ status)
unfolding task_find_by_status_from
by_status_test fuel start status s = elim (Bool-cases (start == 0)) [
  | inl a ↦ rw a (inl refl)
  | inr a ↦ elim (Bool-cases ((s.task_list.node start).next == 0)) [
    | inl b ↦ rw (a, b) (inl refl)
    | inr b ↦
        rw (a, b)
          (elim (find_from_test fuel (has_status status s) start (after s.task_list.node start)
            s.task_list.node) [ inl p ↦ inl p | inr p ↦ inr ((==_iff _ status).0 p) ])
  ]
]

killed_status :
    (t : Tasks) → t.current_task ≢ 0 → ((kill_current t).task t.current_task).status ≡ task_killing
unfolding mark_reschedule
killed_status t n =
    let live : (t.current_task == 0) ≡ false = ground arith in
    rw (live, ==_refl t.current_task) refl

killed_current : (t : Tasks) → (kill_current t).current_task ≡ t.current_task
unfolding mark_reschedule
killed_current t = ground arith

other_chosen :
    (fuel w : ℕ) (t : Tasks)
    → t.current_task ≢ 0
    → choose_next fuel (kill_current t) ≡ ok w
    → w ≢ 0
    → w ≢ t.current_task
unfolding choose_next
other_chosen fuel w t n c real same =
    let k = kill_current t in
    let live : (k.current_task == 0) ≡ false = ground (arith, killed_current t) in
    let search : choose_next fuel k ≡ task_find_by_status_from fuel k.current_task task_running k =
      rw (choose_next, live) refl in
    let found : value (task_find_by_status_from fuel k.current_task task_running k) ≡ w =
      ap value (sym search ∙ c) in
    elim (by_status_test fuel k.current_task task_running k) [
      | inl p ↦ real (sym found ∙ p)
      | inr p ↦
          let runs : (k.task w).status ≡ task_running =
            ap (λ a. (k.task a).status) (sym found) ∙ p in
          let killed = killed_status t n in
          let here : (k.task w).status ≡ (k.task t.current_task).status =
            ap (λ a. (k.task a).status) same in
          omega (arith, runs, killed, here)
    ]

-- The call to exit of a current task ends by giving the processor up, and the task that the scheduler
-- chooses in the state that it leaves, when it chooses one, is another.
pub exit_chooses_other :
    {W : Type 0} (fuel fuel' w : ℕ) (r : Regs) (part : ℕ → ℕ) (dirent : Dirent) (s : System W)
    → r.eax ≡ syscall_exit
    → s.tasks.current_task ≢ 0
    → choose_next fuel' (kill_current s.tasks) ≡ ok w
    → w ≢ 0
    → (cint_syscall fuel r part dirent s ≡ ok (yields (record s { tasks = kill_current s.tasks })))
      × (w ≢ s.tasks.current_task)
unfolding cint_syscall
exit_chooses_other fuel fuel' w r part dirent s e n c real =
    let number : (r.eax == syscall_exit) ≡ true = ground arith in
    let live : (s.tasks.current_task == 0) ≡ false = ground arith in
    (rw (number, live) refl, other_chosen fuel' w s.tasks n c real)
