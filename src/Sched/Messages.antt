-- ===== src/Sched/Messages.antt =====
-- Messages between tasks: the buffer is a stack of at most 8.
use rubi_kernel.Prelude.{
  ℕ, ◌+◌, ◌-◌, ◌≤◌, ◌≡◌, ◌≢◌, ◌⊎◌, inl, inr, refl, sym, ap, ◌∙◌, true, false, ◌||◌, some, arith,
  ◌==◌, ==_refl, update,
}
use rubi_kernel.Sched.{
  Message, Task, Tasks, task_interruptable, set_task, deliver, send_to, krecive_take, account,
}

-- No task has more messages than its buffer holds.
abbrev pub InPool : Tasks → Type 0
InPool s = (a : ℕ) → (s.task a).msg_count_in ≤ 8

deliver_lem :
    (msg : Message) (t : Task)
    → ((deliver msg t).msg_count_in ≡ t.msg_count_in + 1)
      × ((deliver msg t).msg_buff ≡ update t.msg_buff t.msg_count_in msg)
      × ((deliver msg t).status ≢ task_interruptable)
unfolding deliver
deliver_lem msg t = (ground arith, ground arith, ground arith)

-- Sending to any task keeps every message count within the buffer.
pub send_to-InPool : (a : ℕ) (msg : Message) (s : Tasks) → InPool s → InPool (send_to a msg s)
unfolding send_to
send_to-InPool a msg s p b =
    let here = p a in let there = p b in let more = (deliver_lem msg (s.task a)).0 in ground arith

-- A message to a task whose buffer is full, or to no task, is dropped and changes nothing.
pub send_to_full :
    (a : ℕ) (msg : Message) (s : Tasks)
    → (a ≡ 0) ⊎ ((s.task a).msg_count_in ≡ 8)
    → send_to a msg s ≡ s
unfolding send_to
send_to_full a msg s h =
    let dropped : ((a == 0) || ((s.task a).msg_count_in == 8)) ≡ true = elim h [
      | inl e ↦ ground arith
      | inr e ↦ ground arith
    ] in
    rw dropped refl

send_state :
    (a : ℕ) (msg : Message) (s : Tasks)
    → a ≢ 0
    → (s.task a).msg_count_in ≢ 8
    → send_to a msg s ≡ set_task a (deliver msg (s.task a)) s
unfolding send_to
send_state a msg s n h =
    let live : (a == 0) ≡ false = ground arith in
    let room : ((s.task a).msg_count_in == 8) ≡ false = ground arith in rw (live, room) refl

set_here : (f : ℕ → Task) (a : ℕ) (t : Task) → update f a t a ≡ t
set_here f a t = rw (==_refl a) refl

take_at :
    (s : Tasks) (t : Task)
    → s.task s.current_task ≡ t
    → t.msg_count_in ≢ 0
    → krecive_take s
      ≡ some (
        t.msg_buff (t.msg_count_in - 1),
        set_task s.current_task (record t { msg_count_in = t.msg_count_in - 1 }) s,
      )
unfolding krecive_take
take_at s t e n =
    let some_left : (t.msg_count_in == 0) ≡ false = ground arith in rw (e, some_left) refl

last_message :
    (msg : Message) (t : Task) → (deliver msg t).msg_buff ((deliver msg t).msg_count_in - 1) ≡ msg
last_message msg t =
    let d = deliver_lem msg t in
    let i : (deliver msg t).msg_count_in - 1 ≡ t.msg_count_in = omega (arith, d.0) in
    rw (i, d.1, ==_refl t.msg_count_in) refl

-- What `krecive_take` returns after a message was sent to the current task, which had room for it, is that
-- message; the task's message count is what it was before, and the task does not wait.
pub take-send :
    (msg : Message) (s : Tasks)
    → s.current_task ≢ 0
    → (s.task s.current_task).msg_count_in ≢ 8
    → (s' : Tasks) × (krecive_take (send_to s.current_task msg s) ≡ some (msg, s'))
      × ((s'.task s.current_task).msg_count_in ≡ (s.task s.current_task).msg_count_in)
      × ((s'.task s.current_task).status ≢ task_interruptable)
take-send msg s n h =
    let a = s.current_task in
    let t1 = deliver msg (s.task a) in
    let d = deliver_lem msg (s.task a) in
    let s1 = set_task a t1 s in
    let t2 = record t1 { msg_count_in = t1.msg_count_in - 1 } in
    let here = set_here s1.task a t2 in
    rw (send_state a msg s n h) (
      set_task a t2 s1,
      take_at s1 t1 (set_here s.task a t1) (λ e. omega (arith, d.0))
          ∙ ap (λ m. some (m, set_task a t2 s1)) (last_message msg (s.task a)),
      ap (λ t. t.msg_count_in) here ∙ omega (arith, d.0),
      λ e. d.2 (sym (ap (λ t. t.status) here) ∙ e),
    )

-- A task at time 0 that does not ask to be rescheduled goes on for two ticks and is switched from at the third.
pub account_quota :
    (t : Task)
    → t.time ≡ 0
    → t.reschedule ≡ 0
    → ((account t).0 ≡ true)
      × ((account (account t).1).0 ≡ true)
      × ((account (account (account t).1).1).0 ≡ false)
      × ((account (account (account t).1).1).1.time ≡ 0)
unfolding account
account_quota t e r = (rw (e, r) refl, rw (e, r) refl, rw (e, r) refl, rw (e, r) refl)
