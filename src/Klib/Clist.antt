-- ===== src/Klib/Clist.antt =====
-- kernel/src/lib/clist.c and kernel/src/lib/queue.c: the circular list and the queue over it.
-- Elements are found by address; `fresh` is the address that syscall_malloc returns, and NULL is 0. The
-- links are followed without a test for NULL, as in the code.
pub mod Ring
pub mod Insert
pub mod Remove
pub mod Find
pub mod Get
pub mod Append
pub mod Pop
pub mod Tests
use rubi_kernel.Prelude.{
  ℕ, zero, suc, ◌+◌, ◌-◌, ◌*◌, ◌%◌, ◌^◌, ◌||◌, ltb, ◌==◌, if◌then◌else◌, u32, update, Bool, Run, ok,
  out_of_fuel,
}

pub record ClistNode : Type 0 where
  pub next : ℕ
  pub data_ptr : ℕ

pub record Clist : Type 0 where
  pub slots : ℕ
  pub head : ℕ
  pub tail : ℕ
  pub node : ℕ → ClistNode

unfoldable pub clist_init : (fresh : ℕ) → Clist → Clist
clist_init fresh ct = record {
  slots = 1;
  head = fresh;
  tail = fresh;
  node = update ct.node fresh (record { next = fresh; data_ptr = fresh });
}

unfoldable pub clist_insert_after : (fresh pos : ℕ) → Clist → Clist
clist_insert_after fresh pos ct =
    if (pos == 0) || (ct.slots == 0)
    then clist_init fresh ct
    else (let n1 = update ct.node fresh (record { next = (ct.node pos).next; data_ptr = fresh }) in
        record {
          slots = u32 (ct.slots + 1);
          head = ct.head;
          tail = if ct.tail == pos then fresh else ct.tail;
          node = update n1 pos (record (n1 pos) { next = fresh });
        })

-- The loop of clist_delete makes at most slots + 1 rounds.
unfoldable pub find_prev : (rounds x pos : ℕ) → (ℕ → ClistNode) → ℕ
find_prev zero x pos node = x
find_prev (suc rounds) x pos node =
    let rest = find_prev rounds (node x).next pos node in if (node x).next == pos then x else rest

-- `slots -= 1` wraps.
unfoldable pub clist_delete : (pos : ℕ) → Clist → Clist
clist_delete pos ct =
    let slots = u32 (ct.slots + 2 ^ 32 - 1) in
    if ct.slots == 1
    then record ct { head = 0; tail = 0; slots = slots }
    else (let x = find_prev (ct.slots + 1) ct.head pos ct.node in
        record {
          slots = slots;
          head = if pos == ct.head then x else ct.head;
          tail = if pos == ct.tail then x else ct.tail;
          node = update ct.node x (record (ct.node x) { next = (ct.node pos).next });
        })

unfoldable pub get_from : (rounds start : ℕ) → (ℕ → ClistNode) → ℕ
get_from zero start node = start
get_from (suc rounds) start node = get_from rounds (node start).next node

unfoldable pub clist_get : (index : ℕ) → Clist → ℕ
clist_get index ct = if ltb index ct.slots then get_from index ct.head ct.node else 0

-- The do-while loop of clist_find, on fuel: from `cur` on, until `head` or NULL is next.
unfoldable pub clist_find_from : (fuel : ℕ) → (ℕ → Bool) → (head cur : ℕ) → (ℕ → ClistNode) → Run ℕ
clist_find_from zero func head cur node = out_of_fuel
clist_find_from (suc fuel) func head cur node =
    let next = (node cur).next in
    let rest = clist_find_from fuel func head next node in
    if func cur then ok cur else if (next == head) || (next == 0) then ok 0 else rest

unfoldable pub clist_find : (fuel : ℕ) → (ℕ → Bool) → Clist → Run ℕ
clist_find fuel func ct =
    if ct.head == 0 then ok 0 else clist_find_from fuel func ct.head ct.head ct.node

-- the element goes behind the tail
unfoldable pub queue_push : (fresh : ℕ) → Clist → Clist
queue_push fresh ct = clist_insert_after fresh ct.tail ct

-- The element that is copied out and freed, NULL for an empty queue, and the queue.
unfoldable pub queue_pop : Clist → ℕ × Clist
queue_pop ct = if ct.head == 0 then (0, ct) else (ct.head, clist_delete ct.head ct)
