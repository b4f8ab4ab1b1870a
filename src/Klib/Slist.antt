-- ===== src/Klib/Slist.antt =====
-- kernel/src/lib/slist.c: a doubly linked list over a fixed array of slots.
-- A slot is found by its address. It holds the links and, behind them, a payload of the client's
-- type; a memset of the slot makes both zero. NULL is 0. A call that would dereference NULL has
-- the result `none`.
pub mod Chain
pub mod Valid
pub mod Ends
pub mod FreeSlot
pub mod Insert
pub mod Delete
pub mod Payload
pub mod Tests
use rubi_kernel.Prelude.{
  ℕ, zero, suc, ◌+◌, ◌-◌, ◌*◌, ◌||◌, Option, none, some, ltb, ◌==◌, if◌then◌else◌, update,
}

abbrev pub null : ℕ
null = 0

pub record Node : Type 0 where
  pub prev : ℕ
  pub next : ℕ
  pub is_valid : ℕ
  pub data_ptr : ℕ

abbrev pub zero_node : Node
zero_node = record { prev = 0; next = 0; is_valid = 0; data_ptr = 0 }

-- `struct slist_def_t`, with the slots that it describes
pub record Slist (P : Type 0) : Type 0 where
  pub base : ℕ
  pub slots : ℕ
  pub slot_size : ℕ
  pub head : ℕ
  pub tail : ℕ
  pub node : ℕ → Node
  pub payload : ℕ → P

-- how the search for a free slot ends; `unset` is the loop that makes no round
pub data Search : Type 0 where
  at_slot : ℕ → Search
  full : Search
  unset : Search

module _ {P : Type 0} where
  abbrev pub slot_at : Slist P → ℕ → ℕ
  slot_at s i = s.base + i * s.slot_size

  -- the loop over the slots, from index `i` with `rounds` to go
  unfoldable pub find_slot : ℕ → ℕ → Slist P → Search
  find_slot zero i s = unset
  find_slot (suc rounds) i s =
      let next = find_slot rounds (i + 1) s in
      if (s.node (slot_at s i)).is_valid == 0
      then at_slot (slot_at s i)
      else if i == s.slots - 1
      then full
      else next

  abbrev pub set_prev : ℕ → ℕ → Slist P → Slist P
  set_prev p v s = record s { node = update s.node p (record (s.node p) { prev = v }) }

  abbrev pub set_next : ℕ → ℕ → Slist P → Slist P
  set_next p v s = record s { node = update s.node p (record (s.node p) { next = v }) }

  -- the updates of tail and head that end an insertion after `pos`
  unfoldable pub set_ends_after : (elem pos : ℕ) → Slist P → Slist P
  set_ends_after elem pos s1 =
      let s2 = if pos == s1.tail then record s1 { tail = elem } else s1 in
      if (s2.head == null) || (pos == null) then record s2 { head = elem } else s2

  -- the updates of head and tail that end an insertion before `pos`
  unfoldable pub set_ends_before : (elem pos : ℕ) → Slist P → Slist P
  set_ends_before elem pos s1 =
      let s2 = if s1.head == pos then record s1 { head = elem } else s1 in
      if (s2.tail == null) || (pos == null) then record s2 { tail = elem } else s2

  -- isValid and the links around `pos`, in a deletion
  unfoldable pub unlink : (pos prev next : ℕ) → Slist P → Slist P
  unlink pos prev next s =
      let s1 = record s { node = update s.node pos (record (s.node pos) { is_valid = 0 }) } in
      let s2 = if prev == null then s1 else set_next prev next s1 in
      if next == null then s2 else set_prev next prev s2

  -- head and tail, in a deletion
  unfoldable pub drop_ends : (pos prev next : ℕ) → Slist P → Slist P
  drop_ends pos prev next s3 =
      let s4 = if pos == s3.head then record s3 { head = next } else s3 in
      if pos == s4.tail then record s4 { tail = prev } else s4

-- The module's operations need the payload that memset makes.
module _ {P : Type 0} (zero_payload : P) where
  -- memset of the slot, isValid and data
  abbrev pub clear_slot : ℕ → Slist P → Slist P
  clear_slot e s = record s {
    node = update s.node e zero_node;
    payload = update s.payload e zero_payload;
  }

  -- the slot once isValid, data and the two links are set
  abbrev pub fresh_node : ℕ → ℕ → ℕ → Node
  fresh_node e prev next = record { prev = prev; next = next; is_valid = 1; data_ptr = e }

  -- the links, once the element's slot and its neighbours are known
  unfoldable pub link_in : (elem prev next : ℕ) → Slist P → Slist P
  link_in elem prev next s =
      let s1 = clear_slot elem s in
      let s2 = record s1 { node = update s1.node elem (fresh_node elem prev next) } in
      let s3 = if prev == null then s2 else set_next prev elem s2 in
      if next == null then s3 else set_prev next elem s3

  unfoldable pub insert_after_at : (elem pos : ℕ) → Slist P → Slist P
  insert_after_at elem pos s =
      let prev = if pos == null then null else pos in
      let next = if pos == null then s.head else (s.node pos).next in
      set_ends_after elem pos (link_in elem prev next s)

  unfoldable pub insert_before_at : (elem pos : ℕ) → Slist P → Slist P
  insert_before_at elem pos s =
      let next = if pos == null then null else pos in
      let prev = if pos == null then s.tail else (s.node pos).prev in
      set_ends_before elem pos (link_in elem prev next s)

  -- The result is the new element, or NULL if no slot is free.
  unfoldable pub insert_after : ℕ → Slist P → Option (ℕ × Slist P)
  insert_after pos s = elim (find_slot s.slots 0 s) [
    | at_slot e ↦ some (e, insert_after_at e pos s)
    | full ↦ some (null, s)
    | unset ↦ none
  ]

  unfoldable pub insert_before : ℕ → Slist P → Option (ℕ × Slist P)
  insert_before pos s = elim (find_slot s.slots 0 s) [
    | at_slot e ↦ some (e, insert_before_at e pos s)
    | full ↦ some (null, s)
    | unset ↦ none
  ]

  -- The links around `pos` come first, then the ends and the memset; `pos->data` is read last.
  unfoldable pub link_out : (pos prev next : ℕ) → Slist P → Slist P
  link_out pos prev next s =
      let s5 = drop_ends pos prev next (unlink pos prev next s) in
      clear_slot (s5.node pos).data_ptr s5

  unfoldable pub delete : ℕ → Slist P → Slist P
  delete pos s = if pos == null then s else link_out pos (s.node pos).prev (s.node pos).next s
