-- ===== src/Klib/Clist/Pop.antt =====
-- What the queue gives back: the links of a ring, and where a deletion leaves the head.
use rubi_kernel.Prelude.{
  ℕ, zero, suc, ◌+◌, ◌<◌, ◌≡◌, ◌≢◌, refl, false, ◌||◌, List, [], ◌∷◌, length, arith, ◌==◌, ==_refl,
}
use rubi_kernel.Klib.Clist.{
  ClistNode, Clist, clist_insert_after, find_prev, clist_delete, queue_push, queue_pop,
}

-- From `x` the links lead through `ws` to `stop`, which is none of them but perhaps `x`.
abbrev pub Arc : (ℕ → ClistNode) → ℕ → ℕ → List ℕ → Type 0
Arc node stop x [] = (node x).next ≡ stop
Arc node stop x (w ∷ ws) = ((node x).next ≡ w) × (w ≢ stop) × Arc node stop w ws

abbrev pub last_of : ℕ → List ℕ → ℕ
last_of x [] = x
last_of x (w ∷ ws) = last_of w ws

find_prev_lem :
    (rounds x stop : ℕ) (ws : List ℕ) (node : ℕ → ClistNode)
    → Arc node stop x ws
    → length ws < rounds
    → find_prev rounds x stop node ≡ last_of x ws
unfolding find_prev
find_prev_lem zero x stop ws node a h = absurd (omega arith)
find_prev_lem (suc rounds) x stop [] node a h = rw (a, ==_refl stop) refl
find_prev_lem (suc rounds) x stop (w ∷ ws) node a h =
    let other : (w == stop) ≡ false = ground (arith, a.1) in
    rw (a.0, other) (find_prev_lem rounds w stop ws node a.2 (omega arith))

-- On a queue whose links lead from the head through `w` and `ws` back to the head, as many as it has slots,
-- `queue_pop` returns the head, and the last element becomes the head: the next pop returns the element that
-- was pushed last.
pub queue_pop_lem :
    (w : ℕ) (ws : List ℕ) (ct : Clist)
    → ct.head ≢ 0
    → Arc ct.node ct.head ct.head (w ∷ ws)
    → ct.slots ≡ length ws + 2
    → ((queue_pop ct).0 ≡ ct.head) × ((queue_pop ct).1.head ≡ last_of w ws)
unfolding queue_pop clist_delete
queue_pop_lem w ws ct n a s =
    let real : (ct.head == 0) ≡ false = ground arith in
    let several : (ct.slots == 1) ≡ false = ground arith in
    let last = find_prev_lem (ct.slots + 1) ct.head ct.head (w ∷ ws) ct.node a (omega arith) in
    (rw real refl, rw (real, several, ==_refl ct.head) last)

-- `queue_push` on a queue with a tail and a slot links the new element, not the tail itself, behind the
-- tail and in front of what was behind the tail, makes it the tail, and keeps the head.
pub queue_push_lem :
    (fresh : ℕ) (ct : Clist)
    → ct.tail ≢ 0
    → ct.slots ≢ 0
    → fresh ≢ ct.tail
    → ((queue_push fresh ct).tail ≡ fresh)
      × ((queue_push fresh ct).head ≡ ct.head)
      × (((queue_push fresh ct).node ct.tail).next ≡ fresh)
      × (((queue_push fresh ct).node fresh).next ≡ (ct.node ct.tail).next)
      × ((x : ℕ) → x ≢ fresh → x ≢ ct.tail → (queue_push fresh ct).node x ≡ ct.node x)
unfolding queue_push clist_insert_after
queue_push_lem fresh ct t s f =
    let go : ((ct.tail == 0) || (ct.slots == 0)) ≡ false = ground arith in
    let apart : (ct.tail == fresh) ≡ false = ground arith in
    rw go (
      rw (==_refl ct.tail) refl,
      refl,
      rw (==_refl ct.tail) refl,
      rw (apart, ==_refl fresh) refl,
      λ x p q.
          let a : (fresh == x) ≡ false = ground arith in
          let b : (ct.tail == x) ≡ false = ground arith in rw (b, a) refl,
    )
