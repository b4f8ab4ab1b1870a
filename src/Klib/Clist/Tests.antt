-- ===== src/Klib/Clist/Tests.antt =====
-- A queue to which 10, 20 and 30 were pushed.
use rubi_kernel.Prelude.{ℕ, ◌≡◌, true, refl, [], ◌∷◌, arith, ltb, ◌==◌, ==_iff, if◌then◌else◌, ok}
use rubi_kernel.Klib.Clist.{
  Clist, clist_init, clist_insert_after, clist_delete, clist_get, clist_find, queue_push,
}
use rubi_kernel.Klib.Slist.Chain.{has}
use rubi_kernel.Klib.Clist.Ring.{RingAt, IsRing}
use rubi_kernel.Klib.Clist.Append.{queue_push-IsRing}
use rubi_kernel.Klib.Clist.Remove.{clist_delete-IsRing}
use rubi_kernel.Klib.Clist.Insert.{clist_insert_after-IsRing}
use rubi_kernel.Klib.Clist.Find.{clist_find_lem}
use rubi_kernel.Klib.Clist.Get.{clist_get_lem}

abbrev pub ring : Clist
ring = record {
  slots = 3;
  head = 10;
  tail = 30;
  node = λ a.
      if a == 10
      then record { next = 20; data_ptr = 10 }
      else if a == 20
      then record { next = 30; data_ptr = 20 }
      else record { next = 10; data_ptr = 30 };
}

abbrev nothing : Clist
nothing = record { slots = 0; head = 0; tail = 0; node = λ a. record { next = 0; data_ptr = 0 } }

pushed :
    ((queue_push 30 (queue_push 20 (queue_push 10 nothing))).head ≡ 10)
    × ((queue_push 30 (queue_push 20 (queue_push 10 nothing))).tail ≡ 30)
unfolding queue_push clist_insert_after clist_init
pushed = (refl, refl)

ring_self : (z : ℕ) → has z (10 ∷ 20 ∷ 30 ∷ []) ≡ true → (ring.node z).data_ptr ≡ z
ring_self z h = ground (arith, ==_iff z 10, ==_iff z 20, ==_iff z 30)

pub ring-RingAt : RingAt ring 10 (20 ∷ 30 ∷ [])
ring-RingAt = record {
  links = (refl, (refl, refl));
  head_eq = refl;
  tail_eq = refl;
  distinct = (refl, (refl, (refl, tt)));
  non_null = refl;
  size = refl;
  self = ring_self;
}

queue_push-IsRing_example : IsRing (queue_push 40 ring) (10 ∷ 20 ∷ 30 ∷ 40 ∷ [])
queue_push-IsRing_example =
    queue_push-IsRing 40 ring (10 ∷ 20 ∷ 30 ∷ []) ring-RingAt refl (omega arith) (omega arith)

clist_delete-IsRing_example : IsRing (clist_delete 20 ring) (10 ∷ 30 ∷ [])
clist_delete-IsRing_example = clist_delete-IsRing 20 10 [] (30 ∷ []) ring ring-RingAt (omega arith)

clist_insert_after-IsRing_example : IsRing (clist_insert_after 40 20 ring) (10 ∷ 20 ∷ 40 ∷ 30 ∷ [])
clist_insert_after-IsRing_example =
    clist_insert_after-IsRing 40 10 (20 ∷ []) (30 ∷ []) ring ring-RingAt refl (omega arith)
      (omega arith)

clist_find_lem_example : clist_find 3 (λ a. ltb 15 a) ring ≡ ok 20
clist_find_lem_example =
    clist_find_lem 3 (λ a. ltb 15 a) ring (10 ∷ 20 ∷ 30 ∷ []) ring-RingAt (omega arith)

clist_get_lem_example : clist_get 2 ring ≡ 30
clist_get_lem_example = clist_get_lem 2 ring (10 ∷ 20 ∷ 30 ∷ []) ring-RingAt
