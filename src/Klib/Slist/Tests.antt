-- ===== src/Klib/Slist/Tests.antt =====
-- The slot list on concrete states: four slots, two of them in the list.
use rubi_kernel.Prelude.{ℕ, ◌≡◌, ◌⊎◌, refl, [], ◌∷◌, some, arith, ◌==◌, if◌then◌else◌}
use rubi_kernel.Klib.Slist.{
  Node, zero_node, Slist, find_slot, insert_after_at, insert_after, insert_before, delete,
}
use rubi_kernel.Klib.Slist.Valid.{IsList}
use rubi_kernel.Klib.Slist.FreeSlot.{Inserted, NoRoom, insert_after_lem, insert_before_lem}
use rubi_kernel.Klib.Slist.Delete.{delete_lem}

abbrev live_node : ℕ → ℕ → ℕ → Node
live_node e p n = record { prev = p; next = n; is_valid = 1; data_ptr = e }

abbrev two : Slist ℕ
two = record {
  base = 100;
  slots = 4;
  slot_size = 16;
  head = 116;
  tail = 100;
  node = λ a.
      if a == 116 then live_node 116 0 100 else if a == 100 then live_node 100 116 0 else zero_node;
  payload = λ a. 0;
}

two-IsList : IsList two (116 ∷ 100 ∷ [])
two-IsList = record {
  chain = (refl, refl, (refl, refl, tt));
  head_eq = refl;
  tail_eq = refl;
  distinct = (refl, (refl, tt));
  non_null = refl;
  live = λ x h. (ground arith, ground arith);
  dead = λ i l h. ground arith;
  based = omega arith;
}

empty : Slist ℕ
empty = record two { head = 0; tail = 0; node = λ a. zero_node }

insert_takes_first_free : insert_after 0 116 two ≡ some (132, insert_after_at 0 132 116 two)
unfolding insert_after find_slot
insert_takes_first_free = refl

insert_after_lem_example :
    Inserted two (116 ∷ []) (100 ∷ []) (insert_after 0 116 two)
    ⊎ NoRoom two (116 ∷ 100 ∷ []) (insert_after 0 116 two)
insert_after_lem_example = insert_after_lem 0 two (116 ∷ []) (100 ∷ []) two-IsList (omega arith)

insert_before_lem_example :
    Inserted two (116 ∷ []) (100 ∷ []) (insert_before 0 100 two)
    ⊎ NoRoom two (116 ∷ 100 ∷ []) (insert_before 0 100 two)
insert_before_lem_example = insert_before_lem 0 two (116 ∷ []) (100 ∷ []) two-IsList (omega arith)

delete_lem_example :
    IsList (delete 0 116 two) (100 ∷ []) × ((delete 0 116 two).node 116 ≡ zero_node)
delete_lem_example = delete_lem 0 116 two [] (100 ∷ []) two-IsList
