-- ===== src/Klib/Slist/FreeSlot.antt =====
-- The search for a free slot, and what the two insertions do, full slots included.
use rubi_kernel.Prelude.{
  ℕ, zero, suc, ◌+◌, ◌-◌, ◌≤◌, ◌<◌, ◌≡◌, ◌≢◌, ◌⊎◌, refl, Option, some, true, false, List, ◌∷◌, ◌++◌,
  arith, ◌==◌, ==_iff, Bool-cases, inl, inr,
}
use rubi_kernel.Klib.Slist.{
  null, Slist, slot_at, Search, at_slot, full, find_slot, insert_after_at, insert_before_at,
  insert_after, insert_before,
}
use rubi_kernel.Klib.Slist.Chain.{has, first_or, last_or}
use rubi_kernel.Klib.Slist.Valid.{IsList}
use rubi_kernel.Klib.Slist.Insert.{insert_after_at_lem, insert_before_at_lem}

module _ {P : Type 0} (s : Slist P) where
  -- the first free slot from index `i` on
  pub record Free (i : ℕ) (r : Search) : Type 0 where
    pub index : ℕ
    pub low : i ≤ index
    pub high : index < s.slots
    pub invalid : (s.node (slot_at s index)).is_valid ≡ 0
    pub result : r ≡ at_slot (slot_at s index)

  pub record NoneFree (i : ℕ) (r : Search) : Type 0 where
    pub valid : (j : ℕ) → i ≤ j → j < s.slots → (s.node (slot_at s j)).is_valid ≢ 0
    pub result : r ≡ full

  slot_here :
      (i : ℕ) → i < s.slots → (s.node (slot_at s i)).is_valid ≡ 0 → Free i (at_slot (slot_at s i))
  slot_here i h v = record { index = i; low = omega arith; high = h; invalid = v; result = refl }

  later :
      (i : ℕ) {r : Search}
      → ((s.node (slot_at s i)).is_valid == 0) ≡ false
      → Free (i + 1) r ⊎ NoneFree (i + 1) r
      → Free i r ⊎ NoneFree i r
  later i z (inl f) = inl (record {
    index = f.index;
    low = omega (arith, f.low);
    high = f.high;
    invalid = f.invalid;
    result = f.result;
  })
  later i z (inr n) = inr (record {
    valid = λ j p q. elim (Bool-cases (j == i)) [
      | inl e ↦ rw ((==_iff j i).0 e) (λ v. ground arith)
      | inr e ↦ n.valid j (ground arith) q
    ];
    result = n.result;
  })

  find_slot_lem :
      (rounds i : ℕ)
      → i + suc rounds ≡ s.slots
      → Free i (find_slot (suc rounds) i s) ⊎ NoneFree i (find_slot (suc rounds) i s)
  unfolding find_slot
  find_slot_lem zero i e = elim (Bool-cases ((s.node (slot_at s i)).is_valid == 0)) [
    | inl z ↦ rw z (inl (slot_here i (omega arith) ((==_iff _ 0).0 z)))
    | inr z ↦
        let last : (i == s.slots - 1) ≡ true = ground arith in
        rw (z, last)
          (inr (record {
            valid = λ j p q. let here : j ≡ i = omega arith in rw here (λ v. ground arith);
            result = refl;
          }))
  ]
  find_slot_lem (suc rounds) i e = elim (Bool-cases ((s.node (slot_at s i)).is_valid == 0)) [
    | inl z ↦ rw z (inl (slot_here i (omega arith) ((==_iff _ 0).0 z)))
    | inr z ↦
        let more : (i == s.slots - 1) ≡ false = ground arith in
        rw (z, more) (later i z (find_slot_lem rounds (i + 1) (omega arith)))
  ]

-- a free slot outside the list is linked in between `front` and `back`
pub record Inserted {P : Type 0} (s : Slist P) (front back : List ℕ) (out : Option (ℕ × Slist P))
    : Type 0 where
  pub index : ℕ
  pub in_range : index < s.slots
  pub fresh : has (slot_at s index) (front ++ back) ≡ false
  pub state : Slist P
  pub result : out ≡ some (slot_at s index, state)
  pub holds : IsList state (front ++ (slot_at s index ∷ back))

-- NULL is returned, nothing changes, and every slot is in the list
pub record NoRoom {P : Type 0} (s : Slist P) (xs : List ℕ) (out : Option (ℕ × Slist P))
    : Type 0 where
  pub result : out ≡ some (null, s)
  pub used : (i : ℕ) → i < s.slots → has (slot_at s i) xs ≡ true

module _ {P : Type 0} (z : P) (s : Slist P) (front back : List ℕ)
    (is : IsList s (front ++ back)) where
  fresh_slot :
      (i : ℕ)
      → (s.node (slot_at s i)).is_valid ≡ 0
      → (slot_at s i ≢ null) × (has (slot_at s i) (front ++ back) ≡ false)
  fresh_slot i v = (
    λ e. omega (arith, is.based),
    elim (Bool-cases (has (slot_at s i) (front ++ back))) [
      | inl h ↦ absurd (omega (arith, (is.live (slot_at s i) h).0))
      | inr h ↦ h
    ],
  )

  no_room :
      {r : Search}
      → NoneFree s 0 r
      → (i : ℕ) → i < s.slots
      → has (slot_at s i) (front ++ back) ≡ true
  no_room n i h = elim (Bool-cases (has (slot_at s i) (front ++ back))) [
    | inl y ↦ y
    | inr y ↦ absurd (n.valid i (omega arith) h (is.dead i h y))
  ]

  search : 0 < s.slots → Free s 0 (find_slot s.slots 0 s) ⊎ NoneFree s 0 (find_slot s.slots 0 s)
  search h =
      let e : s.slots ≡ suc (s.slots - 1) = omega arith in
      let found = find_slot_lem s (s.slots - 1) 0 (omega arith) in rw (← e) at found

  -- On a valid list of `front` and `back`, with at least one slot, `slist_insert_after`, at the last
  -- element of `front` or at NULL when `front` is empty, either links a free slot in between the two
  -- and returns it, and the list is valid, or returns NULL and changes nothing when every slot is
  -- in the list.
  pub insert_after_lem :
      0 < s.slots
      → Inserted s front back (insert_after z (last_or null front) s)
        ⊎ NoRoom s (front ++ back) (insert_after z (last_or null front) s)
  unfolding insert_after
  insert_after_lem h = elim (search h) [
    | inl f ↦
        let new = fresh_slot f.index f.invalid in
        rw (f.result, insert_after)
          (inl (record {
            index = f.index;
            in_range = f.high;
            fresh = new.1;
            state = insert_after_at z (slot_at s f.index) (last_or null front) s;
            result = refl;
            holds = insert_after_at_lem z (slot_at s f.index) s front back is new.0 new.1;
          }))
    | inr n ↦ rw (n.result, insert_after) (inr (record { result = refl; used = no_room n }))
  ]

  -- On a valid list of `front` and `back`, with at least one slot, `slist_insert_before`, at the first
  -- element of `back` or at NULL when `back` is empty, either links a free slot in between the two
  -- and returns it, and the list is valid, or returns NULL and changes nothing when every slot is
  -- in the list.
  pub insert_before_lem :
      0 < s.slots
      → Inserted s front back (insert_before z (first_or null back) s)
        ⊎ NoRoom s (front ++ back) (insert_before z (first_or null back) s)
  unfolding insert_before
  insert_before_lem h = elim (search h) [
    | inl f ↦
        let new = fresh_slot f.index f.invalid in
        rw (f.result, insert_before)
          (inl (record {
            index = f.index;
            in_range = f.high;
            fresh = new.1;
            state = insert_before_at z (slot_at s f.index) (first_or null back) s;
            result = refl;
            holds = insert_before_at_lem z (slot_at s f.index) s front back is new.0 new.1;
          }))
    | inr n ↦ rw (n.result, insert_before) (inr (record { result = refl; used = no_room n }))
  ]
