-- ===== src/Vfs/Initrd/Creation.antt =====
-- One node for each inode.
use rubi_kernel.Prelude.{
  ℕ, ◌+◌, ◌≤◌, ◌<◌, ◌^◌, ◌≡◌, ◌≢◌, ◌⊎◌, inl, inr, refl, sym, ap, ◌∙◌, Bool, true, false, List, [],
  ◌∷◌, ◌++◌, length, length-append, arith, ◌==◌, ==_iff, ==_refl, Bool-cases, update, Run, ok,
}
use rubi_kernel.Klib.Slist.Chain.{has}
use rubi_kernel.Klib.Clist.{queue_push}
use rubi_kernel.Klib.Clist.Ring.{IsRing}
use rubi_kernel.Klib.Clist.Find.{
  first_match, first_match_frame, first_match-append, first_match_in, first_match_none,
  first_match-true, ring_non_null, find_owner_lem,
}
use rubi_kernel.Klib.Clist.Append.{queue_push-IsRing}
use rubi_kernel.Klib.Text.{Mem}
use rubi_kernel.Vfs.{FsNode, Vfs}
use rubi_kernel.Vfs.Store.{find_fs_node_by_ino, take_fresh_lem, get_new_node}
use rubi_kernel.Vfs.Initrd.{fill_node, node_for, initrd_create_node}

-- the test of the search by inode, on a ring's own addresses
abbrev pub is_ino : ℕ → (ℕ → FsNode) → ℕ → Bool
is_ino ino nodes a = (nodes a).inode == ino

inode-fill_node :
    (offset addr : ℕ) (m : Mem) (old : FsNode) → (fill_node offset addr m old).inode ≡ offset
unfolding fill_node
inode-fill_node offset addr m old = refl

-- what a creation leaves: the node, its place in the list, and the other nodes as they were
pub record Created {W : Type 0} (fuel offset addr : ℕ) (xs : List ℕ) (v : Vfs W)
    (out : Run (ℕ × Vfs W)) : Type 0 where
  pub address : ℕ
  pub state : Vfs W
  pub elements : List ℕ
  pub result : out ≡ ok (address, state)
  pub real : address ≢ 0
  pub ring : IsRing state.nodes_list elements
  pub place :
      ((state ≡ v) × (elements ≡ xs) × (has address xs ≡ true))
      ⊎ ((elements ≡ xs ++ (address ∷ []))
          × (has address xs ≡ false)
          × ((z : ℕ) → has z xs ≡ true → (v.node z).inode ≢ offset))
  pub inode : (state.node address).inode ≡ offset
  pub again : (addr' : ℕ) → initrd_create_node fuel offset addr' state ≡ ok (address, state)
  pub kept : (z : ℕ) → has z xs ≡ true → state.node z ≡ v.node z

module _ {W : Type 0} where
  -- On a valid list of nodes, given fuel for each, the search by inode returns the first node that has it, or
  -- NULL.
  pub find_ino_lem :
      (fuel ino : ℕ) (v : Vfs W) (xs : List ℕ)
      → IsRing v.nodes_list xs
      → length xs ≤ fuel
      → find_fs_node_by_ino fuel ino v ≡ ok (first_match (is_ino ino v.node) xs)
  unfolding find_fs_node_by_ino
  find_ino_lem fuel ino v xs r b = find_owner_lem fuel (is_ino ino v.node) v.nodes_list xs r b

  create_found :
      (fuel offset addr : ℕ) (v : Vfs W) (xs : List ℕ)
      → IsRing v.nodes_list xs
      → length xs ≤ fuel
      → first_match (is_ino offset v.node) xs ≢ 0
      → initrd_create_node fuel offset addr v ≡ ok (first_match (is_ino offset v.node) xs, v)
  unfolding initrd_create_node node_for
  create_found fuel offset addr v xs r b n =
      let real : (first_match (is_ino offset v.node) xs == 0) ≡ false = ground arith in
      rw (find_ino_lem fuel offset v xs r b, real, node_for) refl

  taken :
      (f : ℕ) (rest : List ℕ) (v : Vfs W)
      → v.fresh ≡ f ∷ rest
      → f ≢ 0
      → get_new_node v ≡ ok (f, record v { fresh = rest; nodes_list = queue_push f v.nodes_list })
  unfolding get_new_node queue_push
  taken f rest v e real = rw (take_fresh_lem f rest v e real) refl

  -- the state with a new node at `f`
  abbrev added : (offset addr f : ℕ) (rest : List ℕ) → Vfs W → Vfs W
  added offset addr f rest v = record v {
    fresh = rest;
    nodes_list = queue_push f v.nodes_list;
    node = update v.node f (fill_node offset addr v.mem (v.node f));
  }

  create_new :
      (fuel offset addr f : ℕ) (rest : List ℕ) (v : Vfs W) (xs : List ℕ)
      → IsRing v.nodes_list xs
      → length xs ≤ fuel
      → first_match (is_ino offset v.node) xs ≡ 0
      → v.fresh ≡ f ∷ rest
      → f ≢ 0
      → initrd_create_node fuel offset addr v ≡ ok (f, added offset addr f rest v)
  unfolding initrd_create_node node_for
  create_new fuel offset addr f rest v xs r b n e real =
      rw (find_ino_lem fuel offset v xs r b, n, taken f rest v e real) refl

  found_one :
      (fuel offset addr : ℕ) (v : Vfs W) (xs : List ℕ)
      → IsRing v.nodes_list xs
      → length xs ≤ fuel
      → first_match (is_ino offset v.node) xs ≢ 0
      → Created fuel offset addr xs v (initrd_create_node fuel offset addr v)
  found_one fuel offset addr v xs r b n = record {
    address = first_match (is_ino offset v.node) xs;
    state = v;
    elements = xs;
    result = create_found fuel offset addr v xs r b n;
    real = n;
    ring = r;
    place = inl (refl, refl, first_match_in (is_ino offset v.node) xs n);
    inode = (==_iff _ _).0 (first_match-true (is_ino offset v.node) xs n);
    again = λ addr'. create_found fuel offset addr' v xs r b n;
    kept = λ z h. refl;
  }

  new_node :
      (fuel offset addr f : ℕ) (rest : List ℕ) (v : Vfs W) (xs : List ℕ)
      → IsRing v.nodes_list xs
      → length xs < fuel
      → first_match (is_ino offset v.node) xs ≡ 0
      → v.fresh ≡ f ∷ rest
      → f ≢ 0
      → has f xs ≡ false
      → v.nodes_list.slots + 1 < 2 ^ 32
      → Created fuel offset addr xs v (initrd_create_node fuel offset addr v)
  new_node fuel offset addr f rest v xs r b n e real fr room =
      let v' = added offset addr f rest v in
      let ring' = queue_push-IsRing f v.nodes_list xs r fr real room in
      let ys = xs ++ (f ∷ []) in
      let here : v'.node f ≡ fill_node offset addr v.mem (v.node f) = rw (==_refl f) refl in
      let inode : (v'.node f).inode ≡ offset =
        rw here (inode-fill_node offset addr v.mem (v.node f)) in
      let away : (z : ℕ) → has z xs ≡ true → v'.node z ≡ v.node z =
        λ z h. let q : (f == z) ≡ false = ground (arith, ==_iff f z) in rw q refl in
      let same =
        first_match_frame (is_ino offset v'.node) (is_ino offset v.node) xs
          (λ z h. ap (λ (c : FsNode). c.inode == offset) (away z h)) in
      let hit : first_match (is_ino offset v'.node) ys ≡ f =
        first_match-append (is_ino offset v'.node) xs f (ring_non_null v.nodes_list xs r) (same ∙ n)
          (rw inode (==_refl offset)) in
      record {
        address = f;
        state = v';
        elements = ys;
        result = create_new fuel offset addr f rest v xs r (omega arith) n e real;
        real = real;
        ring = ring';
        place = inr (
          refl,
          fr,
          λ z h q.
              let unseen =
                first_match_none (is_ino offset v.node) xs (ring_non_null v.nodes_list xs r) n z
                  h in
              ground (arith, unseen, q, ==_refl offset),
        );
        inode = inode;
        again = λ addr'.
            create_found fuel offset addr' v' ys ring' (omega (arith, length-append xs (f ∷ [])))
              (λ z. real (sym hit ∙ z))
            ∙ ap (λ a. ok (a, v')) hit;
        kept = away;
      }

  -- On a valid list of nodes, given more fuel than it has nodes, and a new address from kmalloc, `initrd_create_node`
  -- returns a node with the inode. It is one of the list, and then nothing changes; or no node of the list has the
  -- inode, and the node is new and the only one that is put in the list, behind the others. The list is
  -- valid, its other nodes are as they were, and a further call for the inode returns the same node and changes
  -- nothing.
  pub create_node_lem :
      (fuel offset addr f : ℕ) (rest : List ℕ) (v : Vfs W) (xs : List ℕ)
      → IsRing v.nodes_list xs
      → length xs < fuel
      → v.fresh ≡ f ∷ rest
      → f ≢ 0
      → has f xs ≡ false
      → v.nodes_list.slots + 1 < 2 ^ 32
      → Created fuel offset addr xs v (initrd_create_node fuel offset addr v)
  create_node_lem fuel offset addr f rest v xs r b e real fr room =
      elim (Bool-cases (first_match (is_ino offset v.node) xs == 0)) [
        | inl z ↦ new_node fuel offset addr f rest v xs r b ((==_iff _ 0).0 z) e real fr room
        | inr z ↦ found_one fuel offset addr v xs r (omega arith) (λ n. ground arith)
      ]
