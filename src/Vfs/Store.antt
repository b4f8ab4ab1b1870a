-- ===== src/Vfs/Store.antt =====
-- The list of nodes of kernel/src/kernel/vfs/node.c, and where memory comes from.
use rubi_kernel.Prelude.{
  ℕ, ◌≡◌, ◌≢◌, refl, ap, ◌∙◌, arith, false, if◌then◌else◌, List, [], ◌∷◌, ◌==◌, Run, ok, fault,
  ◌>>=◌,
}
use rubi_kernel.Klib.Clist.{clist_insert_after, clist_find}
use rubi_kernel.Vfs.{Vfs}

module _ {W : Type 0} where
  unfoldable pub find_fs_node_by_ino : (fuel ino : ℕ) → Vfs W → Run ℕ
  find_fs_node_by_ino fuel ino v = do
    let at = λ (entry : ℕ). (v.nodes_list.node entry).data_ptr
    entry ← clist_find fuel (λ entry. (v.node (at entry)).inode == ino) v.nodes_list
    ok (if entry == 0 then 0 else at entry)

  -- The next address of kmalloc. NULL, or no address, ends in a write through NULL.
  unfoldable pub take_from : List ℕ → Vfs W → Run (ℕ × Vfs W)
  take_from [] v = fault
  take_from (a ∷ rest) v = if a == 0 then fault else ok (a, record v { fresh = rest })

  unfoldable pub take_fresh : Vfs W → Run (ℕ × Vfs W)
  take_fresh v = take_from v.fresh v

  pub take_fresh_lem :
      (f : ℕ) (rest : List ℕ) (v : Vfs W)
      → v.fresh ≡ f ∷ rest
      → f ≢ 0
      → take_fresh v ≡ ok (f, record v { fresh = rest })
  unfolding take_fresh take_from
  take_fresh_lem f rest v e real =
      let live : (f == 0) ≡ false = ground arith in ap (λ l. take_from l v) e ∙ (rw live refl)

  -- The memset of the first element is left out: what calls this assigns the fields.
  unfoldable pub get_new_node : Vfs W → Run (ℕ × Vfs W)
  get_new_node v = do
    (a, v1) ← take_fresh v
    ok (a, record v1 { nodes_list = clist_insert_after a v1.nodes_list.tail v1.nodes_list })
