-- ===== src/Vfs/Path.antt =====
-- resolve_path of kernel/src/kernel/vfs/node.c: from a path to a node. A path has at most 8 parts that are
-- looked at. `fuel` goes to the loops over a part and over '/', and to the searches. The name that readdir writes is compared
-- with the part by strcmp, over a memory that holds the two arrays.
pub mod Parts
pub mod Tests
use rubi_kernel.Prelude.{
  ℕ, zero, suc, true, false, ◌+◌, ◌-◌, ◌*◌, ◌^◌, Bool, ◌||◌, not, ltb, leb, ◌==◌, if◌then◌else◌,
  Option, none, some, update, Run, ok, fault, out_of_fuel, ◌>>=◌,
}
use rubi_kernel.Klib.Text.{Mem, strcmp}
use rubi_kernel.Vfs.{FsNode, no_ops, initrd_ops, devfs_ops, Dirent, Vfs, node_name_size}
use rubi_kernel.Vfs.Initrd.{initrd_readdir, initrd_openddir}
use rubi_kernel.Vfs.Devfs.{devfs_readdir, devfs_openddir}

-- where a part of the path ends: the place in the path, the number of its bytes, and the bytes
pub record Part : Type 0 where
  pub cur_path : ℕ
  pub i : ℕ
  pub part : ℕ → ℕ

-- The inner loop, which ends at '/', at NUL, and when i reaches node_name_size. It runs on fuel.
unfoldable pub take_part : (fuel : ℕ) → Part → Mem → Run Part
take_part zero p m = out_of_fuel
take_part (suc fuel) p m =
    let c = m p.cur_path in
    let rest =
      take_part fuel (record { cur_path = p.cur_path + 1; i = p.i + 1; part = update p.part p.i c })
        m in
    if (c == b'/') || (c == 0) || leb node_name_size p.i then ok p else rest

unfoldable pub skip_slashes : (fuel cur_path : ℕ) → Mem → Run ℕ
skip_slashes zero cur_path m = out_of_fuel
skip_slashes (suc fuel) cur_path m =
    let rest = skip_slashes fuel (cur_path + 1) m in
    if m cur_path == b'/' then rest else ok cur_path

-- two arrays side by side
abbrev pub two_names : (a b : ℕ → ℕ) → Mem
two_names a b i = if ltb i (2 ^ 32) then a i else b (i - 2 ^ 32)

module _ {W : Type 0} where
  unfoldable pub readdir : (node num : ℕ) → Dirent → Vfs W → Run (ℕ × Dirent)
  readdir node num dirent v = elim (v.node node).ops [
    | no_ops ↦ fault
    | initrd_ops ↦ ok (initrd_readdir node num dirent v)
    | devfs_ops ↦ ok (devfs_readdir node num dirent v)
  ]

  unfoldable pub opennode : (fuel node num : ℕ) → Vfs W → Run (ℕ × Vfs W)
  opennode fuel node num v = elim (v.node node).ops [
    | no_ops ↦ fault
    | initrd_ops ↦ initrd_openddir fuel node num v
    | devfs_ops ↦ devfs_openddir fuel node num v
  ]

  -- The loop over a directory from entry `i`. `none` is the `return NULL` for a part that is not there; when
  -- the loop ends by its bound, the node stays what it was.
  unfoldable pub find_entry :
      (rounds fuel i node : ℕ) → (part : ℕ → ℕ) → Dirent → Vfs W → Run (Option ℕ × Vfs W)
  find_entry zero fuel i node part dirent v = ok (some node, v)
  find_entry (suc rounds) fuel i node part dirent v = do
    (ret, dir) ← readdir node i dirent v
    elim (ret == 0) [
      | true ↦ ok (none, v)
      | false ↦ do
        differ ← strcmp fuel 0 (2 ^ 32) (two_names dir.name part)
        elim (differ == 0) [
          | true ↦ do (node', v') ← opennode fuel node i v; ok (some node', v')
          | false ↦ find_entry rounds fuel (i + 1) node part dir v
        ]
    ]

  -- The loop over the parts, with `rounds` parts to go. The arrays of names are not initialised.
  unfoldable pub resolve_parts :
      (rounds fuel cur_path node : ℕ) → (part : ℕ → ℕ) → Dirent → Vfs W → Run (ℕ × Vfs W)
  resolve_parts zero fuel cur_path node part dirent v = ok (node, v)
  resolve_parts (suc rounds) fuel cur_path node part dirent v = elim (v.mem cur_path == 0) [
    | true ↦ ok (node, v)
    | false ↦ do
      p ← take_part fuel (record { cur_path = cur_path; i = 0; part = part }) v.mem
      elim (leb node_name_size p.i) [
        | true ↦ ok (0, v)
        | false ↦ do
          next ← skip_slashes fuel p.cur_path v.mem
          let name = update p.part p.i 0
          elim (node == 0) [
            | true ↦ fault
            | false ↦ do
              (found, v') ← find_entry ((v.node node).length + 1) fuel 0 node name dirent v
              elim found [
                | none ↦ ok (0, v')
                | some node' ↦ resolve_parts rounds fuel next node' name dirent v'
              ]
          ]
      ]
  ]

  unfoldable pub resolve_path : (fuel path : ℕ) → (part : ℕ → ℕ) → Dirent → Vfs W → Run (ℕ × Vfs W)
  resolve_path fuel path part dirent v =
      let head = v.nodes_list.head in
      let root = (v.nodes_list.node head).data_ptr in
      elim (not (v.mem path == b'/') || (head == 0) || (root == 0)) [
        | true ↦ ok (0, v)
        | false ↦ resolve_parts 8 fuel (path + 1) root part dirent v
      ]
