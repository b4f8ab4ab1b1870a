-- ===== src/Vfs/Initrd/Tests.antt =====
-- A disk at 1000 with a file "a" of the three bytes "xyz" at offset 8, and a file of 100 bytes at offset 90.
use rubi_kernel.Prelude.{ℕ, ◌≡◌, inl, refl, ◌||◌, [], ◌∷◌, arith, ◌==◌, if◌then◌else◌}
use rubi_kernel.Klib.Clist.{Clist}
use rubi_kernel.Klib.Clist.Ring.{RingAt}
use rubi_kernel.Vfs.{FsNode, initrd_ops, no_file_ops, Dev, Vfs}
use rubi_kernel.Vfs.Initrd.{initrd_create_node, initrd_read, entry_at}
use rubi_kernel.Vfs.Initrd.Reading.{initrd_read_lem}
use rubi_kernel.Vfs.Initrd.Creation.{Created, create_node_lem}

abbrev disk : ℕ → ℕ
disk a =
    if a == 1012
    then 3
    else if (a == 1016) || (a == 1020)
    then 1
    else if a == 1021
    then b'a'
    else if a == 1022
    then b'x'
    else if a == 1023
    then b'y'
    else if a == 1024
    then b'z'
    else if a == 1094
    then 100
    else 0

abbrev file_node : FsNode
file_node = record { name = disk; flags = 1; length = 3; inode = 8; impl = 0; ops = initrd_ops }

abbrev big_node : FsNode
big_node = record { name = disk; flags = 1; length = 100; inode = 90; impl = 0; ops = initrd_ops }

abbrev no_dev : Dev ℕ
no_dev = record {
  name = λ i. 0;
  read_fn = λ buf offset size m w. (0, offset, m, w);
  write_fn = λ buf offset size m w. (0, offset, m, w);
  cmd_fn = λ command subcmd w. w;
}

abbrev no_list : Clist
no_list = record { slots = 0; head = 0; tail = 0; node = λ a. record { next = 0; data_ptr = 0 } }

abbrev nodes : Clist
nodes = record { slots = 1; head = 70; tail = 70; node = λ a. record { next = 70; data_ptr = a } }

abbrev pub vfs : Vfs ℕ
vfs = record {
  mem = disk;
  fresh = 80 ∷ [];
  world = 0;
  ird_head = 1000;
  ird_root = 1008;
  nodes_list = nodes;
  node = λ a. if a == 71 then big_node else file_node;
  dev_list = no_list;
  dev = λ a. no_dev;
  fd_table = no_list;
  next_fd = 3;
  file = λ a. record { pos = 0; node = 0; mode = 0; fd = 0; private_data = 0; ops = no_file_ops };
}

initrd_read_lem_example :
    ((initrd_read 70 1 9 500 vfs).0 ≡ 2) × ((initrd_read 70 1 9 500 vfs).1 501 ≡ b'z')
unfolding entry_at
initrd_read_lem_example = initrd_read_lem 70 vfs 1 9 500 501 (omega arith) (inl (omega arith))

nodes-RingAt : RingAt nodes 70 []
nodes-RingAt = record {
  links = refl;
  head_eq = refl;
  tail_eq = refl;
  distinct = (refl, tt);
  non_null = refl;
  size = refl;
  self = λ z h. refl;
}

create_node_lem_example : Created 2 90 1090 (70 ∷ []) vfs (initrd_create_node 2 90 1090 vfs)
create_node_lem_example =
    create_node_lem 2 90 1090 80 [] vfs (70 ∷ []) nodes-RingAt (omega arith) refl (omega arith) refl
      (omega arith)
