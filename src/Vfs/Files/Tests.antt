-- ===== src/Vfs/Files/Tests.antt =====
-- A file of the memory disk, open as number 3 at position 1.
use rubi_kernel.Prelude.{ℕ, ◌≡◌, refl, [], ◌∷◌, arith, ok}
use rubi_kernel.Klib.Clist.{Clist}
use rubi_kernel.Klib.Clist.Ring.{RingAt}
use rubi_kernel.Vfs.{initrd_file_ops, Vfs}
use rubi_kernel.Vfs.Initrd.{initrd_read}
use rubi_kernel.Vfs.Initrd.Tests.{vfs}
use rubi_kernel.Vfs.Files.{file_read}
use rubi_kernel.Vfs.Files.Reading.{after_read, file_read_lem}

abbrev table : Clist
table = record { slots = 1; head = 60; tail = 60; node = λ a. record { next = 60; data_ptr = a } }

abbrev opened : Vfs ℕ
opened = record vfs {
  fd_table = table;
  file =
      λ a. record { pos = 1; node = 70; mode = 0; fd = 3; private_data = 0; ops = initrd_file_ops };
}

table-RingAt : RingAt table 60 []
table-RingAt = record {
  links = refl;
  head_eq = refl;
  tail_eq = refl;
  distinct = (refl, tt);
  non_null = refl;
  size = refl;
  self = λ z h. refl;
}

file_read_lem_example :
    (file_read 1 3 500 2 opened
      ≡ ok ((initrd_read 70 1 2 500 opened).0, after_read 3 opened (60 ∷ []) 500 2))
    × ((after_read 3 opened (60 ∷ []) 500 2).file 60 ≡ opened.file 60)
file_read_lem_example =
    file_read_lem 1 3 opened (60 ∷ []) table-RingAt (omega arith) 500 2 60 (omega arith) refl
