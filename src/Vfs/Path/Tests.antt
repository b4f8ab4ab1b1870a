-- ===== src/Vfs/Path/Tests.antt =====
-- The path "dir/" at 100.
use rubi_kernel.Prelude.{ℕ, ◌==◌, if◌then◌else◌, arith}
use rubi_kernel.Klib.Text.{Mem}
use rubi_kernel.Vfs.Path.{Part, take_part}
use rubi_kernel.Vfs.Path.Parts.{Bounded, take_part_bounds}

abbrev path : Mem
path a =
    if a == 100
    then b'd'
    else if a == 101
    then b'i'
    else if a == 102
    then b'r'
    else if a == 103
    then b'/'
    else 0

abbrev blank : ℕ → ℕ
blank i = 0

abbrev start : Part
start = record { cur_path = 100; i = 0; part = blank }

take_part_bounds_example : Bounded blank (take_part 129 start path)
take_part_bounds_example = take_part_bounds 129 100 blank path (omega arith)
