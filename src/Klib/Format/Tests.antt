-- ===== src/Klib/Format/Tests.antt =====
-- vsprintf on concrete formats: "ab" at 100 and "%cx" at 200.
use rubi_kernel.Prelude.{◌==◌, if◌then◌else◌}
use rubi_kernel.Klib.Text.{Mem}

abbrev formats : Mem
formats x =
    if (x == 100)
    then 97
    else if (x == 101)
    then 98
    else if (x == 200)
    then 37
    else if (x == 201)
    then 99
    else if (x == 202)
    then 120
    else 0
