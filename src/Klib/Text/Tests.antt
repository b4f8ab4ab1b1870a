-- ===== src/Klib/Text/Tests.antt =====
-- The string functions on a concrete memory: "abc" at 100 and "abc" at 200.
use rubi_kernel.Prelude.{ℕ, refl, List, [], ◌∷◌, arith, ◌==◌, if◌then◌else◌}
use rubi_kernel.Klib.Text.{Mem, itoa}
use rubi_kernel.Klib.Text.Strings.{Str}
use rubi_kernel.Klib.Text.Numerals.{Printed, itoa_lem}

abbrev abc : Mem
abc x =
    if (x == 100)
    then 97
    else if (x == 101)
    then 98
    else if (x == 102)
    then 99
    else if (x == 200)
    then 97
    else if (x == 201)
    then 98
    else if (x == 202)
    then 99
    else 0

abbrev letters : List ℕ
letters = 97 ∷ 98 ∷ 99 ∷ []

at_100 : Str abc 100 letters
at_100 = (refl, omega arith, (refl, omega arith, (refl, omega arith, refl)))

at_200 : Str abc 200 letters
at_200 = (refl, omega arith, (refl, omega arith, (refl, omega arith, refl)))

itoa_lem_example : Printed 255 300 16 8 abc (itoa 9 255 300 16 abc)
itoa_lem_example =
    itoa_lem 8 9 255 300 16 abc (omega arith) (omega arith) (omega arith) (omega arith)
