-- ===== src/Klib/Text/Strings.antt =====
-- NUL-terminated strings: strlen, strcmp, strcpy and strncpy.
use rubi_kernel.Prelude.{
  ℕ, zero, suc, ◌+◌, ◌-◌, ◌<◌, ◌≡◌, ◌≢◌, ◌↔◌, inl, inr, refl, ap, ◌∙◌, true, false, List, [], ◌∷◌,
  length, take, take-length, min, arith, ltb, ◌==◌, if◌then◌else◌, ==_iff, Bool-cases, update,
  for_range, ok,
}
use rubi_kernel.Klib.Text.{Mem, strlen_from, strlen, strcmp_from, strcmp, strcpy, strncpy}
use rubi_kernel.Klib.Text.Memory.{Apart, copy_from, inside}

-- From `s + i` on, memory holds the non-zero bytes `cs` and a NUL.
abbrev pub StrFrom : Mem → ℕ → ℕ → List ℕ → Type 0
StrFrom m s i [] = m (s + i) ≡ 0
StrFrom m s i (c ∷ cs) = (m (s + i) ≡ c) × (c ≢ 0) × StrFrom m s (i + 1) cs

abbrev pub Str : Mem → ℕ → List ℕ → Type 0
Str m s cs = StrFrom m s 0 cs

strlen_from_lem :
    (fuel s i : ℕ) (m : Mem) (cs : List ℕ)
    → StrFrom m s i cs
    → length cs < fuel
    → strlen_from fuel s i m ≡ ok (i + length cs)
unfolding strlen_from
strlen_from_lem zero s i m cs h f = absurd (omega arith)
strlen_from_lem (suc fuel) s i m [] h f =
    let stop : (m (s + i) == 0) ≡ true = ground arith in rw stop (ap ok (omega arith))
strlen_from_lem (suc fuel) s i m (c ∷ cs) h f =
    let on : (m (s + i) == 0) ≡ false = ground arith in
    rw on (strlen_from_lem fuel s (i + 1) m cs h.2 (omega arith) ∙ ap ok (omega arith))

-- `strlen` of a string counts its bytes, given more fuel than that.
pub strlen_lem :
    (fuel s : ℕ) (m : Mem) (cs : List ℕ)
    → Str m s cs
    → length cs < fuel
    → strlen fuel s m ≡ ok (length cs)
unfolding strlen
strlen_lem fuel s m cs h f = strlen_from_lem fuel s 0 m cs h f ∙ ap ok (omega arith)

strcmp_from_eq :
    (i s1 s2 : ℕ) (m : Mem) (xs ys : List ℕ)
    → StrFrom m s1 i xs
    → StrFrom m s2 i ys
    → length xs ≡ length ys
    → (strcmp_from (length xs) i s1 s2 m ≡ 0) ↔ (xs ≡ ys)
unfolding strcmp_from
strcmp_from_eq i s1 s2 m [] [] h k e = (λ p. refl, λ p. refl)
strcmp_from_eq i s1 s2 m [] (y ∷ ys) h k e = absurd (omega arith)
strcmp_from_eq i s1 s2 m (x ∷ xs) [] h k e = absurd (omega arith)
strcmp_from_eq i s1 s2 m (x ∷ xs) (y ∷ ys) h k e =
    let ih = strcmp_from_eq (i + 1) s1 s2 m xs ys h.2 k.2 (omega arith) in
    (λ p. ground (arith, ih.0), λ p. ground (arith, ih.1))

-- `strcmp` of two strings, given more fuel than either length, ends; it returns 0 exactly when they
-- hold the same bytes.
pub strcmp_lem :
    (fuel s1 s2 : ℕ) (m : Mem) (xs ys : List ℕ)
    → Str m s1 xs
    → Str m s2 ys
    → length xs < fuel
    → length ys < fuel
    → (r : ℕ) × (strcmp fuel s1 s2 m ≡ ok r) × ((r ≡ 0) ↔ (xs ≡ ys))
unfolding strcmp
strcmp_lem fuel s1 s2 m xs ys h k f g =
    rw (strlen_lem fuel s1 m xs h f, strlen_lem fuel s2 m ys k g)
      (elim (Bool-cases (length xs == length ys)) [
        | inl e ↦ rw e (
          strcmp_from (length xs) 0 s1 s2 m,
          refl,
          strcmp_from_eq 0 s1 s2 m xs ys h k ((==_iff _ _).0 e),
        )
        | inr e ↦ rw e (1337, refl, (λ p. absurd (omega arith), λ p. absurd (differ e p)))
      ])
  where
    differ : (length xs == length ys) ≡ false → xs ≡ ys → ⊥
    differ e p = ground (arith, ap length p, ==_iff (length xs) (length ys))

-- what the copying functions leave at an address, after `n` bytes and the NUL
abbrev pub copied : (dst src n : ℕ) → Mem → ℕ → ℕ
copied dst src n m x =
    if dst + n == x then 0 else if inside dst n x then m (src + (x - dst)) else m x

copied-Str :
    (dst src n i k : ℕ) (m m' : Mem) (cs : List ℕ)
    → ((x : ℕ) → m' x ≡ copied dst src n m x)
    → StrFrom m src i cs
    → n ≡ i + min (length cs) k
    → StrFrom m' dst i (take k cs)
copied-Str dst src n i zero m m' cs c h e = rw (c (dst + i)) (ground arith)
copied-Str dst src n i (suc k) m m' [] c h e = rw (c (dst + i)) (ground arith)
copied-Str dst src n i (suc k) m m' (a ∷ cs) c h e =
    let at : m (src + (dst + i - dst)) ≡ m (src + i) = ap m (omega arith) in
    let byte : m' (dst + i) ≡ a = rw (c (dst + i)) (ground arith) in
    (byte, h.1, copied-Str dst src n (i + 1) k m m' cs c h.2 (omega arith))

-- `strncpy` of a string, given more fuel than its length and a destination that does not begin inside the bytes
-- copied, ends; it copies the first `n` bytes, or all if there are fewer, puts a NUL behind them,
-- and changes nothing else.
pub strncpy_lem :
    (fuel dst src n : ℕ) (m : Mem) (cs : List ℕ)
    → Str m src cs
    → length cs < fuel
    → Apart dst src (min (length cs) n)
    → (m' : Mem) × (strncpy fuel dst src n m ≡ ok m')
      × Str m' dst (take n cs)
      × ((x : ℕ) → inside dst (min (length cs) n + 1) x ≡ false → m' x ≡ m x)
unfolding strncpy
strncpy_lem fuel dst src n m cs h f a = rw (strlen_lem fuel src m cs h f) (
    let r : ℕ = if ltb (length cs) n then length cs else n in
    let e : r ≡ min (length cs) n = ground arith in
    let m' : Mem =
      update (for_range r 0 (λ i m1. update m1 (dst + i) (m1 (src + i))) m) (dst + r) 0 in
    let a' : Apart dst src (0 + r) = elim a [
      | inl p ↦ inl (omega arith)
      | inr p ↦ inr (omega arith)
    ] in
    let point : (x : ℕ) → m' x ≡ copied dst src r m x =
      λ x. ground (arith, copy_from r 0 dst src m x a') in
    (
      m',
      refl,
      copied-Str dst src r 0 n m m' cs point h (omega arith),
      λ x o. point x ∙ ground arith,
    ))

-- `strcpy` of a string, given more fuel than its length and a destination that does not begin inside its bytes,
-- ends; it copies the whole string and its NUL, and changes nothing else.
pub strcpy_lem :
    (fuel dst src : ℕ) (m : Mem) (cs : List ℕ)
    → Str m src cs
    → length cs < fuel
    → Apart dst src (length cs)
    → (m' : Mem) × (strcpy fuel dst src m ≡ ok m')
      × Str m' dst cs
      × ((x : ℕ) → inside dst (length cs + 1) x ≡ false → m' x ≡ m x)
unfolding strcpy
strcpy_lem fuel dst src m cs h f a = rw (strlen_lem fuel src m cs h f) (
    let r : ℕ = length cs in
    let m' : Mem =
      update (for_range r 0 (λ i m1. update m1 (dst + i) (m1 (src + i))) m) (dst + r) 0 in
    let a' : Apart dst src (0 + r) = elim a [
      | inl p ↦ inl (omega arith)
      | inr p ↦ inr (omega arith)
    ] in
    let point : (x : ℕ) → m' x ≡ copied dst src r m x =
      λ x. ground (arith, copy_from r 0 dst src m x a') in
    let str = copied-Str dst src r 0 r m m' cs point h (omega arith) in
    (m', refl, rw (take-length r cs (omega arith)) at str, λ x o. point x ∙ ground arith))
