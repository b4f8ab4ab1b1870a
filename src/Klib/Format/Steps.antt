-- ===== src/Klib/Format/Steps.antt =====
-- vsprintf over plain text, and the rounds of `%c`.
use rubi_kernel.Prelude.{
  ℕ, zero, suc, ◌+◌, ◌<◌, ◌≡◌, ◌≢◌, ◌⊎◌, inl, inr, refl, sym, ap, ◌∙◌, true, false, List, [], ◌∷◌,
  length, arith, ◌==◌, ==_refl, update, u8, Run, ok,
}
use rubi_kernel.Klib.Text.{Mem}
use rubi_kernel.Klib.Text.Strings.{StrFrom, Str}
use rubi_kernel.Klib.Format.{Fmt, va_arg, put_char, step, vsprintf_from, vsprintf}

-- no byte is '%'
abbrev pub NoPercent : List ℕ → Type 0
NoPercent [] = Unit {0}
NoPercent (c ∷ cs) = (c ≢ b'%') × NoPercent cs

StrFrom-update :
    (m : Mem) (s i a v : ℕ) (cs : List ℕ)
    → StrFrom m s i cs
    → (a < s + i) ⊎ (s + i + length cs < a)
    → StrFrom (update m a v) s i cs
StrFrom-update m s i a v [] h o = elim o [ inl p ↦ ground arith | inr p ↦ ground arith ]
StrFrom-update m s i a v (c ∷ cs) h o = (
  elim o [ inl p ↦ ground arith | inr p ↦ ground arith ],
  h.1,
  StrFrom-update m s (i + 1) a v cs h.2
      (elim o [ inl p ↦ inl (omega arith) | inr p ↦ inr (omega arith) ]),
)

-- what is left of a run that has written `n` characters
record Wrote (s1 n : ℕ) (cs : List ℕ) (m : Mem) (out : Run (ℕ × Mem)) : Type 0 where
  state : Mem
  result : out ≡ ok (n + length cs, state)
  text : StrFrom state s1 n cs
  kept : (x : ℕ) → (x < s1 + n) ⊎ (s1 + n + length cs < x) → state x ≡ m x

step_plain :
    (tf s1 s2 rt : ℕ) (f : Fmt)
    → f.mem (s2 + f.src_i) ≢ b'%'
    → step tf s1 s2 rt f
      ≡ ok (record f {
        mem = update f.mem (s1 + f.dst_i) (f.mem (s2 + f.src_i));
        src_i = f.src_i + 1;
        dst_i = f.dst_i + 1;
      })
unfolding step
step_plain tf s1 s2 rt f h =
    let no_percent : (f.mem (s2 + f.src_i) == b'%') ≡ false = ground arith in rw no_percent refl

plain_from :
    (cs : List ℕ) (fuel tf s1 s2 rt i : ℕ) (args : List ℕ) (m : Mem)
    → StrFrom m s2 i cs
    → NoPercent cs
    → length cs < fuel
    → (s1 + i + length cs < s2 + i) ⊎ (s2 + i + length cs < s1 + i)
    → Wrote s1 i cs m
        (vsprintf_from tf s1 s2 rt fuel (record { src_i = i; dst_i = i; args = args; mem = m }))
unfolding vsprintf_from
plain_from cs zero tf s1 s2 rt i args m h p f a = absurd (omega arith)
plain_from [] (suc fuel) tf s1 s2 rt i args m h p f a =
    let stop : (m (s2 + i) == 0) ≡ true = ground arith in
    rw stop (record {
      state = update m (s1 + i) 0;
      result = ap (λ n. ok (n, update m (s1 + i) 0)) (omega arith);
      text = ground (arith, ==_refl (s1 + i));
      kept = λ x o. ground arith;
    })
plain_from (c ∷ cs) (suc fuel) tf s1 s2 rt i args m h p f a =
    let on : (m (s2 + i) == 0) ≡ false = ground arith in
    let first =
      step_plain tf s1 s2 rt (record { src_i = i; dst_i = i; args = args; mem = m })
        (λ e. p.0 (sym h.0 ∙ e)) in
    let m1 : Mem = update m (s1 + i) (m (s2 + i)) in
    let source : StrFrom m1 s2 (i + 1) cs =
      StrFrom-update m s2 (i + 1) (s1 + i) (m (s2 + i)) cs h.2
        (elim a [ inl q ↦ inl (omega arith) | inr q ↦ inr (omega arith) ]) in
    let w =
      plain_from cs fuel tf s1 s2 rt (i + 1) args m1 source p.1 (omega arith)
        (elim a [ inl q ↦ inl (omega arith) | inr q ↦ inr (omega arith) ]) in
    rw (on, first)
      (record {
        state = w.state;
        result = w.result ∙ ap (λ n. ok (n, w.state)) (omega arith);
        text =
            (w.kept (s1 + i) (inl (omega arith)) ∙ ground (arith, ==_refl (s1 + i)), h.1, w.text);
        kept = λ x o.
            w.kept x (elim o [ inl q ↦ inl (omega arith) | inr q ↦ inr (omega arith) ])
            ∙ elim o [ inl q ↦ ground arith | inr q ↦ ground arith ];
      })

-- A format without '%', apart from the destination, is copied as it is: given more fuel than its
-- length, `vsprintf` ends and returns the length, the destination holds the text, and nothing else
-- changes.
pub vsprintf_plain :
    (fuel tf rt s1 s2 : ℕ) (args : List ℕ) (m : Mem) (cs : List ℕ)
    → Str m s2 cs
    → NoPercent cs
    → length cs < fuel
    → (s1 + length cs < s2) ⊎ (s2 + length cs < s1)
    → (m' : Mem) × (vsprintf fuel tf rt s1 s2 args m ≡ ok (length cs, m'))
      × Str m' s1 cs
      × ((x : ℕ) → (x < s1) ⊎ (s1 + length cs < x) → m' x ≡ m x)
unfolding vsprintf
vsprintf_plain fuel tf rt s1 s2 args m cs h p f a =
    let w =
      plain_from cs fuel tf s1 s2 rt 0 args m h p f
        (elim a [ inl q ↦ inl (omega arith) | inr q ↦ inr (omega arith) ]) in
    (
      w.state,
      w.result ∙ ap (λ n. ok (n, w.state)) (omega arith),
      w.text,
      λ x o. w.kept x (elim o [ inl q ↦ inl (omega arith) | inr q ↦ inr (omega arith) ]),
    )

step_char :
    (tf s1 s2 rt i j a : ℕ) (rest : List ℕ) (m : Mem)
    → m (s2 + i) ≡ b'%'
    → m (s2 + (i + 1)) ≡ b'c'
    → step tf s1 s2 rt (record { src_i = i; dst_i = j; args = a ∷ rest; mem = m })
      ≡ ok
          (record { src_i = i + 2 + 1; dst_i = j + 1; args = rest; mem = update m (s1 + j) (u8 a) })
unfolding step put_char va_arg
step_char tf s1 s2 rt i j a rest m p c = rw (p, c) refl

-- Of a format that is "%c" and one more character, apart from the destination, that character is
-- lost, whatever it is: only the argument is written, and 1 is returned.
pub vsprintf_char_drops_next :
    (fuel tf rt s1 s2 a x : ℕ) (m : Mem)
    → Str m s2 (b'%' ∷ b'c' ∷ x ∷ [])
    → (s1 + 3 < s2) ⊎ (s2 + 3 < s1)
    → 1 < fuel
    → vsprintf fuel tf rt s1 s2 (a ∷ []) m ≡ ok (1, update (update m s1 (u8 a)) (s1 + 1) 0)
unfolding vsprintf vsprintf_from
vsprintf_char_drops_next zero tf rt s1 s2 a x m h o f = absurd (omega arith)
vsprintf_char_drops_next (suc zero) tf rt s1 s2 a x m h o f = absurd (omega arith)
vsprintf_char_drops_next (suc (suc fuel)) tf rt s1 s2 a x m h o f =
    let on : (m (s2 + 0) == 0) ≡ false = ground arith in
    let round = step_char tf s1 s2 rt 0 0 a [] m h.0 h.2.0 in
    let here : s1 + 0 ≡ s1 = omega arith in
    let source : m (s2 + 3) ≡ 0 = ap m (omega arith) ∙ h.2.2.2 in
    let stop : (update m s1 (u8 a) (s2 + 3) == 0) ≡ true = elim o [
      | inl q ↦ ground arith
      | inr q ↦ ground arith
    ] in
    rw (on, round, here, stop) refl
