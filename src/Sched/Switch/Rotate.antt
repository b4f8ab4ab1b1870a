-- ===== src/Sched/Switch/Rotate.antt =====
-- The cycle of the tasks seen from another of them, and who is found first.
use rubi_kernel.Prelude.{
  ℕ, ◌≡◌, ◌⊎◌, ◌∙◌, refl, sym, ap, inl, inr, Bool, true, false, List, [], ◌∷◌, ◌++◌, ◌==◌, ==_iff,
  Bool-cases, arith,
}
use rubi_kernel.Klib.Slist.Chain.{has, has-append, Distinct-append, Distinct_join}
use rubi_kernel.Klib.Clist.Find.{first_match}
use rubi_kernel.Klib.Clist.Ring.{Nodes, Links-append, Links_join}
use rubi_kernel.Sched.Search.{Cycle, looked_at}

pub has_turned :
    (z c w : ℕ) (us ys : List ℕ) → has z (w ∷ (ys ++ (c ∷ us))) ≡ has z (c ∷ (us ++ (w ∷ ys)))
has_turned z c w us ys = ground (arith, has-append z ys (c ∷ us), has-append z us (w ∷ ys))

-- From `c` the links lead through `us`, `w` and `ys` back: so they do from `w` through `ys`, `c` and `us`.
pub turned :
    (node : Nodes) (c w : ℕ) (us ys : List ℕ)
    → Cycle node c (us ++ (w ∷ ys))
    → Cycle node w (ys ++ (c ∷ us))
turned node c w us ys k =
    let parts = Links-append node c us (w ∷ ys) c k.links in
    let apart = Distinct-append (c ∷ us) (w ∷ ys) k.distinct in
    record {
      links = Links_join node w ys (c ∷ us) w parts.1 parts.0;
      distinct = Distinct_join (w ∷ ys) (c ∷ us) apart.1 apart.0 (λ z h. disjoint z h apart.2);
      non_null = has_turned 0 c w us ys ∙ k.non_null;
      self = λ z h. k.self z (sym (has_turned z c w us ys) ∙ h);
    }
  where
    disjoint :
        (z : ℕ)
        → has z (w ∷ ys) ≡ true
        → ((a : ℕ) → has a (c ∷ us) ≡ true → has a (w ∷ ys) ≡ false)
        → has z (c ∷ us) ≡ false
    disjoint z h f = elim (Bool-cases (has z (c ∷ us))) [
      | inl e ↦ absurd (ground (arith, f z e))
      | inr e ↦ e
    ]

pub append_assoc : (xs ys zs : List ℕ) → (xs ++ ys) ++ zs ≡ xs ++ (ys ++ zs)
append_assoc [] ys zs = refl
append_assoc (x ∷ xs) ys zs = ap (λ l. x ∷ l) (append_assoc xs ys zs)

-- The first match in `p` and `a` and `q`, where `a` matches: `a`, or one in `p`.
pub first_split :
    (f : ℕ → Bool) (p : List ℕ) (a : ℕ) (q : List ℕ)
    → f a ≡ true
    → (first_match f (p ++ (a ∷ q)) ≡ a)
      ⊎ ((p1 : List ℕ) × (w : ℕ) × (p2 : List ℕ) × (p ≡ p1 ++ (w ∷ p2))
          × (first_match f (p ++ (a ∷ q)) ≡ w))
first_split f [] a q h = inl (rw h refl)
first_split f (v ∷ p) a q h = elim (Bool-cases (f v)) [
  | inl e ↦ inr ([], v, p, refl, rw e refl)
  | inr e ↦ elim (first_split f p a q h) [
    | inl r ↦ inl (rw e r)
    | inr (p1, w, p2, r, g) ↦ inr (v ∷ p1, w, p2, ap (λ l. v ∷ l) r, rw e g)
  ]
]

pub looked_at_middle :
    (c : ℕ) (p : List ℕ) (a : ℕ) (q : List ℕ) → looked_at c (p ++ (a ∷ q)) ≡ p ++ (a ∷ q)
looked_at_middle c [] a q = refl
looked_at_middle c (v ∷ p) a q = refl

-- An element of a list, with what stands before and behind it.
pub split_at :
    (a : ℕ) (xs : List ℕ) → has a xs ≡ true → (p : List ℕ) × (q : List ℕ) × (xs ≡ p ++ (a ∷ q))
split_at a [] h = absurd (ground arith)
split_at a (x ∷ xs) h = elim (Bool-cases (a == x)) [
  | inl e ↦ ([], xs, rw ((==_iff a x).0 e) refl)
  | inr e ↦ let (p, q, r) = split_at a xs (ground arith) in (x ∷ p, q, ap (λ l. x ∷ l) r)
]

pub has_all_turned :
    (z c w : ℕ) (us ys : List ℕ)
    → has z (w ∷ (ys ++ (c ∷ us))) ≡ true
    → has z (c ∷ (us ++ (w ∷ ys))) ≡ true
has_all_turned z c w us ys h = sym (has_turned z c w us ys) ∙ h
