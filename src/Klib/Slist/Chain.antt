-- ===== src/Klib/Slist/Chain.antt =====
-- What a linked list stands for: the addresses of its elements, in order.
use rubi_kernel.Prelude.{
  ℕ, ◌≡◌, ◌≢◌, refl, ◌∙◌, Bool, true, false, ◌||◌, List, [], ◌∷◌, ◌++◌, arith, ◌==◌, ==_iff,
  ==_refl,
}
use rubi_kernel.Klib.Slist.{Node}

abbrev pub Nodes : Type 0
Nodes = ℕ → Node

abbrev pub has : ℕ → List ℕ → Bool
has a [] = false
has a (x ∷ xs) = (a == x) || has a xs

abbrev pub Distinct : List ℕ → Type 0
Distinct [] = Unit {0}
Distinct (x ∷ xs) = (has x xs ≡ false) × Distinct xs

abbrev pub first_or : ℕ → List ℕ → ℕ
first_or d [] = d
first_or d (x ∷ xs) = x

abbrev pub last_or : ℕ → List ℕ → ℕ
last_or d [] = d
last_or d (x ∷ xs) = last_or x xs

-- The elements of `xs` link to one another; `p` stands before them and `q` behind.
abbrev pub Chain : Nodes → ℕ → List ℕ → ℕ → Type 0
Chain n p [] q = Unit {0}
Chain n p (x ∷ xs) q = ((n x).prev ≡ p) × ((n x).next ≡ first_or q xs) × Chain n x xs q

pub has-append : (a : ℕ) (xs ys : List ℕ) → has a (xs ++ ys) ≡ (has a xs || has a ys)
has-append a [] ys = refl
has-append a (x ∷ xs) ys = ground (arith, has-append a xs ys)

pub last_or-append : (d : ℕ) (xs ys : List ℕ) → last_or d (xs ++ ys) ≡ last_or (last_or d xs) ys
last_or-append d [] ys = refl
last_or-append d (x ∷ xs) ys = last_or-append x xs ys

pub first_or-append : (d : ℕ) (xs ys : List ℕ) → first_or d (xs ++ ys) ≡ first_or (first_or d ys) xs
first_or-append d [] ys = refl
first_or-append d (x ∷ xs) ys = refl

pub has-last : (x : ℕ) (xs : List ℕ) → has (last_or x xs) (x ∷ xs) ≡ true
has-last x [] = ground (arith, ==_refl x)
has-last x (y ∷ ys) = ground (arith, has-last y ys)

pub Distinct-append :
    (xs ys : List ℕ)
    → Distinct (xs ++ ys)
    → Distinct xs × Distinct ys × ((a : ℕ) → has a xs ≡ true → has a ys ≡ false)
Distinct-append [] ys d = (tt, d, λ a h. cc)
Distinct-append (x ∷ xs) ys d =
    let ih = Distinct-append xs ys d.1 in
    (
      (ground (arith, has-append x xs ys), ih.0),
      ih.1,
      λ a h. ground (arith, has-append x xs ys, ==_iff a x, ih.2 a),
    )

pub Distinct_join :
    (xs ys : List ℕ)
    → Distinct xs
    → Distinct ys
    → ((a : ℕ) → has a xs ≡ true → has a ys ≡ false)
    → Distinct (xs ++ ys)
Distinct_join [] ys dx dy apart = dy
Distinct_join (x ∷ xs) ys dx dy apart = (
  ground (arith, has-append x xs ys, apart x),
  Distinct_join xs ys dx.1 dy (λ a h. apart a (ground arith)),
)

module _ (n : Nodes) where
  pub Chain-append :
      (p : ℕ) (xs ys : List ℕ) (q : ℕ)
      → Chain n p (xs ++ ys) q
      → Chain n p xs (first_or q ys) × Chain n (last_or p xs) ys q
  Chain-append p [] ys q c = (tt, c)
  Chain-append p (x ∷ xs) ys q c =
      let ih = Chain-append x xs ys q c.2 in ((c.0, c.1 ∙ first_or-append q xs ys, ih.0), ih.1)

  pub Chain_join :
      (p : ℕ) (xs ys : List ℕ) (q : ℕ)
      → Chain n p xs (first_or q ys)
      → Chain n (last_or p xs) ys q
      → Chain n p (xs ++ ys) q
  Chain_join p [] ys q c d = d
  Chain_join p (x ∷ xs) ys q c d =
      (c.0, rw (first_or-append q xs ys) c.1, Chain_join x xs ys q c.2 d)

-- A chain in `m` that agrees with one in `n` but for the link out of its last element.
pub Chain_retail :
    (n m : Nodes) (p : ℕ) (xs : List ℕ) (q q' : ℕ)
    → Distinct xs
    → Chain n p xs q
    → ((x : ℕ) → has x xs ≡ true → (m x).prev ≡ (n x).prev)
    → ((x : ℕ) → has x xs ≡ true → x ≢ last_or p xs → (m x).next ≡ (n x).next)
    → (has (last_or p xs) xs ≡ true → (m (last_or p xs)).next ≡ q')
    → Chain m p xs q'
Chain_retail n m p [] q q' d c same_prev same_next new = tt
Chain_retail n m p (x ∷ []) q q' d c same_prev same_next new =
    (same_prev x (ground (arith, ==_refl x)) ∙ c.0, new (ground (arith, ==_refl x)), tt)
Chain_retail n m p (x ∷ y ∷ ys) q q' d c same_prev same_next new =
    let ne : x ≢ last_or y ys = λ e. ground (arith, has-last y ys) in
    (
      same_prev x (ground (arith, ==_refl x)) ∙ c.0,
      same_next x (ground (arith, ==_refl x)) ne ∙ c.1,
      Chain_retail n m x (y ∷ ys) q q' d.1 c.2 (λ z h. same_prev z (ground arith))
          (λ z h. same_next z (ground arith)) (λ h. new (ground (arith, has-last y ys))),
    )

pub Chain_frame :
    (n m : Nodes) (p : ℕ) (xs : List ℕ) (q : ℕ)
    → Chain n p xs q
    → ((x : ℕ) → has x xs ≡ true → ((m x).prev ≡ (n x).prev) × ((m x).next ≡ (n x).next))
    → Chain m p xs q
Chain_frame n m p [] q c same = tt
Chain_frame n m p (x ∷ xs) q c same =
    let here = same x (ground (arith, ==_refl x)) in
    (here.0 ∙ c.0, here.1 ∙ c.1, Chain_frame n m x xs q c.2 (λ z h. same z (ground arith)))

-- A chain that agrees with another but for the link back from its first element.
pub Chain_rehead :
    (n m : Nodes) (p p' : ℕ) (xs : List ℕ) (q : ℕ)
    → Distinct xs
    → Chain n p xs q
    → ((x : ℕ) → has x xs ≡ true → (m x).next ≡ (n x).next)
    → ((x : ℕ) → has x xs ≡ true → x ≢ first_or q xs → (m x).prev ≡ (n x).prev)
    → (has (first_or q xs) xs ≡ true → (m (first_or q xs)).prev ≡ p')
    → Chain m p' xs q
Chain_rehead n m p p' [] q d c same_next same_prev new = tt
Chain_rehead n m p p' (x ∷ xs) q d c same_next same_prev new = (
  new (ground (arith, ==_refl x)),
  same_next x (ground (arith, ==_refl x)) ∙ c.1,
  Chain_frame n m x xs q c.2 (λ z h.
      (same_prev z (ground arith) (λ e. ground (arith, ==_iff z x)), same_next z (ground arith))),
)
