-- ===== src/Klib/Clist/Ring.antt =====
-- The ring that a circular list is, and what its operations do to it.
use rubi_kernel.Prelude.{
  ℕ, suc, ◌≡◌, ◌≢◌, refl, ap, ◌∙◌, true, false, List, [], ◌∷◌, ◌++◌, length, arith, ==_refl,
}
use rubi_kernel.Klib.Slist.Chain.{has, Distinct, first_or, last_or, has-last}
use rubi_kernel.Klib.Clist.{ClistNode, Clist}

abbrev pub Nodes : Type 0
Nodes = ℕ → ClistNode

-- From `x` the links lead through `ws` to `stop`.
abbrev pub Links : Nodes → ℕ → List ℕ → ℕ → Type 0
Links n x [] stop = (n x).next ≡ stop
Links n x (w ∷ ws) stop = ((n x).next ≡ w) × Links n w ws stop

-- The links of the elements of a list that may be empty.
abbrev pub LinksFrom : Nodes → List ℕ → ℕ → Type 0
LinksFrom n [] stop = Unit {0}
LinksFrom n (y ∷ ys) stop = Links n y ys stop

-- a ring that starts at its head `x`
pub record RingAt (ct : Clist) (x : ℕ) (ws : List ℕ) : Type 0 where
  pub links : Links ct.node x ws x
  pub head_eq : ct.head ≡ x
  pub tail_eq : ct.tail ≡ last_or x ws
  pub distinct : Distinct (x ∷ ws)
  pub non_null : has 0 (x ∷ ws) ≡ false
  pub size : ct.slots ≡ suc (length ws)
  pub self : (z : ℕ) → has z (x ∷ ws) ≡ true → (ct.node z).data_ptr ≡ z

-- The circular list holds the elements, in order from the head.
abbrev pub IsRing : Clist → List ℕ → Type 0
IsRing ct [] = (ct.slots ≡ 0) × (ct.head ≡ 0) × (ct.tail ≡ 0)
IsRing ct (x ∷ ws) = RingAt ct x ws

module _ (n : Nodes) where
  pub Links-append :
      (x : ℕ) (us ys : List ℕ) (stop : ℕ)
      → Links n x (us ++ ys) stop
      → Links n x us (first_or stop ys) × LinksFrom n ys stop
  Links-append x [] [] stop l = (l, tt)
  Links-append x [] (y ∷ ys) stop l = (l.0, l.1)
  Links-append x (u ∷ us) ys stop l = let ih = Links-append u us ys stop l.1 in ((l.0, ih.0), ih.1)

  pub Links_join :
      (x : ℕ) (us ys : List ℕ) (stop : ℕ)
      → Links n x us (first_or stop ys)
      → LinksFrom n ys stop
      → Links n x (us ++ ys) stop
  Links_join x [] [] stop l r = l
  Links_join x [] (y ∷ ys) stop l r = (l, r)
  Links_join x (u ∷ us) ys stop l r = (l.0, Links_join u us ys stop l.1 r)

  pub Links-last :
      (x : ℕ) (us : List ℕ) (stop : ℕ) → Links n x us stop → (n (last_or x us)).next ≡ stop
  Links-last x [] stop l = l
  Links-last x (u ∷ us) stop l = Links-last u us stop l.1

-- Links in `m` that agree with those in `n` but for the link out of the last element.
pub Links_retarget :
    (n m : Nodes) (x : ℕ) (us : List ℕ) (p q : ℕ)
    → Distinct (x ∷ us)
    → Links n x us p
    → ((z : ℕ) → has z (x ∷ us) ≡ true → z ≢ last_or x us → (m z).next ≡ (n z).next)
    → (m (last_or x us)).next ≡ q
    → Links m x us q
Links_retarget n m x [] p q d l same new = new
Links_retarget n m x (u ∷ us) p q d l same new =
    let far : x ≢ last_or u us = λ e. ground (arith, has-last u us) in
    (
      same x (ground (arith, ==_refl x)) far ∙ l.0,
      Links_retarget n m u us p q d.1 l.1 (λ z h. same z (ground arith)) new,
    )

pub Links_frame :
    (n m : Nodes) (ys : List ℕ) (stop : ℕ)
    → LinksFrom n ys stop
    → ((z : ℕ) → has z ys ≡ true → (m z).next ≡ (n z).next)
    → LinksFrom m ys stop
Links_frame n m [] stop l same = tt
Links_frame n m (y ∷ []) stop l same = same y (ground (arith, ==_refl y)) ∙ l
Links_frame n m (y ∷ z ∷ ys) stop l same = (
  same y (ground (arith, ==_refl y)) ∙ l.0,
  Links_frame n m (z ∷ ys) stop l.1 (λ w h. same w (ground arith)),
)

pub length-insert : (us ys : List ℕ) (a : ℕ) → length (us ++ (a ∷ ys)) ≡ suc (length (us ++ ys))
length-insert [] ys a = refl
length-insert (u ∷ us) ys a = ap suc (length-insert us ys a)

pub last_or-insert : (x : ℕ) (us ys : List ℕ) (a : ℕ) → last_or x (us ++ (a ∷ ys)) ≡ last_or a ys
last_or-insert x [] ys a = refl
last_or-insert x (u ∷ us) ys a = last_or-insert u us ys a
