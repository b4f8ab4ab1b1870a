-- ===== src/Klib/Clist/Append.antt =====
-- A new element behind the tail, which is what queue_push and the lists of the kernel do.
use rubi_kernel.Prelude.{
  ℕ, ◌+◌, ◌^◌, ◌<◌, ◌≡◌, ◌≢◌, refl, sym, ap, subst, true, false, List, [], ◌∷◌, ◌++◌, arith, ◌==◌,
  ==_iff, ==_refl,
}
use rubi_kernel.Klib.Slist.Chain.{has}
use rubi_kernel.Klib.Clist.{Clist, clist_init, clist_insert_after, queue_push}
use rubi_kernel.Klib.Clist.Ring.{RingAt, IsRing}
use rubi_kernel.Klib.Clist.Insert.{clist_insert_after-IsRing}

append_nil : (xs : List ℕ) → xs ++ [] ≡ xs
append_nil [] = refl
append_nil (x ∷ xs) = ap (λ ys. x ∷ ys) (append_nil xs)

first_element :
    (fresh : ℕ) (ct : Clist) → fresh ≢ 0 → IsRing (clist_insert_after fresh 0 ct) (fresh ∷ [])
unfolding clist_insert_after clist_init
first_element fresh ct real = record {
  links = rw (==_refl fresh) refl;
  head_eq = refl;
  tail_eq = refl;
  distinct = (refl, tt);
  non_null = ground (arith, ==_iff 0 fresh);
  size = refl;
  self = λ z h.
      let e : (fresh == z) ≡ true = ground (arith, ==_iff z fresh, ==_iff fresh z) in
      rw e ((==_iff fresh z).0 e);
}

-- `queue_push` of a new element that is neither NULL nor in the ring, with room in the count, puts it behind
-- all others, in an empty list too.
pub queue_push-IsRing :
    (fresh : ℕ) (ct : Clist) (xs : List ℕ)
    → IsRing ct xs
    → has fresh xs ≡ false
    → fresh ≢ 0
    → ct.slots + 1 < 2 ^ 32
    → IsRing (queue_push fresh ct) (xs ++ (fresh ∷ []))
unfolding queue_push
queue_push-IsRing fresh ct [] r new real room =
    subst (λ t. IsRing (clist_insert_after fresh t ct) (fresh ∷ [])) (sym r.2)
      (first_element fresh ct real)
queue_push-IsRing fresh ct (x ∷ ws) r new real room =
    let r0 : RingAt ct x (ws ++ []) = subst (λ l. RingAt ct x l) (sym (append_nil ws)) r in
    let new0 : has fresh (x ∷ (ws ++ [])) ≡ false =
      subst (λ l. has fresh (x ∷ l) ≡ false) (sym (append_nil ws)) new in
    subst (λ t. IsRing (clist_insert_after fresh t ct) (x ∷ (ws ++ (fresh ∷ [])))) (sym r.tail_eq)
      (clist_insert_after-IsRing fresh x ws [] ct r0 new0 real room)
