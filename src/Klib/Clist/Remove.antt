-- ===== src/Klib/Clist/Remove.antt =====
-- Deletion from a ring, of an element that is not the head.
use rubi_kernel.Prelude.{
  ℕ, zero, suc, ◌+◌, ◌-◌, ◌^◌, ◌<◌, ◌≡◌, ◌≢◌, refl, ap, ◌∙◌, true, false, List, [], ◌∷◌, ◌++◌,
  length, length-append, arith, ◌==◌, if◌then◌else◌, ==_iff, ==_refl, Bool-cases, inl, inr, update,
  u32,
}
use rubi_kernel.Klib.Slist.Chain.{
  has, Distinct, first_or, last_or, has-append, last_or-append, has-last, Distinct-append,
  Distinct_join,
}
use rubi_kernel.Klib.Clist.{Clist, find_prev, clist_delete}
use rubi_kernel.Klib.Clist.Ring.{
  Nodes, Links, RingAt, IsRing, Links-append, Links_join, Links_retarget, Links_frame,
  length-insert, last_or-insert,
}

pub find_prev_links :
    (rounds x pos : ℕ) (us : List ℕ) (n : Nodes)
    → Links n x us pos
    → has pos us ≡ false
    → length us < rounds
    → find_prev rounds x pos n ≡ last_or x us
unfolding find_prev
find_prev_links zero x pos us n l h b = absurd (omega arith)
find_prev_links (suc rounds) x pos [] n l h b = rw (l, ==_refl pos) refl
find_prev_links (suc rounds) x pos (u ∷ us) n l h b =
    let other : (u == pos) ≡ false = ground (arith, ==_iff u pos, ==_iff pos u) in
    rw (l.0, other) (find_prev_links rounds u pos us n l.1 (ground arith) (omega arith))

tail_case :
    (pos a t : ℕ) (ys : List ℕ)
    → t ≡ last_or pos ys
    → has pos ys ≡ false
    → (if pos == t then a else t) ≡ last_or a ys
tail_case pos a t [] e h = rw (e, ==_refl pos) refl
tail_case pos a t (y ∷ ys) e h =
    let other : (pos == t) ≡ false = ground (arith, has-last y ys, ==_iff pos t) in rw other e

module _ (pos x : ℕ) (us ys : List ℕ) (ct : Clist) (r : RingAt ct x (us ++ (pos ∷ ys)))
    (room : ct.slots < 2 ^ 32) where
  abbrev at : ℕ
  at = last_or x us

  abbrev out : Clist
  out = clist_delete pos ct

  abbrev apart :
      Distinct (x ∷ us)
      × Distinct (pos ∷ ys)
      × ((a : ℕ) → has a (x ∷ us) ≡ true → has a (pos ∷ ys) ≡ false)
  apart = Distinct-append (x ∷ us) (pos ∷ ys) r.distinct

  abbrev parts : Links ct.node x us pos × Links ct.node pos ys x
  parts = Links-append ct.node x us (pos ∷ ys) x r.links

  pos_out : has pos (x ∷ us) ≡ false
  pos_out = elim (Bool-cases (has pos (x ∷ us))) [
    | inl h ↦ ground (arith, apart.2 pos h, ==_refl pos)
    | inr h ↦ h
  ]

  found : find_prev (ct.slots + 1) ct.head pos ct.node ≡ at
  found =
      let size = r.size ∙ ap suc (length-insert us ys pos) in
      rw r.head_eq (
        find_prev_links (ct.slots + 1) x pos us ct.node parts.0 (ground (arith, pos_out))
          (omega (arith, length-append us ys)))

  opened : out ≡ record {
    slots = u32 (ct.slots + 2 ^ 32 - 1);
    head = ct.head;
    tail = if pos == ct.tail then at else ct.tail;
    node = update ct.node at (record (ct.node at) { next = (ct.node pos).next });
  }
  unfolding clist_delete
  opened =
      let size = r.size ∙ ap suc (length-insert us ys pos) in
      let several : (ct.slots == 1) ≡ false = ground arith in
      let other : (pos == ct.head) ≡ false = ground (arith, r.head_eq, pos_out, ==_iff pos x) in
      rw (several, found, other) refl

  at_in : has at (x ∷ us) ≡ true
  at_in = has-last x us

  old_next : (z : ℕ) → z ≢ at → (out.node z).next ≡ (ct.node z).next
  old_next z p = let a : (at == z) ≡ false = ground arith in rw (opened, a) refl

  kept_data : (z : ℕ) → (out.node z).data_ptr ≡ (ct.node z).data_ptr
  kept_data z = elim (Bool-cases (at == z)) [
    | inl e ↦ rw (opened, e, (==_iff at z).0 e) refl
    | inr e ↦ rw (opened, e) refl
  ]

  new_links : Links out.node x (us ++ ys) x
  new_links =
      let tail_parts = Links-append ct.node pos [] ys x parts.1 in
      let jump : (out.node at).next ≡ first_or x ys = rw (opened, ==_refl at) tail_parts.0 in
      let front =
        Links_retarget ct.node out.node x us pos (first_or x ys) apart.0 parts.0
          (λ z h p. old_next z p) jump in
      let back =
        Links_frame ct.node out.node ys x tail_parts.1
          (λ z h. old_next z (λ e. ground (arith, at_in, apart.2 z))) in
      Links_join out.node x us ys x front back

  was_in : (z : ℕ) → has z (x ∷ (us ++ ys)) ≡ true → has z (x ∷ (us ++ (pos ∷ ys))) ≡ true
  was_in z h = ground (arith, has-append z us ys, has-append z us (pos ∷ ys))

  -- On a ring whose elements are `x`, `us`, `pos` and `ys`, `clist_delete` of `pos` makes the ring of `x`, `us`
  -- and `ys`.
  pub clist_delete-IsRing : IsRing (clist_delete pos ct) (x ∷ (us ++ ys))
  clist_delete-IsRing = record {
    links = new_links;
    head_eq = rw opened r.head_eq;
    tail_eq =
        rw (opened, last_or-append x us ys)
          (tail_case pos at ct.tail ys (r.tail_eq ∙ last_or-insert x us ys pos) apart.1.0);
    distinct = Distinct_join (x ∷ us) ys apart.0 apart.1.1 (λ a h. ground (arith, apart.2 a h));
    non_null = ground (arith, r.non_null, has-append 0 us ys, has-append 0 us (pos ∷ ys));
    size = rw opened (omega (arith, r.size, length-insert us ys pos));
    self = λ z h. kept_data z ∙ r.self z (was_in z h);
  }
