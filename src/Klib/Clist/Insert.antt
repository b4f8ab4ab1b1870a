-- ===== src/Klib/Clist/Insert.antt =====
-- Insertion in a ring.
use rubi_kernel.Prelude.{
  ℕ, ◌+◌, ◌^◌, ◌<◌, ◌≡◌, ◌≢◌, refl, ap, ◌∙◌, true, false, ◌||◌, List, [], ◌∷◌, ◌++◌, arith, ◌==◌,
  if◌then◌else◌, ==_iff, ==_refl, Bool-cases, inl, inr, update, u32,
}
use rubi_kernel.Klib.Slist.Chain.{
  has, Distinct, first_or, last_or, has-append, last_or-append, has-last, Distinct-append,
}
use rubi_kernel.Klib.Clist.{ClistNode, Clist, clist_insert_after}
use rubi_kernel.Klib.Clist.Ring.{
  Links, RingAt, IsRing, Links-append, Links_join, Links-last, Links_retarget, Links_frame,
  length-insert, last_or-insert,
}

has-insert : (z a : ℕ) (us ys : List ℕ) → has z (us ++ (a ∷ ys)) ≡ ((z == a) || has z (us ++ ys))
has-insert z a [] ys = refl
has-insert z a (u ∷ us) ys = ground (arith, has-insert z a us ys)

Distinct-insert :
    (a : ℕ) (us ys : List ℕ)
    → Distinct (us ++ ys)
    → has a (us ++ ys) ≡ false
    → Distinct (us ++ (a ∷ ys))
Distinct-insert a [] ys d h = (h, d)
Distinct-insert a (u ∷ us) ys d h = (
  ground (arith, has-insert u a us ys, ==_iff a u, ==_iff u a),
  Distinct-insert a us ys d.1 (ground arith),
)

tail_case :
    (a fresh t : ℕ) (ys : List ℕ)
    → t ≡ last_or a ys
    → has a ys ≡ false
    → (if t == a then fresh else t) ≡ last_or fresh ys
tail_case a fresh t [] e h = rw (e, ==_refl a) refl
tail_case a fresh t (y ∷ ys) e h =
    let other : (t == a) ≡ false = ground (arith, has-last y ys, ==_iff t a) in rw other e

module _ (fresh x : ℕ) (us ys : List ℕ) (ct : Clist) (r : RingAt ct x (us ++ ys))
    (new : has fresh (x ∷ (us ++ ys)) ≡ false) (real : fresh ≢ 0)
    (room : ct.slots + 1 < 2 ^ 32) where
  abbrev at : ℕ
  at = last_or x us

  abbrev out : Clist
  out = clist_insert_after fresh at ct

  at_in : has at (x ∷ (us ++ ys)) ≡ true
  at_in = ground (arith, has-last x us, has-append at us ys)

  at_real : at ≢ 0
  at_real e = ground (arith, at_in, r.non_null)

  at_new : at ≢ fresh
  at_new e = ground (arith, at_in)

  opened : out ≡ record {
    slots = u32 (ct.slots + 1);
    head = ct.head;
    tail = if ct.tail == at then fresh else ct.tail;
    node =
        update
          (update ct.node fresh (record { next = (ct.node at).next; data_ptr = fresh }))
          at
          (record (update ct.node fresh
            (record { next = (ct.node at).next; data_ptr = fresh })
            at) { next = fresh });
  }
  unfolding clist_insert_after
  opened =
      let n0 = at_real in
      let s = r.size in let go : ((at == 0) || (ct.slots == 0)) ≡ false = ground arith in rw go refl

  old_node : (z : ℕ) → z ≢ at → z ≢ fresh → out.node z ≡ ct.node z
  old_node z p q =
      let a : (at == z) ≡ false = ground arith in
      let b : (fresh == z) ≡ false = ground arith in rw (opened, a, b) refl

  at_node : (out.node at).next ≡ fresh
  at_node = rw (opened, ==_refl at) refl

  at_data : (out.node at).data_ptr ≡ (ct.node at).data_ptr
  at_data =
      let b : (fresh == at) ≡ false = ground (arith, at_new) in rw (opened, ==_refl at, b) refl

  new_node : out.node fresh ≡ record { next = (ct.node at).next; data_ptr = fresh }
  new_node =
      let a : (at == fresh) ≡ false = ground (arith, at_new) in rw (opened, a, ==_refl fresh) refl

  kept_next :
      (z : ℕ) → has z (x ∷ (us ++ ys)) ≡ true → z ≢ at → (out.node z).next ≡ (ct.node z).next
  kept_next z h p =
      let q : z ≢ fresh = λ e. ground arith in ap (λ (c : ClistNode). c.next) (old_node z p q)

  new_links : Links out.node x (us ++ (fresh ∷ ys)) x
  new_links =
      let parts = Links-append ct.node x us ys x r.links in
      let apart = Distinct-append (x ∷ us) ys r.distinct in
      let front =
        Links_retarget ct.node out.node x us (first_or x ys) fresh apart.0 parts.0
          (λ z h. kept_next z (ground (arith, has-append z us ys))) at_node in
      let back = Links_frame ct.node out.node ys x parts.1 (λ z h.
        kept_next z (ground (arith, has-append z us ys))
          (λ e. ground (arith, apart.2 z, has-last x us))) in
      let follow : (out.node fresh).next ≡ first_or x ys =
        ap (λ (c : ClistNode). c.next) new_node ∙ Links-last ct.node x us (first_or x ys) parts.0 in
      Links_join out.node x us (fresh ∷ ys) x front (Links_join out.node fresh [] ys x follow back)

  new_tail : out.tail ≡ last_or x (us ++ (fresh ∷ ys))
  new_tail =
      let apart = Distinct-append (x ∷ us) ys r.distinct in
      let end = r.tail_eq ∙ last_or-append x us ys in
      rw (opened, last_or-insert x us ys fresh)
        (tail_case at fresh ct.tail ys end (apart.2 at (has-last x us)))

  new_self : (z : ℕ) → has z (x ∷ (us ++ (fresh ∷ ys))) ≡ true → (out.node z).data_ptr ≡ z
  new_self z h = elim (Bool-cases (z == fresh)) [
    | inl e ↦
        let f : z ≡ fresh = (==_iff z fresh).0 e in
        rw f (ap (λ (c : ClistNode). c.data_ptr) new_node)
    | inr e ↦
        let q : z ≢ fresh = λ f. ground arith in
        let old : has z (x ∷ (us ++ ys)) ≡ true = ground (arith, has-insert z fresh us ys) in
        elim (Bool-cases (z == at)) [
          | inl g ↦ let f : z ≡ at = (==_iff z at).0 g in rw f (at_data ∙ r.self at at_in)
          | inr g ↦
              let p : z ≢ at = λ f. ground arith in
              ap (λ (c : ClistNode). c.data_ptr) (old_node z p q) ∙ r.self z old
        ]
  ]

  -- On a ring whose elements are `x`, `us` and `ys`, with room in its count, `clist_insert_after` behind the
  -- last of `x` and `us`, with a new element that is neither NULL nor in the ring, makes the ring of `x`, `us`,
  -- the new element and `ys`.
  pub clist_insert_after-IsRing :
      IsRing (clist_insert_after fresh (last_or x us) ct) (x ∷ (us ++ (fresh ∷ ys)))
  clist_insert_after-IsRing = record {
    links = new_links;
    head_eq = rw opened r.head_eq;
    tail_eq = new_tail;
    distinct = (
      ground (arith, has-insert x fresh us ys, ==_iff x fresh, ==_iff fresh x, r.distinct.0),
      Distinct-insert fresh us ys r.distinct.1 (ground arith),
    );
    non_null = ground (arith, has-insert 0 fresh us ys, r.non_null);
    size = rw (opened, length-insert us ys fresh) (omega (arith, r.size));
    self = new_self;
  }
