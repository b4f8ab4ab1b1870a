-- ===== src/Klib/Slist/Insert.antt =====
-- Insertion refines insertion into the list of elements.
use rubi_kernel.Prelude.{
  ℕ, ◌<◌, ◌≡◌, ◌≢◌, ◌⊎◌, refl, sym, ap, ◌∙◌, true, false, List, ◌∷◌, ◌++◌, arith, ◌==◌,
  if◌then◌else◌, ==_iff, ==_refl, Bool-cases, inl, inr,
}
use rubi_kernel.Klib.Slist.{
  null, Slist, slot_at, link_in, set_ends_after, set_ends_before, insert_after_at, insert_before_at,
}
use rubi_kernel.Klib.Slist.Chain.{
  Chain, has, Distinct, first_or, last_or, has-append, last_or-append, first_or-append,
  Distinct-append, Distinct_join, Chain-append, Chain_join, Chain_retail, Chain_rehead,
}
use rubi_kernel.Klib.Slist.Valid.{IsList, link_prev, link_next, link_old, link_new, link_rest}
use rubi_kernel.Klib.Slist.Ends.{
  last_out, first_out, first_in, last_in, has-ne, ends_case, last_next, first_prev, ends_after_rest,
  set_ends_after_lem, set_ends_before_lem, ends_before_rest,
}

module _ {P : Type 0} (z : P) (e : ℕ) (s : Slist P) (front back : List ℕ) where
  abbrev before : ℕ
  before = last_or null front

  abbrev behind : ℕ
  behind = first_or null back

  abbrev linked : Slist P
  linked = link_in z e before behind s

  module _ (is : IsList s (front ++ back)) (ne : e ≢ null)
      (out : has e (front ++ back) ≡ false) where
    abbrev apart :
        Distinct front × Distinct back × ((a : ℕ) → has a front ≡ true → has a back ≡ false)
    apart = Distinct-append front back is.distinct

    outside : (has e front ≡ false) × (has e back ≡ false)
    outside = ground (arith, has-append e front back)

    not_null : (has null front ≡ false) × (has null back ≡ false)
    not_null = ground (arith, has-append null front back, is.non_null)

    link_front : Chain linked.node null front e
    link_front =
        Chain_retail s.node linked.node null front behind e apart.0
          (Chain-append s.node null front back null is.chain).0
          (λ x h.
            let far = has-ne x e front h outside.0 in
            ground (
              arith,
              link_prev z e before behind s x far,
              first_in back,
              apart.2 x h,
              ==_iff x behind,
            ))
          (λ x h last.
            let far = has-ne x e front h outside.0 in
            ground (arith, link_next z e before behind s x far, ==_iff x before))
          (λ h.
            let far = has-ne before e front h outside.0 in
            let some_last = has-ne before null front h not_null.0 in
            ground
              (arith, link_next z e before behind s before far, ==_refl before, ==_iff before null))

    link_back : Chain linked.node e back null
    link_back =
        Chain_rehead s.node linked.node before e back null apart.1
          (Chain-append s.node null front back null is.chain).1
          (λ x h.
            let far = has-ne x e back h outside.1 in
            ground (
              arith,
              link_next z e before behind s x far,
              last_in front,
              apart.2 before,
              ==_iff x before,
            ))
          (λ x h first.
            let far = has-ne x e back h outside.1 in
            ground (arith, link_prev z e before behind s x far, ==_iff x behind))
          (λ h.
            let far = has-ne behind e back h outside.1 in
            let some_first = has-ne behind null back h not_null.1 in
            ground
              (arith, link_prev z e before behind s behind far, ==_refl behind, ==_iff behind null))

    link_chain : Chain linked.node null (front ++ (e ∷ back)) null
    link_chain =
        let new =
          link_new z e before behind s (last_out front e ne outside.0)
            (first_out back e ne outside.1) in
        Chain_join linked.node null front (e ∷ back) null link_front
          (rw new refl, rw new refl, link_back)

    link_live :
        (x : ℕ)
        → has x (front ++ (e ∷ back)) ≡ true
        → ((linked.node x).is_valid ≡ 1) × ((linked.node x).data_ptr ≡ x)
    link_live x h = elim (Bool-cases (x == e)) [
      | inl same ↦
          let new =
            link_new z e before behind s (last_out front e ne outside.0)
              (first_out back e ne outside.1) in
          rw ((==_iff x e).0 same, new) (refl, refl)
      | inr differ ↦
          let far : x ≢ e = λ p. ground (arith, ==_iff x e) in
          let old = link_old z e before behind s x far in
          let was =
            is.live x (ground (arith, has-append x front back, has-append x front (e ∷ back))) in
          (old.0 ∙ was.0, old.1 ∙ was.1)
    ]

    link_dead :
        (i : ℕ)
        → i < s.slots
        → has (slot_at s i) (front ++ (e ∷ back)) ≡ false
        → (linked.node (slot_at s i)).is_valid ≡ 0
    link_dead i h absent =
        let a = slot_at s i in
        let split = has-append a front (e ∷ back) in
        let far : a ≢ e = λ p. ground (arith, split, ==_iff a e) in
        let was = is.dead i h (ground (arith, split, has-append a front back)) in
        (link_old z e before behind s a far).0 ∙ was

    -- A state with the linked nodes, and head and tail set for them, holds the new list.
    link_IsList :
        (s' : Slist P)
        → s'.node ≡ linked.node
        → (s'.slots ≡ s.slots) × (s'.base ≡ s.base) × (s'.slot_size ≡ s.slot_size)
        → s'.head ≡ first_or e front
        → s'.tail ≡ last_or e back
        → IsList s' (front ++ (e ∷ back))
    link_IsList s' nodes kept head_same tail_same = record {
      chain = rw nodes link_chain;
      head_eq = head_same ∙ sym (first_or-append null front (e ∷ back));
      tail_eq = tail_same ∙ sym (last_or-append null front (e ∷ back));
      distinct =
          Distinct_join front (e ∷ back) apart.0 (outside.1, apart.1)
            (λ a h. ground (arith, apart.2 a h, has-ne a e front h outside.0, ==_iff a e));
      non_null = ground (arith, has-append null front (e ∷ back), not_null, ==_iff null e);
      live = λ x h. rw nodes (link_live x h);
      dead = λ i h absent.
          rw (nodes, kept.1, kept.2) (link_dead i (rw kept.0 at h) (rw (kept.1, kept.2) at absent));
      based = rw kept.1 is.based;
    }

    head_null : s.head ≡ first_or behind front
    head_null = is.head_eq ∙ first_or-append null front back

    tail_null : s.tail ≡ last_or before back
    tail_null = is.tail_eq ∙ last_or-append null front back

    back_next : (if before == null then s.head else (s.node before).next) ≡ behind
    back_next = elim (ends_case front null null null null) [
      | inl e ↦ rw (ap (last_or null) e) (head_null ∙ ap (first_or behind) e)
      | inr h ↦
          let some_last = has-ne before null front h.3 not_null.0 in
          let next =
            last_next s.node null front behind h.3
              (Chain-append s.node null front back null is.chain).0 in
          ground (arith, next, ==_iff before null)
    ]

    front_prev : (if behind == null then s.tail else (s.node behind).prev) ≡ before
    front_prev = elim (ends_case back null null null null) [
      | inl e ↦ rw (ap (first_or null) e) (tail_null ∙ ap (last_or before) e)
      | inr h ↦
          let some_first = has-ne behind null back h.1 not_null.1 in
          let prev =
            first_prev s.node before back null h.1
              (Chain-append s.node null front back null is.chain).1 in
          ground (arith, prev, ==_iff behind null)
    ]

    -- `front` is empty, or the list has its head in it
    fronts :
        ((before ≡ null) × (first_or e front ≡ e) × (s.head ≡ behind))
        ⊎ ((before ≢ null) × (first_or e front ≡ s.head) × (s.head ≢ null) × (s.head ≢ behind))
    fronts = elim (ends_case front behind e null null) [
      | inl p ↦ inl (ap (last_or null) p, ap (first_or e) p, head_null ∙ ap (first_or behind) p)
      | inr h ↦
          let head_in : has s.head front ≡ true = rw head_null h.1 in
          let other : s.head ≢ behind = elim (first_in back) [
            | inl none_behind ↦ rw none_behind (has-ne s.head null front head_in not_null.0)
            | inr some_behind ↦ λ p.
                let both : has behind front ≡ true = rw p at head_in in
                ground (arith, apart.2 behind both)
          ] in
          inr (
            has-ne before null front h.3 not_null.0,
            sym (head_null ∙ h.0),
            has-ne s.head null front head_in not_null.0,
            other,
          )
    ]

    -- `back` is empty, or the list has its tail in it
    backs :
        ((behind ≡ null) × (last_or e back ≡ e) × (s.tail ≡ before))
        ⊎ ((behind ≢ null) × (last_or e back ≡ s.tail) × (s.tail ≢ null) × (s.tail ≢ before))
    backs = elim (ends_case back null null before e) [
      | inl p ↦ inl (ap (first_or null) p, ap (last_or e) p, tail_null ∙ ap (last_or before) p)
      | inr h ↦
          let tail_in : has s.tail back ≡ true = rw tail_null h.3 in
          let other : s.tail ≢ before = elim (last_in front) [
            | inl none_before ↦ rw none_before (has-ne s.tail null back tail_in not_null.1)
            | inr some_before ↦ λ p.
                let both : has before back ≡ true = rw p at tail_in in
                ground (arith, apart.2 before some_before)
          ] in
          inr (
            has-ne behind null back h.1 not_null.1,
            sym (tail_null ∙ h.2),
            has-ne s.tail null back tail_in not_null.1,
            other,
          )
    ]

    ends_after :
        (s1 : Slist P)
        → s1.head ≡ s.head
        → s1.tail ≡ s.tail
        → ((set_ends_after e before s1).head ≡ first_or e front)
          × ((set_ends_after e before s1).tail ≡ last_or e back)
    ends_after s1 hh ht =
        set_ends_after_lem e before s1 (first_or e front) (last_or e back)
          (elim fronts [ inl p ↦ inl (p.0, p.1) | inr p ↦ inr (p.0, p.1 ∙ sym hh, rw hh p.2) ])
          (elim backs [ inl p ↦ inl (p.1, ht ∙ p.2) | inr p ↦ inr (p.1 ∙ sym ht, rw ht p.3) ])

    ends_before :
        (s1 : Slist P)
        → s1.head ≡ s.head
        → s1.tail ≡ s.tail
        → ((set_ends_before e behind s1).head ≡ first_or e front)
          × ((set_ends_before e behind s1).tail ≡ last_or e back)
    ends_before s1 hh ht =
        set_ends_before_lem e behind s1 (first_or e front) (last_or e back)
          (elim backs [ inl p ↦ inl (p.0, p.1) | inr p ↦ inr (p.0, p.1 ∙ sym ht, rw ht p.2) ])
          (elim fronts [ inl p ↦ inl (p.1, hh ∙ p.2) | inr p ↦ inr (p.1 ∙ sym hh, rw hh p.3) ])

    -- Insertion after the last of `front`, or before all if there is none.
    pub insert_after_at_lem : IsList (insert_after_at z e before s) (front ++ (e ∷ back))
    unfolding insert_after_at
    insert_after_at_lem =
        let rest = link_rest z e before behind s in
        let self : (if before == null then null else before) ≡ before = ground arith in
        let ends = ends_after linked rest.0 rest.1 in
        let kept = ends_after_rest e before linked in
        rw (self, back_next)
          (link_IsList (set_ends_after e before linked) kept.0
            (kept.1 ∙ rest.2, kept.2 ∙ rest.3, kept.3 ∙ rest.4) ends.0 ends.1)

    -- Insertion before the first of `back`, or behind all if there is none.
    pub insert_before_at_lem : IsList (insert_before_at z e behind s) (front ++ (e ∷ back))
    unfolding insert_before_at
    insert_before_at_lem =
        let rest = link_rest z e before behind s in
        let self : (if behind == null then null else behind) ≡ behind = ground arith in
        let ends = ends_before linked rest.0 rest.1 in
        let kept = ends_before_rest e behind linked in
        rw (self, front_prev)
          (link_IsList (set_ends_before e behind linked) kept.0
            (kept.1 ∙ rest.2, kept.2 ∙ rest.3, kept.3 ∙ rest.4) ends.0 ends.1)
