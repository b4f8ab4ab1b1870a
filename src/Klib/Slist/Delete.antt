-- ===== src/Klib/Slist/Delete.antt =====
-- Deletion refines deletion from the list of elements.
use rubi_kernel.Prelude.{
  ℕ, ◌<◌, ◌≡◌, ◌≢◌, refl, ap, ◌∙◌, true, false, not, ◌&&◌, List, ◌∷◌, ◌++◌, arith, ◌==◌,
  if◌then◌else◌, ==_iff, ==_refl, Bool-cases, update, inl, inr,
}
use rubi_kernel.Klib.Slist.{null, Slist, zero_node, slot_at, unlink, drop_ends, link_out, delete}
use rubi_kernel.Klib.Slist.Chain.{
  Chain, has, Distinct, first_or, last_or, has-append, last_or-append, first_or-append,
  Distinct-append, Distinct_join, Chain-append, Chain_join, Chain_retail, Chain_rehead,
}
use rubi_kernel.Klib.Slist.Ends.{first_in, last_in, has-ne, last_out, first_out, ends_case}
use rubi_kernel.Klib.Slist.Valid.{IsList}

module _ {P : Type 0} (pos u v : ℕ) (s : Slist P) where
  pub ends_kept :
      ((drop_ends pos u v s).node ≡ s.node)
      × ((drop_ends pos u v s).payload ≡ s.payload)
      × ((drop_ends pos u v s).slots ≡ s.slots)
      × ((drop_ends pos u v s).base ≡ s.base)
      × ((drop_ends pos u v s).slot_size ≡ s.slot_size)
  unfolding drop_ends
  ends_kept = (ground arith, ground arith, ground arith, ground arith, ground arith)

  ends_new :
      ((drop_ends pos u v s).head ≡ (if pos == s.head then v else s.head))
      × ((drop_ends pos u v s).tail ≡ (if pos == s.tail then u else s.tail))
  unfolding drop_ends
  ends_new = (ground arith, ground arith)

  unlink_links :
      (x : ℕ)
      → x ≢ pos
      → (((unlink pos u v s).node x).prev
          ≡ (if (x == v) && not (v == null) then u else (s.node x).prev))
        × (((unlink pos u v s).node x).next
            ≡ (if (x == u) && not (u == null) then v else (s.node x).next))
  unfolding unlink
  unlink_links x h = (ground arith, ground arith)

  unlink_old :
      (x : ℕ)
      → x ≢ pos
      → (((unlink pos u v s).node x).is_valid ≡ (s.node x).is_valid)
        × (((unlink pos u v s).node x).data_ptr ≡ (s.node x).data_ptr)
  unfolding unlink
  unlink_old x h = (ground arith, ground arith)

  unlink_data : ((unlink pos u v s).node pos).data_ptr ≡ (s.node pos).data_ptr
  unfolding unlink
  unlink_data = ground arith

  pub unlink_rest :
      ((unlink pos u v s).payload ≡ s.payload)
      × ((unlink pos u v s).slots ≡ s.slots)
      × ((unlink pos u v s).base ≡ s.base)
      × ((unlink pos u v s).slot_size ≡ s.slot_size)
      × ((unlink pos u v s).head ≡ s.head)
      × ((unlink pos u v s).tail ≡ s.tail)
  unfolding unlink
  unlink_rest = (ground arith, ground arith, ground arith, ground arith, ground arith, ground arith)

module _ {P : Type 0} (z : P) (pos u v : ℕ) (s : Slist P) (hd : (s.node pos).data_ptr ≡ pos) where
  abbrev kept : Slist P
  kept = unlink pos u v s

  cleared : (link_out z pos u v s).node ≡ update kept.node pos zero_node
  unfolding link_out
  cleared =
      let at : ((drop_ends pos u v kept).node pos).data_ptr ≡ pos =
        rw ((ends_kept pos u v kept).0) (unlink_data pos u v s ∙ hd) in
      rw (at, (ends_kept pos u v kept).0) refl

  out_node : (x : ℕ) → x ≢ pos → (link_out z pos u v s).node x ≡ kept.node x
  out_node x h = let away : (pos == x) ≡ false = ground arith in rw (cleared, away) refl

  out_prev :
      (x : ℕ)
      → x ≢ pos
      → ((link_out z pos u v s).node x).prev
        ≡ (if (x == v) && not (v == null) then u else (s.node x).prev)
  out_prev x h = rw (out_node x h) (unlink_links pos u v s x h).0

  out_next :
      (x : ℕ)
      → x ≢ pos
      → ((link_out z pos u v s).node x).next
        ≡ (if (x == u) && not (u == null) then v else (s.node x).next)
  out_next x h = rw (out_node x h) (unlink_links pos u v s x h).1

  out_old :
      (x : ℕ)
      → x ≢ pos
      → (((link_out z pos u v s).node x).is_valid ≡ (s.node x).is_valid)
        × (((link_out z pos u v s).node x).data_ptr ≡ (s.node x).data_ptr)
  out_old x h = rw (out_node x h) (unlink_old pos u v s x h)

  out_gone : (link_out z pos u v s).node pos ≡ zero_node
  out_gone = rw (cleared, ==_refl pos) refl

  out_rest :
      ((link_out z pos u v s).slots ≡ s.slots)
      × ((link_out z pos u v s).base ≡ s.base)
      × ((link_out z pos u v s).slot_size ≡ s.slot_size)
      × ((link_out z pos u v s).head ≡ (if pos == s.head then v else s.head))
      × ((link_out z pos u v s).tail ≡ (if pos == s.tail then u else s.tail))
  unfolding link_out
  out_rest =
      let k = ends_kept pos u v kept in
      let e = ends_new pos u v kept in
      let r = unlink_rest pos u v s in
      (
        k.2 ∙ r.1,
        k.3 ∙ r.2,
        k.4 ∙ r.3,
        e.0 ∙ ap (λ h. if pos == h then v else h) r.4,
        e.1 ∙ ap (λ h. if pos == h then u else h) r.5,
      )

module _ {P : Type 0} (z : P) (pos : ℕ) (s : Slist P) (front back : List ℕ)
    (is : IsList s (front ++ (pos ∷ back))) where
  abbrev u : ℕ
  u = last_or null front

  abbrev v : ℕ
  v = first_or null back

  abbrev left : Slist P
  left = link_out z pos u v s

  abbrev parts :
      Distinct front
      × Distinct (pos ∷ back)
      × ((a : ℕ) → has a front ≡ true → has a (pos ∷ back) ≡ false)
  parts = Distinct-append front (pos ∷ back) is.distinct

  no_null : (has null front ≡ false) × (has null back ≡ false) × (pos ≢ null)
  no_null = (
    ground (arith, has-append null front (pos ∷ back), is.non_null),
    ground (arith, has-append null front (pos ∷ back), is.non_null),
    λ e. ground (arith, has-append null front (pos ∷ back), is.non_null, ==_iff null pos),
  )

  not_front : has pos front ≡ false
  not_front = elim (Bool-cases (has pos front)) [
    | inl h ↦ ground (arith, parts.2 pos h, ==_refl pos)
    | inr h ↦ h
  ]

  u_ne : u ≢ pos
  u_ne = last_out front pos no_null.2 not_front

  v_ne : v ≢ pos
  v_ne = first_out back pos no_null.2 parts.1.0

  pos_in : has pos (front ++ (pos ∷ back)) ≡ true
  pos_in = ground (arith, has-append pos front (pos ∷ back), ==_refl pos)

  pos_data : (s.node pos).data_ptr ≡ pos
  pos_data = (is.live pos pos_in).1

  abbrev chains : Chain s.node null front pos × Chain s.node u (pos ∷ back) null
  chains = Chain-append s.node null front (pos ∷ back) null is.chain

  left_front : Chain left.node null front v
  left_front =
      Chain_retail s.node left.node null front pos v parts.0 chains.0
        (λ x h.
          let far = has-ne x pos front h not_front in
          ground
            (arith, out_prev z pos u v s pos_data x far, first_in back, parts.2 x h, ==_iff x v))
        (λ x h last.
          let far = has-ne x pos front h not_front in
          ground (arith, out_next z pos u v s pos_data x far, ==_iff x u))
        (λ h.
          let some_last = has-ne u null front h no_null.0 in
          ground (arith, out_next z pos u v s pos_data u u_ne, ==_refl u, ==_iff u null))

  left_back : Chain left.node u back null
  left_back =
      Chain_rehead s.node left.node pos u back null parts.1.1 chains.1.2
        (λ x h.
          let far = has-ne x pos back h parts.1.0 in
          ground (arith, out_next z pos u v s pos_data x far, last_in front, parts.2 u, ==_iff x u))
        (λ x h first.
          let far = has-ne x pos back h parts.1.0 in
          ground (arith, out_prev z pos u v s pos_data x far, ==_iff x v))
        (λ h.
          let some_first = has-ne v null back h no_null.1 in
          ground (arith, out_prev z pos u v s pos_data v v_ne, ==_refl v, ==_iff v null))

  left_head : left.head ≡ first_or null (front ++ back)
  left_head =
      let old : s.head ≡ first_or pos front =
        is.head_eq ∙ first_or-append null front (pos ∷ back) in
      let new = first_or-append null front back in
      let made = (out_rest z pos u v s pos_data).3 in
      elim (ends_case front pos v null null) [
        | inl e ↦
            let h : s.head ≡ pos = old ∙ ap (first_or pos) e in
            let n : first_or null (front ++ back) ≡ v = new ∙ ap (first_or v) e in
            ground (arith, ==_refl pos)
        | inr k ↦
            let differ = has-ne (first_or pos front) pos front k.1 not_front in
            ground (arith, ==_iff pos s.head)
      ]

  left_tail : left.tail ≡ last_or null (front ++ back)
  left_tail =
      let old : s.tail ≡ last_or pos back = is.tail_eq ∙ last_or-append null front (pos ∷ back) in
      let new = last_or-append null front back in
      let made = (out_rest z pos u v s pos_data).4 in
      elim (ends_case back null null pos u) [
        | inl e ↦
            let h : s.tail ≡ pos = old ∙ ap (last_or pos) e in
            let n : last_or null (front ++ back) ≡ u = new ∙ ap (last_or u) e in
            ground (arith, ==_refl pos)
        | inr k ↦
            let differ = has-ne (last_or pos back) pos back k.3 parts.1.0 in
            ground (arith, ==_iff pos s.tail)
      ]

  left_live :
      (x : ℕ)
      → has x (front ++ back) ≡ true
      → ((left.node x).is_valid ≡ 1) × ((left.node x).data_ptr ≡ x)
  left_live x h =
      let split = has-append x front back in
      let whole = has-append x front (pos ∷ back) in
      let far : x ≢ pos = λ e. ground (arith, rw e at split, rw e at h, not_front, parts.1.0) in
      let old = out_old z pos u v s pos_data x far in
      let was = is.live x (ground arith) in (old.0 ∙ was.0, old.1 ∙ was.1)

  left_dead :
      (i : ℕ)
      → i < s.slots
      → has (slot_at s i) (front ++ back) ≡ false
      → (left.node (slot_at s i)).is_valid ≡ 0
  left_dead i h absent = elim (Bool-cases (slot_at s i == pos)) [
    | inl e ↦ rw ((==_iff (slot_at s i) pos).0 e, out_gone z pos u v s pos_data) refl
    | inr e ↦
        let a = slot_at s i in
        let far : a ≢ pos = λ p. ground (arith, ==_iff a pos) in
        let was =
          is.dead i h (ground (arith, has-append a front back, has-append a front (pos ∷ back))) in
        (out_old z pos u v s pos_data a far).0 ∙ was
  ]

  left-IsList : IsList left (front ++ back)
  left-IsList =
      let rest = out_rest z pos u v s pos_data in
      record {
        chain = Chain_join left.node null front back null left_front left_back;
        head_eq = left_head;
        tail_eq = left_tail;
        distinct = Distinct_join front back parts.0 parts.1.1 (λ a h. ground (arith, parts.2 a h));
        non_null = ground (arith, has-append null front back, no_null.0, no_null.1);
        live = left_live;
        dead = λ i h absent.
            rw (rest.1, rest.2) (left_dead i (rw rest.0 at h) (rw (rest.1, rest.2) at absent));
        based = rw rest.1 is.based;
      }

  -- `slist_delete` of an element of a valid list takes it out, keeps the list valid with the others
  -- in their order, and clears its slot.
  pub delete_lem : IsList (delete z pos s) (front ++ back) × ((delete z pos s).node pos ≡ zero_node)
  unfolding delete
  delete_lem =
      let null_no : (pos == null) ≡ false = ground (arith, ==_iff pos null, no_null.2) in
      rw (null_no, chains.1.0, chains.1.1) (left-IsList, out_gone z pos u v s pos_data)
