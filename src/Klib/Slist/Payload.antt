-- ===== src/Klib/Slist/Payload.antt =====
-- The payloads of a static list: operations on the links leave those of the other slots, and a change of
-- payloads leaves the list.
use rubi_kernel.Prelude.{
  ℕ, Option, some, none, ap, ◌≡◌, ◌≢◌, refl, ◌∙◌, sym, false, List, arith, ◌==◌, if◌then◌else◌,
}
use rubi_kernel.Klib.Slist.{
  null, Slist, at_slot, full, unset, find_slot, set_ends_after, link_in, insert_after_at,
  insert_after, unlink, drop_ends, link_out, delete,
}
use rubi_kernel.Klib.Slist.Valid.{IsList}
use rubi_kernel.Klib.Slist.Delete.{ends_kept, unlink_rest}

module _ {P : Type 0} (z : P) where
  link_out_payload :
      (pos u v x : ℕ) (s : Slist P)
      → ((link_out z pos u v s).payload x ≡ (
          if ((drop_ends pos u v (unlink pos u v s)).node pos).data_ptr == x
          then z
          else s.payload x))
  unfolding link_out
  link_out_payload pos u v x s =
      rw (((ends_kept pos u v (unlink pos u v s)).1), (unlink_rest pos u v s).0) refl

  unlink_data_ptr :
      (pos u v : ℕ) (s : Slist P)
      → ((drop_ends pos u v (unlink pos u v s)).node pos).data_ptr ≡ (s.node pos).data_ptr
  unfolding unlink
  unlink_data_ptr pos u v s = rw ((ends_kept pos u v (unlink pos u v s)).0) (ground arith)

  -- `slist_delete` changes no other payload.
  pub delete_payload :
      (pos x : ℕ) (s : Slist P)
      → (s.node pos).data_ptr ≡ pos
      → x ≢ pos
      → (delete z pos s).payload x ≡ s.payload x
  unfolding delete
  delete_payload pos x s d h =
      let u = (s.node pos).prev in
      let v = (s.node pos).next in
      let away : (pos == x) ≡ false = ground arith in
      let out : (link_out z pos u v s).payload x ≡ s.payload x =
        link_out_payload pos u v x s ∙ (rw (unlink_data_ptr pos u v s, d, away) refl) in
      ground arith

-- The list is the same whatever the payloads are.
pub IsList-payload :
    {P : Type 0} (s : Slist P) (f : ℕ → P) (xs : List ℕ)
    → IsList s xs
    → IsList (record s { payload = f }) xs
IsList-payload s f xs is = record {
  chain = is.chain;
  head_eq = is.head_eq;
  tail_eq = is.tail_eq;
  distinct = is.distinct;
  non_null = is.non_null;
  live = is.live;
  dead = is.dead;
  based = is.based;
}

module _ {P : Type 0} (z : P) where
  insert_at_payload :
      (e pos x : ℕ) (s : Slist P)
      → (insert_after_at z e pos s).payload x ≡ (if e == x then z else s.payload x)
  unfolding insert_after_at set_ends_after link_in
  insert_at_payload e pos x s = ground arith

  -- the list in a result, or the old one
  abbrev list_in : Slist P → Option (ℕ × Slist P) → ℕ × Slist P
  list_in s (some r) = r
  list_in s none = (null, s)

  -- `slist_insert_after` sets the new element's payload to zero, and changes no other.
  pub insert_after_payload :
      (pos e x : ℕ) (s t : Slist P)
      → insert_after z pos s ≡ some (e, t)
      → e ≢ null
      → t.payload x ≡ (if e == x then z else s.payload x)
  unfolding insert_after
  insert_after_payload pos e x s t h n =
      elim (find_slot s.slots 0 s)
          as (λ f. find_slot s.slots 0 s ≡ f → t.payload x ≡ (if e == x then z else s.payload x)) [
            | at_slot a ↦ λ k.
                let made : insert_after z pos s ≡ some (a, insert_after_at z a pos s) =
                  rw (k, insert_after) refl in
                let same = ap (list_in s) (sym made ∙ h) in
                ap (λ (r : ℕ × Slist P). r.1.payload x) (sym same)
                ∙ (insert_at_payload a pos x s
                    ∙ ap (λ (r : ℕ × Slist P). if r.0 == x then z else s.payload x) same)
            | full ↦ λ k.
                let made : insert_after z pos s ≡ some (null, s) = rw (k, insert_after) refl in
                absurd (n (sym (ap (λ (r : ℕ × Slist P). r.0) (ap (list_in s) (sym made ∙ h)))))
            | unset ↦ λ k.
                let made : insert_after z pos s ≡ none = rw (k, insert_after) refl in
                absurd (n (sym (ap (λ (r : ℕ × Slist P). r.0) (ap (list_in s) (sym made ∙ h)))))
          ]
        refl
