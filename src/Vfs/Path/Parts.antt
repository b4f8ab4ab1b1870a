-- ===== src/Vfs/Path/Parts.antt =====
-- The parts of a path, and the paths that are refused.
use rubi_kernel.Prelude.{
  ℕ, zero, suc, ◌+◌, ◌≤◌, ◌<◌, ◌≡◌, ◌≢◌, refl, ◌∙◌, true, false, ◌||◌, List, [], ◌∷◌, length, arith,
  leb, ◌==◌, Bool-cases, inl, inr, update, Run, ok,
}
use rubi_kernel.Klib.Text.{Mem}
use rubi_kernel.Vfs.{node_name_size}
use rubi_kernel.Vfs.Path.{Part, take_part}

-- The part of a path at `a`: its bytes, none of them '/' or NUL, and the byte that ends it.
abbrev pub PartAt : Mem → ℕ → List ℕ → Type 0
PartAt m a [] = ((m a == b'/') || (m a == 0)) ≡ true
PartAt m a (c ∷ cs) = (m a ≡ c) × (c ≢ b'/') × (c ≢ 0) × PartAt m (a + 1) cs

-- the array holds the bytes from index `i` on
abbrev pub Stored : (ℕ → ℕ) → ℕ → List ℕ → Type 0
Stored f i [] = Unit {0}
Stored f i (c ∷ cs) = (f i ≡ c) × Stored f (i + 1) cs

-- what take_part leaves of `p`: not more bytes than the array has, and none behind its end
record Taken (p : Part) (out : Run Part) : Type 0 where
  left : Part
  result : out ≡ ok left
  bound : left.i ≤ node_name_size
  grows : p.i ≤ left.i
  rest : (k : ℕ) → node_name_size ≤ k → left.part k ≡ p.part k
  low : (k : ℕ) → k < p.i → left.part k ≡ p.part k

-- one more byte in the array
abbrev with_byte : Part → Mem → Part
with_byte p m = record {
  cur_path = p.cur_path + 1;
  i = p.i + 1;
  part = update p.part p.i (m p.cur_path);
}

one_byte_earlier :
    (p : Part) (m : Mem) {out : Run Part}
    → p.i < node_name_size
    → Taken (with_byte p m) out
    → Taken p out
one_byte_earlier p m b t = record {
  left = t.left;
  result = t.result;
  bound = t.bound;
  grows = omega (arith, t.grows);
  rest = λ k h. t.rest k h ∙ ground arith;
  low = λ k h. t.low k (omega arith) ∙ ground arith;
}

take_lem :
    (fuel : ℕ) (p : Part) (m : Mem)
    → p.i ≤ node_name_size
    → node_name_size < p.i + fuel
    → Taken p (take_part fuel p m)
unfolding take_part
take_lem zero p m b f = absurd (omega arith)
take_lem (suc fuel) p m b f =
    elim (Bool-cases ((m p.cur_path == b'/') || (m p.cur_path == 0) || leb node_name_size p.i)) [
      | inl e ↦ rw e (record {
        left = p;
        result = refl;
        bound = b;
        grows = omega arith;
        rest = λ k h. refl;
        low = λ k h. refl;
      })
      | inr e ↦
          let room : p.i < node_name_size = ground arith in
          rw e (
            one_byte_earlier p m room (take_lem fuel (with_byte p m) m (omega arith) (omega arith)))
    ]

-- what is left of a part at `cur_path`, with no more bytes than the array of 128 has, and none behind its end
pub record Bounded (part : ℕ → ℕ) (out : Run Part) : Type 0 where
  pub left : Part
  pub result : out ≡ ok left
  pub bound : left.i ≤ 128
  pub kept : (k : ℕ) → 128 ≤ k → left.part k ≡ part k

-- Taking a part of a path, given more than 128 fuel, ends, whatever the path; it stores at most 128 bytes, and
-- none behind the 128 of the array.
pub take_part_bounds :
    (fuel cur_path : ℕ) (part : ℕ → ℕ) (m : Mem)
    → 128 < fuel
    → Bounded part (take_part fuel (record { cur_path = cur_path; i = 0; part = part }) m)
take_part_bounds fuel cur_path part m f =
    let t =
      take_lem fuel (record { cur_path = cur_path; i = 0; part = part }) m (omega arith)
        (omega (arith, f)) in
    record { left = t.left; result = t.result; bound = t.bound; kept = t.rest }

-- what take_part leaves of a part with the bytes `cs`
record Parted (p : Part) (cs : List ℕ) (out : Run Part) : Type 0 where
  left : Part
  result : out ≡ ok left
  place : left.cur_path ≡ p.cur_path + length cs
  count : left.i ≡ p.i + length cs
  stored : Stored left.part p.i cs
  low : (k : ℕ) → k < p.i → left.part k ≡ p.part k

take_bytes :
    (fuel : ℕ) (p : Part) (m : Mem) (cs : List ℕ)
    → PartAt m p.cur_path cs
    → length cs < fuel
    → p.i + length cs < node_name_size
    → Parted p cs (take_part fuel p m)
unfolding take_part
take_bytes zero p m cs h b n = absurd (omega arith)
take_bytes (suc fuel) p m [] h b n =
    let stop : ((m p.cur_path == b'/') || (m p.cur_path == 0) || leb node_name_size p.i) ≡ true =
      ground (arith, h) in
    rw stop (record {
      left = p;
      result = refl;
      place = omega arith;
      count = omega arith;
      stored = tt;
      low = λ k l. refl;
    })
take_bytes (suc fuel) p m (c ∷ cs) h b n =
    let ih = take_bytes fuel (with_byte p m) m cs h.3 (omega arith) (omega arith) in
    let on : ((m p.cur_path == b'/') || (m p.cur_path == 0) || leb node_name_size p.i) ≡ false =
      ground (arith, h.0, h.1, h.2) in
    rw on (record {
      left = ih.left;
      result = ih.result;
      place = ih.place ∙ omega arith;
      count = ih.count ∙ omega arith;
      stored = (ih.low p.i (omega arith) ∙ ground (arith, h.0), ih.stored);
      low = λ k l. ih.low k (omega arith) ∙ ground arith;
    })

-- Of a part shorter than 128 bytes at `a`, taking the part, given more fuel than it has bytes, ends at the byte
-- behind it, counts its bytes, and has stored them from the start of the array on.
pub take_part_lem :
    (fuel a : ℕ) (part : ℕ → ℕ) (m : Mem) (cs : List ℕ)
    → PartAt m a cs
    → length cs < 128
    → length cs < fuel
    → (q : Part) × (take_part fuel (record { cur_path = a; i = 0; part = part }) m ≡ ok q)
      × (q.cur_path ≡ a + length cs)
      × (q.i ≡ length cs)
      × Stored q.part 0 cs
take_part_lem fuel a part m cs h b f =
    let p : Part = record { cur_path = a; i = 0; part = part } in
    let r = take_bytes fuel p m cs h f (omega arith) in
    (r.left, r.result, r.place, r.count ∙ omega arith, r.stored)
