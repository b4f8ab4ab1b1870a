-- ===== src/Klib/Text/Numerals.antt =====
-- strinv reverses, and itoa writes the numeral of its value.
use native.Mathlib.Nat.{mod-lt, div-add-mod', div-lt_iff_lt-mul, pow-suc}
use rubi_kernel.Prelude.{
  ℕ, zero, suc, ◌+◌, ◌-◌, ◌*◌, ◌/◌, ◌%◌, ◌^◌, ◌≤◌, ◌<◌, ◌≡◌, ◌≢◌, ◌⊎◌, inl, inr, refl, sym, ap, ◌∙◌,
  false, ◌&&◌, arith, ltb, leb, ◌==◌, if◌then◌else◌, ==_iff, Bool-cases, update, u8, Run, ok,
}
use rubi_kernel.Klib.Text.{Mem, strinv_from, strinv, digit_char, itoa_from, itoa}

-- the byte of the string at `str`, turned round between the indices `j` and `size`
abbrev pub turned : (str j size : ℕ) → Mem → ℕ → ℕ
turned str j size m y =
    if leb (str + j) y && leb y (str + size) then m (str + (j + size + str - y)) else m y

strinv_from_lem :
    (fuel str j size : ℕ) (m : Mem) (y : ℕ)
    → size ≤ j + fuel
    → strinv_from fuel str j size m y ≡ turned str j size m y
unfolding strinv_from
strinv_from_lem zero str j size m y f = elim (Bool-cases (leb (str + j) y && leb y (str + size))) [
  | inl h ↦ let at : m (str + (j + size + str - y)) ≡ m y = ap m (ground arith) in ground arith
  | inr h ↦ ground arith
]
strinv_from_lem (suc fuel) str j size m y f = elim (Bool-cases (ltb j size)) [
  | inr e ↦ rw e (elim (Bool-cases (leb (str + j) y && leb y (str + size))) [
    | inl h ↦ let at : m (str + (j + size + str - y)) ≡ m y = ap m (ground arith) in ground arith
    | inr h ↦ ground arith
  ])
  | inl e ↦
      let m1 : Mem = update m (str + j) (m (str + size)) in
      let m2 : Mem = update m1 (str + size) (m (str + j)) in
      let ih = strinv_from_lem fuel str (j + 1) (size - 1) m2 y (ground arith) in
      rw e (ih ∙ swapped str j size m y (ground arith))
]
  where
    swapped :
        (str j size : ℕ) (m : Mem) (y : ℕ)
        → j < size
        → turned str
            (j + 1)
            (size - 1)
            (update (update m (str + j) (m (str + size))) (str + size) (m (str + j)))
            y
          ≡ turned str j size m y
    swapped str j size m y h = elim (Bool-cases (y == str + j)) [
      | inl e ↦
          let at : m (str + (j + size + str - y)) ≡ m (str + size) = ap m (ground arith) in
          ground arith
      | inr e ↦ elim (Bool-cases (y == str + size)) [
        | inl e' ↦
            let at : m (str + (j + size + str - y)) ≡ m (str + j) = ap m (ground arith) in
            ground arith
        | inr e' ↦
            let at : m (str + (j + 1 + (size - 1) + str - y)) ≡ m (str + (j + size + str - y)) =
              ap m (omega arith) in
            ground arith
      ]
    ]

-- `strinv` turns the first `size + 1` bytes round and changes nothing else.
pub strinv_lem : (str size : ℕ) (m : Mem) (y : ℕ) → strinv str size m y ≡ turned str 0 size m y
unfolding strinv
strinv_lem str size m y = strinv_from_lem size str 0 size m y (omega arith)

-- the value of a digit's character, as itoa writes it
unfoldable pub digit_of : ℕ → ℕ
digit_of c = if ltb c 58 then c - 48 else c - 55

digit_of-digit_char : (k : ℕ) → k ≤ 200 → digit_of (u8 (digit_char k)) ≡ k
unfolding digit_of
digit_of-digit_char k h = ground arith

-- The number that `n` characters from `a` on stand for, the most significant digit first.
unfoldable pub parse : Mem → (a n base acc : ℕ) → ℕ
parse m a zero base acc = acc
parse m a (suc n) base acc = parse m (a + 1) n base (acc * base + digit_of (m a))

-- the same of the characters at the indices `i` to `i + n`, the least significant digit first
parse_down : Mem → (str i n base acc : ℕ) → ℕ
parse_down m str i zero base acc = acc
parse_down m str i (suc n) base acc =
    parse_down m str i n base (acc * base + digit_of (m (str + (i + n))))

parse_down-suc :
    (m : Mem) (str i n base acc : ℕ)
    → parse_down m str i (suc n) base acc
      ≡ parse_down m str (i + 1) n base acc * base + digit_of (m (str + i))
unfolding parse_down
parse_down-suc m str i zero base acc = ap (λ a. acc * base + digit_of (m (str + a))) (omega arith)
parse_down-suc m str i (suc n) base acc =
    let e : i + suc n ≡ i + 1 + n = omega arith in
    rw e (parse_down-suc m str i n base (acc * base + digit_of (m (str + (i + 1 + n)))))

parse_down_same :
    (m m' : Mem) (str i n base acc : ℕ)
    → ((k : ℕ) → k < n → m' (str + (i + k)) ≡ m (str + (i + k)))
    → parse_down m' str i n base acc ≡ parse_down m str i n base acc
unfolding parse_down
parse_down_same m m' str i zero base acc h = refl
parse_down_same m m' str i (suc n) base acc h =
    rw (h n (omega arith)) (parse_down_same m m' str i n base _ (λ k p. h k (omega arith)))

parse-turned :
    (m m' : Mem) (str n a base acc : ℕ)
    → ((k : ℕ) → k < n → m' (a + k) ≡ m (str + (0 + (n - 1 - k))))
    → parse m' a n base acc ≡ parse_down m str 0 n base acc
unfolding parse parse_down
parse-turned m m' str zero a base acc h = refl
parse-turned m m' str (suc n) a base acc h =
    let first : m' a ≡ m (str + (0 + n)) =
      ap m' (omega arith) ∙ h 0 (omega arith) ∙ ap m (omega arith) in
    rw first (
      parse-turned m m' str n (a + 1) base _
        (λ k p. ap m' (omega arith) ∙ h (suc k) (omega arith) ∙ ap m (omega arith)))

-- what the digit loop leaves from index `i` on
record Digits (value base i str k : ℕ) (m : Mem) (out : Run (ℕ × Mem)) : Type 0 where
  count : ℕ
  state : Mem
  result : out ≡ ok (i + count, state)
  small : count ≤ k
  some_digit : value ≢ 0 → 0 < count
  reads : parse_down state str i count base 0 ≡ value
  low : (x : ℕ) → x < str + i → state x ≡ m x
  high : (x : ℕ) → str + (i + count) ≤ x → state x ≡ m x

quotient_small : (value base k : ℕ) → 2 ≤ base → value < 2 ^ suc k → value / base < 2 ^ k
quotient_small value base k b h =
    let bound : value < 2 ^ k * base = grind (arith, pow-suc 2 k) in
    (div-lt_iff_lt-mul (omega arith)).1 bound

longer :
    (value base i str k : ℕ) (m : Mem) {out : Run (ℕ × Mem)}
    → 2 ≤ base
    → base ≤ 201
    → Digits
        (value / base)
        base
        (i + 1)
        str
        k
        (update m (str + i) (u8 (digit_char (value % base))))
        out
    → Digits value base i str (suc k) m out
longer value base i str k m b c d =
    let low_digit : value % base < base = mod-lt value (omega arith) in
    let written : digit_of (d.state (str + i)) ≡ value % base =
      ap digit_of (d.low (str + i) (omega arith) ∙ ground arith)
      ∙ digit_of-digit_char (value % base) (omega arith) in
    record {
      count = suc d.count;
      state = d.state;
      result = d.result ∙ ap (λ c. ok (c, d.state)) (omega arith);
      small = omega (arith, d.small);
      some_digit = λ n. omega arith;
      reads =
          parse_down-suc d.state str i d.count base 0
          ∙ rw (d.reads, written) (omega (arith, div-add-mod' value base));
      low = λ x h. d.low x (omega arith) ∙ ground arith;
      high = λ x h. d.high x (omega arith) ∙ ground arith;
    }

itoa_from_lem :
    (k fuel value base i str : ℕ) (m : Mem)
    → 2 ≤ base
    → base ≤ 201
    → value < 2 ^ k
    → k < fuel
    → Digits value base i str k m (itoa_from fuel value base i str m)
unfolding itoa_from parse_down
itoa_from_lem k zero value base i str m b c v f = absurd (omega arith)
itoa_from_lem zero (suc fuel) value base i str m b c v f =
    let none_left : value ≡ 0 = omega arith in
    rw none_left (record {
      count = 0;
      state = m;
      result = ap (λ c. ok (c, m)) (omega arith);
      small = omega arith;
      some_digit = λ n. absurd (n refl);
      reads = refl;
      low = λ x h. refl;
      high = λ x h. refl;
    })
itoa_from_lem (suc k) (suc fuel) value base i str m b c v f = elim (Bool-cases (value == 0)) [
  | inl z ↦ rw z (record {
    count = 0;
    state = m;
    result = ap (λ c. ok (c, m)) (omega arith);
    small = omega arith;
    some_digit = λ n. absurd (n ((==_iff value 0).0 z));
    reads = sym ((==_iff value 0).0 z);
    low = λ x h. refl;
    high = λ x h. refl;
  })
  | inr z ↦ rw z (
      longer value base i str k m b c (
        itoa_from_lem k fuel (value / base) base (i + 1) str
          (update m (str + i) (u8 (digit_char (value % base)))) b c
          (quotient_small value base k b v) (omega arith)))
]

-- what itoa leaves: a numeral of `n` characters and a NUL, and all else as it was
pub record Printed (value str base k : ℕ) (m : Mem) (out : Run Mem) : Type 0 where
  pub digits : ℕ
  pub state : Mem
  pub result : out ≡ ok state
  pub some_digit : 0 < digits
  pub small : digits ≤ suc k
  pub ends : state (str + digits) ≡ 0
  pub reads : parse state str digits base 0 ≡ value
  pub kept : (x : ℕ) → (x < str) ⊎ (str + digits < x) → state x ≡ m x

itoa_zero :
    (k fuel str base : ℕ) (m : Mem) → 0 < fuel → Printed 0 str base k m (itoa fuel 0 str base m)
unfolding itoa itoa_from parse digit_of
itoa_zero k zero str base m h = elim h [ ]
itoa_zero k (suc fuel) str base m h = record {
  digits = 1;
  state = strinv str 0 (update (update m str 48) (str + 1) 0);
  result = refl;
  some_digit = omega arith;
  small = omega arith;
  ends = strinv_lem str 0 _ (str + 1) ∙ ground arith;
  reads = rw (strinv_lem str 0 (update (update m str 48) (str + 1) 0) str) (ground arith);
  kept = λ x o. strinv_lem str 0 _ x ∙ ground arith;
}

turned_at :
    (str c : ℕ) (m2 : Mem) (j : ℕ)
    → j < c
    → turned str 0 (0 + c - 1) m2 (str + j) ≡ m2 (str + (0 + (c - 1 - j)))
turned_at str c m2 j h =
    let at : m2 (str + (0 + (0 + c - 1) + str - (str + j))) ≡ m2 (str + (0 + (c - 1 - j))) =
      ap m2 (omega arith) in
    ground arith

turned_outside :
    (str c : ℕ) (m2 : Mem) (x : ℕ)
    → 0 < c
    → (x < str) ⊎ (str + c ≤ x)
    → turned str 0 (0 + c - 1) m2 x ≡ m2 x
turned_outside str c m2 x p (inl h) = ground arith
turned_outside str c m2 x p (inr h) = ground arith

itoa_pos :
    (k fuel value str base : ℕ) (m : Mem)
    → 2 ≤ base
    → base ≤ 201
    → value < 2 ^ k
    → k < fuel
    → value ≢ 0
    → Printed value str base k m (itoa fuel value str base m)
unfolding itoa
itoa_pos k fuel value str base m b c v f n =
    let z : (value == 0) ≡ false = ground arith in
    let d = itoa_from_lem k fuel value base 0 str m b c v f in
    rw (z, d.result) (turn_round d.count d.state (d.some_digit n) d.small d.reads d.low d.high)
  where
    turn_round :
        (c : ℕ) (m1 : Mem)
        → 0 < c
        → c ≤ k
        → parse_down m1 str 0 c base 0 ≡ value
        → ((x : ℕ) → x < str + 0 → m1 x ≡ m x)
        → ((x : ℕ) → str + (0 + c) ≤ x → m1 x ≡ m x)
        → Printed value str base k m (ok (strinv str (0 + c - 1) (update m1 (str + (0 + c)) 0)))
    turn_round c m1 pos small reads low high =
        let m2 : Mem = update m1 (str + (0 + c)) 0 in
        let turn = strinv_lem str (0 + c - 1) m2 in
        record {
          digits = c;
          state = strinv str (0 + c - 1) m2;
          result = refl;
          some_digit = pos;
          small = omega arith;
          ends =
              turn (str + c)
              ∙ turned_outside str c m2 (str + c) pos (inr (omega arith))
              ∙ ground arith;
          reads =
              parse-turned m2 (strinv str (0 + c - 1) m2) str c str base 0
                (λ j h. turn (str + j) ∙ turned_at str c m2 j h)
              ∙ parse_down_same m1 m2 str 0 c base 0 (λ j h. ground arith)
              ∙ reads;
          kept = λ x o.
              turn x
              ∙ turned_outside str c m2 x pos (elim o [ inl p ↦ inl p | inr p ↦ inr (omega arith) ])
              ∙ elim o [ inl p ↦ ground (arith, low x) | inr p ↦ ground (arith, high x) ];
        }

-- `itoa` of a value below `2 ^ k` in a base from 2 to 201, whose digits are bytes, given more than `k` fuel, ends; it
-- leaves at least 1 and at most `k + 1` digits and a NUL, the digits read back are the value, and no
-- other byte changes.
pub itoa_lem :
    (k fuel value str base : ℕ) (m : Mem)
    → 2 ≤ base
    → base ≤ 201
    → value < 2 ^ k
    → k < fuel
    → Printed value str base k m (itoa fuel value str base m)
itoa_lem k fuel zero str base m b c v f = itoa_zero k fuel str base m (omega arith)
itoa_lem k fuel (suc value) str base m b c v f =
    itoa_pos k fuel (suc value) str base m b c v f (λ e. omega arith)
