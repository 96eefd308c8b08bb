-- ===== src/Sqlite/Size.antt =====
-- encode.c: how many bytes an offset escapes, and that some offset escapes few.
use roadsend_php.Base.{
  ℕ, zero, suc, ◌+◌, ◌-◌, ◌*◌, ◌%◌, ◌≤◌, ◌<◌, ◌≡◌, ◌≢◌, refl, List, [], ◌∷◌, Bool, true, false,
  arith, ◌==◌, ◌||◌, ap, if◌then◌else◌, ltb, leb, length, length-append, IsBytes, Bool-cases,
  ==_iff, inl, inr,
}
use roadsend_php.Base.Bits.{u8}
use roadsend_php.Sqlite.{encode_byte, encode_bytes, count_bytes, escape_sum, quote}

-- How often `v` is `x`, the step of `count_bytes`.
abbrev hit : ℕ → ℕ → ℕ
hit x v = if x == v then 1 else 0

shifted_eq :
    (e b k : ℕ) → e < 256 → b < 256 → k < 256 → (u8 (b + 256 - e) == k) ≡ (b == (e + k) % 256)
shifted_eq e b k he hb hk = elim (Bool-cases (b == (e + k) % 256)) [
  | inl t ↦ rw t ((==_iff _ k).1 (ground arith))
  | inr t ↦ rw t (ground arith)
]

written_length :
    (b p q r x y : ℕ)
    → p ≢ q
    → p ≢ r
    → q ≢ r
    → length (if b == p || (b == q || b == r) then 1 ∷ y ∷ [] else x ∷ [])
      ≡ 1 + hit b p + hit b q + hit b r
written_length b p q r x y pq pr qr = ground arith

length-encode_byte :
    (e b : ℕ)
    → 0 < e
    → e < 256
    → b < 256
    → length (encode_byte e b) ≡ 1 + hit b e + hit b ((e + 1) % 256) + hit b ((e + quote) % 256)
unfolding encode_byte
length-encode_byte e b he lt hb =
    let first : (u8 (b + 256 - e) == 0) ≡ (b == e) =
      rw (shifted_eq e b 0 lt hb (omega arith)) (ap (λ (k : ℕ). b == k) (omega arith)) in
    rw (first, shifted_eq e b 1 lt hb (omega arith), shifted_eq e b quote lt hb (omega arith))
      (written_length b e ((e + 1) % 256) ((e + quote) % 256) _ _ (omega arith) (omega arith)
        (omega arith))

pub length-encode_bytes :
    (e : ℕ) (bs : List ℕ)
    → 0 < e
    → e < 256
    → IsBytes bs
    → length (encode_bytes e bs) ≡ length bs + escape_sum (count_bytes bs) e
unfolding encode_bytes escape_sum count_bytes
length-encode_bytes e [] he lt h = refl
length-encode_bytes e (b ∷ bs) he lt (hb, hbs) = omega (
  arith,
  length-append {0} (encode_byte e b) (encode_bytes e bs),
  length-encode_byte e b he lt hb,
  length-encode_bytes e bs he lt hbs,
)

-- The sum of `f` over the offsets `i, i + 1, …` but the quote.
total : (ℕ → ℕ) → ℕ → ℕ → ℕ
total f zero i = 0
total f (suc left) i = (if i == quote then 0 else f i) + total f left (i + 1)

total_mono :
    (f g : ℕ → ℕ) (left i : ℕ)
    → ((j : ℕ) → i ≤ j → j < i + left → j ≢ quote → f j ≤ g j)
    → total f left i ≤ total g left i
unfolding total
total_mono f g zero i h = omega arith
total_mono f g (suc left) i h =
    let rest = total_mono f g left (i + 1) (λ j lo hi ne. h j (omega arith) (omega arith) ne) in
    elim (Bool-cases (i == quote)) [
      | inl q ↦ rw q (omega (arith, rest))
      | inr q ↦ rw q (omega (arith, rest, h i (omega arith) (omega arith) (ground arith)))
    ]

total_const : (m left i : ℕ) → m * left ≤ total (λ _. m) left i + (if ltb quote i then 0 else m)
unfolding total
total_const m zero i = omega arith
total_const m (suc left) i = ground (arith, total_const m left (i + 1))

total_add :
    (f g : ℕ → ℕ) (left i : ℕ) → total (λ j. f j + g j) left i ≡ total f left i + total g left i
unfolding total
total_add f g zero i = refl
total_add f g (suc left) i = ground (arith, total_add f g left (i + 1))

hit_place :
    (x d i : ℕ)
    → x < 256
    → d < 256
    → i < 256
    → hit x ((i + d) % 256) ≡ (if i == (x + 256 - d) % 256 then 1 else 0)
hit_place x d i hx hd hi = elim (Bool-cases (i == (x + 256 - d) % 256)) [
  | inl t ↦ rw (t, (==_iff x ((i + d) % 256)).1 (ground arith)) refl
  | inr t ↦ rw t (ground arith)
]

-- One byte is hit by one offset at most, whatever the displacement.
total-hit :
    (x d left i : ℕ)
    → x < 256
    → d < 256
    → i + left ≤ 256
    → total (λ j. hit x ((j + d) % 256)) left i ≤ (if leb i ((x + 256 - d) % 256) then 1 else 0)
unfolding total
total-hit x d zero i hx hd fits = omega arith
total-hit x d (suc left) i hx hd fits =
    let rest = total-hit x d left (i + 1) hx hd (omega arith) in
    rw (hit_place x d i hx hd (omega arith)) (ground (arith, rest))

total_zero : (left i : ℕ) → total (λ _. 0) left i ≡ 0
unfolding total
total_zero zero i = refl
total_zero (suc left) i = ground (arith, total_zero left (i + 1))

ind_le : (b : Bool) → (if b then 1 else 0) ≤ 1
ind_le true = omega arith
ind_le false = omega arith

same_place : (j : ℕ) → j < 256 → j ≡ (j + 0) % 256
same_place j h = omega arith

-- Over all offsets each byte is counted at most once for each of the three escaped values.
total_count :
    (d : ℕ)
    → d < 256
    → (bs : List ℕ) → IsBytes bs
    → total (λ j. count_bytes bs ((j + d) % 256)) 255 1 ≤ length bs
unfolding count_bytes
total_count d hd [] h = omega (arith, total_zero 255 1)
total_count d hd (x ∷ xs) (hx, hxs) =
    let split =
      total_add (λ j. count_bytes xs ((j + d) % 256)) (λ j. hit x ((j + d) % 256)) 255 1 in
    omega (
      arith,
      split,
      total_count d hd xs hxs,
      total-hit x d 255 1 hx hd (omega arith),
      ind_le (leb 1 ((x + 256 - d) % 256)),
    )

module _ (bs : List ℕ) (bytes : IsBytes bs) where
  total-escape_sum : total (escape_sum (count_bytes bs)) 255 1 ≤ 3 * length bs
  unfolding escape_sum
  total-escape_sum =
      let cnt = count_bytes bs in
      let at = λ (d : ℕ) (j : ℕ). cnt ((j + d) % 256) in
      let outer = total_add (λ j. cnt j + at 1 j) (at quote) 255 1 in
      let inner = total_add cnt (at 1) 255 1 in
      let plain : total cnt 255 1 ≤ total (at 0) 255 1 =
        total_mono cnt (at 0) 255 1 (λ j lo hi ne. omega (arith, ap cnt (same_place j hi))) in
      omega (
        arith,
        outer,
        inner,
        plain,
        total_count 0 (omega arith) bs bytes,
        total_count 1 (omega arith) bs bytes,
        total_count quote (omega arith) bs bytes,
      )

  -- An offset that is as good as every other one escapes at most 3 bytes in 254.
  pub best_offset_le :
      (m : ℕ)
      → ((j : ℕ) → 1 ≤ j → j < 256 → j ≢ quote → m ≤ escape_sum (count_bytes bs) j)
      → 254 * m ≤ 3 * length bs
  best_offset_le m h =
      omega (arith, total-escape_sum, total_mono (λ _. m) _ 255 1 h, total_const m 255 1)
