-- ===== src/Sqlite/Offset.antt =====
-- encode.c: the search for the offset with the fewest escapes.
use roadsend_php.Base.{
  ℕ, zero, suc, ◌+◌, ◌≤◌, ◌<◌, ◌≡◌, ◌≢◌, refl, none, some, arith, ◌==◌, ltb, Bool-cases, ◌⊎◌, inl,
  inr,
}
use roadsend_php.Sqlite.{escape_sum, Choice, choose_offset, quote}

module _ (cnt : ℕ → ℕ) where
  choose_offset-le : (left i : ℕ) (s : Choice) → (choose_offset cnt left i s).m ≤ s.m
  unfolding choose_offset
  choose_offset-le zero i s = omega arith
  choose_offset-le (suc left) i s = ground (
    arith,
    choose_offset-le left (i + 1) s,
    choose_offset-le left (i + 1) (record { m = escape_sum cnt i; e = some i }),
  )

  -- No offset in the range of the loop needs fewer escapes than the result.
  pub choose_offset-minimal :
      (left i : ℕ) (s : Choice) (j : ℕ)
      → i ≤ j
      → j < i + left
      → j ≢ quote
      → (choose_offset cnt left i s).m ≤ escape_sum cnt j
  unfolding choose_offset
  choose_offset-minimal zero i s j lo hi ne = absurd (omega arith)
  choose_offset-minimal (suc left) i s j lo hi ne = ground (
    arith,
    choose_offset-minimal left (i + 1) s j,
    choose_offset-minimal left (i + 1) (record { m = escape_sum cnt i; e = some i }) j,
    choose_offset-le left (i + 1) s,
    choose_offset-le left (i + 1) (record { m = escape_sum cnt i; e = some i }),
  )

  -- Either nothing was chosen, or the offset is a legal one and `m` is its number of escapes.
  abbrev pub IsChosen : ℕ → Choice → Type 0
  IsChosen n s =
      ((s.e ≡ none) × (s.m ≡ n))
      ⊎ ((e : ℕ) × (s.e ≡ some e) × (s.m ≡ escape_sum cnt e) × (0 < e) × (e < 256) × (e ≢ quote))

  pub choose_offset-IsChosen :
      (n left i : ℕ) (s : Choice)
      → 0 < i
      → i + left ≡ 256
      → IsChosen n s
      → IsChosen n (choose_offset cnt left i s)
  unfolding choose_offset
  choose_offset-IsChosen n zero i s lo hi h = h
  choose_offset-IsChosen n (suc left) i s lo hi h =
      let other = choose_offset-IsChosen n left (i + 1) s (omega arith) (omega arith) h in
      let taken = λ (ne : i ≢ quote).
        let c : IsChosen n (record { m = escape_sum cnt i; e = some i }) =
          inr (i, refl, refl, lo, omega arith, ne) in
        choose_offset-IsChosen n left (i + 1) (record { m = escape_sum cnt i; e = some i })
          (omega arith) (omega arith) c in
      elim (Bool-cases (i == quote)) [
        | inl q ↦ rw q other
        | inr q ↦ elim (Bool-cases (ltb (escape_sum cnt i) s.m)) [
          | inr w ↦ rw (q, w) other
          | inl w ↦ elim (Bool-cases (escape_sum cnt i == 0)) [
            | inl z ↦ rw (q, w, z) (inr (i, refl, refl, lo, omega arith, ground arith))
            | inr z ↦ rw (q, w, z) (taken (ground arith))
          ]
        ]
      ]
