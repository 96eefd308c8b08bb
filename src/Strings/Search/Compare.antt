-- ===== src/Strings/Search/Compare.antt =====
-- runtime/c-runtime.c: what the searches compare behind the second byte.
use roadsend_php.Base.{
  ℕ, zero, suc, ◌+◌, ◌<◌, ◌≤◌, ◌≡◌, ◌≢◌, refl, sym, ap, ◌∙◌, List, Option, none, some, Bool, true,
  false, ◌==◌, if◌then◌else◌, get_elem?, arith, Bool-cases, inl, inr, ==_iff,
}
use mathlib.Core.Path.{subst}
use native.Mathlib.Decide.{dec_lt}
use roadsend_php.Strings.Search.{rest_loop, compare_rest}

-- A memory that starts with a string and its NUL, in which byte `i` is `at i`.
pub record IsTerminated (memory : List ℕ) (n : ℕ) : Type 0 where
  pub at : ℕ → ℕ
  pub reads : (i : ℕ) → i ≤ n → get_elem? memory i ≡ some (at i)
  pub ends : at n ≡ 0

-- `tolower`, or nothing: only NUL becomes NUL.
pub record IsFold (fold : ℕ → ℕ) : Type 0 where
  pub nul : fold 0 ≡ 0
  pub only_nul : (x : ℕ) → fold x ≡ 0 → x ≡ 0

-- Whether the code takes byte `k` of the needle for a byte of the haystack.
unfoldable pub same_byte : (ℕ → ℕ) → ℕ → ℕ → ℕ → Bool
same_byte fold k x a = if k == 2 then x == a else fold x == fold a

pub same_byte_later : (fold : ℕ → ℕ) (k x a : ℕ) → k ≢ 2 → same_byte fold k x a ≡ (fold x == fold a)
unfolding same_byte
same_byte_later fold k x a h = let other : (k == 2) ≡ false = ground arith in rw other refl

same_byte_third : (fold : ℕ → ℕ) (x a : ℕ) → same_byte fold 2 x a ≡ (x == a)
unfolding same_byte
same_byte_third fold x a = refl

-- A search: how bytes are read, the two memories, and the strings in them. The needle has a byte
-- or more, and no NUL.
pub record Query : Type 0 where
  pub fold : ℕ → ℕ
  pub is_fold : IsFold fold
  pub haystack : List ℕ
  pub needle : List ℕ
  pub hslen : ℕ
  pub nlen : ℕ
  pub h : IsTerminated haystack hslen
  pub m : IsTerminated needle nlen
  pub text : (k : ℕ) → k < nlen → m.at k ≢ 0
  pub some_text : 1 ≤ nlen

module _ (w : Query) where
  open w use {fold, is_fold, haystack, needle, hslen, nlen, h, m, text}

  -- The bytes of the needle from `q` on to before `s` stand at `i` in the haystack.
  abbrev pub Agree : ℕ → ℕ → ℕ → Type 0
  Agree i q s = (k : ℕ) → q ≤ k → k < s → same_byte fold k (h.at (i + k)) (m.at k) ≡ true

  abbrev pub Decides : ℕ → ℕ → Option Bool → Type 0
  Decides i q none = ⊥
  Decides i q (some true) = Agree i q nlen
  Decides i q (some false) = ¬ (Agree i q nlen)

  -- A byte that is taken for one of the needle is not the NUL of the haystack.
  inside : (k x : ℕ) → k < nlen → same_byte fold k x (m.at k) ≡ true → x ≢ 0
  unfolding same_byte
  inside k x lt e z = elim (Bool-cases (k == 2)) [
    | inl third ↦
        let same : (x == m.at k) ≡ true = rw third at e in
        text k lt (sym ((==_iff x (m.at k)).0 same) ∙ z)
    | inr other ↦
        let same : (fold x == fold (m.at k)) ≡ true = rw other at e in
        text k lt (
          is_fold.only_nul (m.at k)
            (sym ((==_iff (fold x) (fold (m.at k))).0 same) ∙ ap fold z ∙ is_fold.nul))
  ]

  -- So it stands before the end.
  pub before_end :
      (p k : ℕ) → p ≤ hslen → k < nlen → same_byte fold k (h.at p) (m.at k) ≡ true → p < hslen
  before_end p k le lt e = elim (dec_lt p hslen) [
    | yes h1 ↦ h1
    | no over ↦
        let same : p ≡ hslen = omega arith in
        absurd (inside k (h.at p) lt e (ap h.at same ∙ h.ends))
  ]

  -- A byte more that agrees.
  pub Decides-extend :
      (i q : ℕ) (o : Option Bool)
      → same_byte fold q (h.at (i + q)) (m.at q) ≡ true
      → Decides i (q + 1) o
      → Decides i q o
  Decides-extend i q none e d = d
  Decides-extend i q (some true) e d = λ k lo hi. elim (dec_lt q k) [
    | yes more ↦ d k (omega arith) hi
    | no less ↦
        let same : q ≡ k = omega arith in
        subst (λ j. same_byte fold j (h.at (i + j)) (m.at j) ≡ true) same e
  ]
  Decides-extend i q (some false) e d = λ agree. d (λ k lo hi. agree k (omega arith) hi)

  -- A byte that does not agree.
  pub differs :
      (i q s : ℕ)
      → q ≤ s
      → s < nlen
      → same_byte fold s (h.at (i + s)) (m.at s) ≡ false
      → ¬ (Agree i q nlen)
  differs i q s lo hi e agree = let bad = agree s lo hi in cc

  -- Byte `q` does not agree, which matters if it is one of the needle.
  pub Decides-end :
      (i q n : ℕ)
      → n + q ≡ nlen
      → same_byte fold q (h.at (i + q)) (m.at q) ≡ false
      → Decides i q (some (n == 0))
  Decides-end i q zero size e = λ k lo hi. absurd (omega arith)
  Decides-end i q (suc n) size e =
      let more : (suc n == 0) ≡ false = ground arith in
      rw more (differs i q q (omega arith) (omega arith) e)

  -- Behind byte `q`, which agrees.
  rest_loop-Decides :
      (n i q : ℕ)
      → 2 ≤ q
      → n + q ≡ nlen
      → i + q ≤ hslen
      → (0 < n → same_byte fold q (h.at (i + q)) (m.at q) ≡ true)
      → Decides i (q + 1) (rest_loop fold haystack needle n (i + q) q)
  unfolding rest_loop
  rest_loop-Decides zero i q lo size bound e = λ k a b. absurd (omega arith)
  rest_loop-Decides (suc zero) i q lo size bound e =
      let more = before_end (i + q) q bound (omega arith) (e (omega arith)) in
      rw (m.reads (q + 1) (omega arith), h.reads (i + q + 1) (omega arith))
        (λ k a b. absurd (omega arith))
  rest_loop-Decides (suc (suc n)) i q lo size bound e =
      let more = before_end (i + q) q bound (omega arith) (e (omega arith)) in
      let first = same_byte_later fold (q + 1) (h.at (i + (q + 1))) (m.at (q + 1)) (omega arith) in
      let place : i + q + 1 ≡ i + (q + 1) = omega arith in
      rw (m.reads (q + 1) (omega arith), h.reads (i + q + 1) (omega arith), place)
        (elim (Bool-cases (fold (h.at (i + (q + 1))) == fold (m.at (q + 1)))) [
          | inr e1 ↦ rw e1 (differs i (q + 1) (q + 1) (omega arith) (omega arith) (first ∙ e1))
          | inl e1 ↦ rw e1 (
              Decides-extend i (q + 1) _ (first ∙ e1) (
                let q2 = q + 2 in
                let more2 =
                  before_end (i + (q + 1)) (q + 1) (omega arith) (omega arith) (first ∙ e1) in
                let after = same_byte_later fold q2 (h.at (i + q2)) (m.at q2) (omega arith) in
                let place2 : i + q + 2 ≡ i + q2 = omega arith in
                let step : q + 1 + 1 ≡ q2 = omega arith in
                rw (m.reads q2 (omega arith), h.reads (i + q + 2) (omega arith), place2, step)
                  (elim (Bool-cases (fold (h.at (i + q2)) == fold (m.at q2))) [
                    | inl e2 ↦ rw e2 (
                        Decides-extend i q2 _ (after ∙ e2) (
                          rest_loop-Decides n i q2 (omega arith) (omega arith) (omega arith)
                            (λ _. after ∙ e2)))
                    | inr e2 ↦ rw e2 (Decides-end i q2 n (omega arith) (after ∙ e2))
                  ])))
        ])

  -- The comparison from the third byte on decides if the needle stands there.
  pub compare_rest-Decides :
      (n i : ℕ)
      → n + 2 ≡ nlen
      → i + 2 ≤ hslen
      → Decides i 2 (compare_rest fold haystack needle n (i + 2))
  unfolding compare_rest
  compare_rest-Decides n i size bound =
      let third = same_byte_third fold (h.at (i + 2)) (m.at 2) in
      rw (h.reads (i + 2) bound, m.reads 2 (omega arith))
        (elim (Bool-cases (h.at (i + 2) == m.at 2)) [
          | inl e ↦ rw e (
              Decides-extend i 2 _ (third ∙ e)
                (rest_loop-Decides n i 2 (omega arith) size bound (λ _. third ∙ e)))
          | inr e ↦ rw e (Decides-end i 2 n size (third ∙ e))
        ])
