-- ===== src/Random/Reload.antt =====
-- mt_rand.c: the whole of `reloadMT`.
use roadsend_php.Base.{
  ℕ, ◌<◌, ◌≡◌, refl, sym, ap, ap₂, ◌∙◌, List, [], ◌∷◌, ◌++◌, append-nil, Option, some, arith, ◌>>=◌,
  length, get_elem?, get_or, inl, inr, length-append, get_elem?-append_left, get_elem?-get_or,
}
use roadsend_php.Base.Int.{pos}
use roadsend_php.Random.{
  Generator, Scan, twist, temper, write, reload_loop, reload_last, reload_words,
}
use roadsend_php.Random.Twist.{
  next_word, advance, advance-add, scan_at, write-append, reload_loop-Progress,
}

reload_last_lem :
    (front : List ℕ) (x0 extra : ℕ)
    → length front ≡ 623
    → reload_last (scan_at front (x0 ∷ []) extra)
      ≡ some (
        record { state = advance 1 (x0 ∷ front) ++ extra ∷ []; next = 1; left = pos 623 },
        temper (get_or front 0 0),
      )
unfolding reload_last advance next_word
reload_last_lem front x0 extra h =
    let state = front ++ (x0 ∷ extra ∷ []) in
    let first = get_or front 0 0 in
    let m = get_or front 396 0 in
    let y = twist m x0 first in
    let read_s1 : get_elem? state 0 ≡ some first =
      get_elem?-append_left front (x0 ∷ extra ∷ []) 0 (omega arith)
      ∙ get_elem?-get_or front 0 0 (omega arith) in
    let read_m : get_elem? state 396 ≡ some m =
      get_elem?-append_left front (x0 ∷ extra ∷ []) 396 (omega arith)
      ∙ get_elem?-get_or front 396 0 (omega arith) in
    ap
      (λ o. o >>= λ s1. get_elem? state 396 >>= λ a.
        write state (length front) (twist a x0 s1) >>= λ s.
        some (record { state = s; next = 1; left = pos 623 }, temper s1))
      read_s1
    ∙ ap
        (λ o. o >>= λ a. write state (length front) (twist a x0 first) >>= λ s.
          some (record { state = s; next = 1; left = pos 623 }, temper first))
        read_m
    ∙ ap (λ o. o >>= λ s. some (record { state = s; next = 1; left = pos 623 }, temper first))
        (write-append front (extra ∷ []) x0 y)

pub singleton : (l : List ℕ) → length l ≡ 1 → (x : ℕ) × (l ≡ x ∷ [])
singleton [] h = absurd (omega arith)
singleton (x ∷ []) h = (x, refl)
singleton (x ∷ y ∷ l) h = absurd (omega arith)

advance-head :
    (x : ℕ) (front : List ℕ)
    → 0 < length front
    → get_or front 0 0 ≡ get_or (advance 1 (x ∷ front)) 0 0
unfolding advance
advance-head x [] h = absurd (omega arith)
advance-head x (y ∷ front) h = refl

-- The two loops of 227 and 396 rounds, and the line behind them.
abbrev both_loops : Scan → Option (Generator × ℕ)
both_loops c = reload_loop 227 397 c >>= λ f. reload_loop 396 0 f >>= λ b. reload_last b

both_loops_lem :
    (words : List ℕ) (extra : ℕ)
    → length words ≡ 624
    → both_loops (scan_at [] words extra)
      ≡ some (
        record { state = advance 624 words ++ extra ∷ []; next = 1; left = pos 623 },
        temper (get_or (advance 624 words) 0 0),
      )
both_loops_lem words extra h =
    let front =
      reload_loop-Progress 227 [] words extra 397 (omega arith) (omega arith)
        (inl (refl, omega arith)) in
    let back =
      reload_loop-Progress 396 front.front' front.back' extra 0 front.full
        (omega (arith, front.written, front.full)) (inr (omega (arith, front.written))) in
    let (x, one) = singleton back.back' (omega (arith, back.full, back.written, front.written)) in
    let window : x ∷ back.front' ≡ advance 623 words =
      ap (λ l. l ++ back.front') (sym one)
      ∙ back.window
      ∙ ap (advance 396) (front.window ∙ ap (advance 227) (append-nil words))
      ∙ advance-add 227 396 words in
    let last : advance 1 (x ∷ back.front') ≡ advance 624 words =
      ap (advance 1) window ∙ advance-add 623 1 words in
    let written : length back.front' ≡ 623 = omega (arith, back.written, front.written) in
    let first : get_or back.front' 0 0 ≡ get_or (advance 624 words) 0 0 =
      advance-head x back.front' (omega arith) ∙ ap (λ l. get_or l 0 0) last in
    ap (λ o. o >>= λ f. reload_loop 396 0 f >>= λ b. reload_last b) front.result
    ∙ ap (λ o. o >>= λ b. reload_last b) back.result
    ∙ ap (λ l. reload_last (scan_at back.front' l extra)) one
    ∙ reload_last_lem back.front' x extra written
    ∙ ap₂ (λ l y. some (record { state = l ++ extra ∷ []; next = 1; left = pos 623 }, temper y))
        last first

-- `reloadMT` stays inside the array, and replaces the 624 words by the next 624 of the recurrence
-- of MT19937; it returns the first of them, tempered.
pub reload_words-advance :
    (words : List ℕ) (extra : ℕ)
    → length words ≡ 624
    → reload_words (words ++ extra ∷ [])
      ≡ some (
        record { state = advance 624 words ++ extra ∷ []; next = 1; left = pos 623 },
        temper (get_or (advance 624 words) 0 0),
      )
unfolding reload_words
reload_words-advance words extra h =
    let state = words ++ extra ∷ [] in
    let read_s0 : get_elem? state 0 ≡ some (get_or words 0 0) =
      get_elem?-append_left words (extra ∷ []) 0 (omega arith)
      ∙ get_elem?-get_or words 0 0 (omega arith) in
    let read_s1 : get_elem? state 1 ≡ some (get_or state 1 0) =
      get_elem?-get_or state 1 0 (omega (arith, length-append words (extra ∷ []))) in
    ap
      (λ o. o >>= λ s0. get_elem? state 1 >>= λ s1.
        both_loops (record { state = state; p0 = 0; p2 = 2; s0 = s0; s1 = s1 }))
      read_s0
    ∙ ap
        (λ o. o >>= λ s1.
          both_loops (record { state = state; p0 = 0; p2 = 2; s0 = get_or words 0 0; s1 = s1 }))
        read_s1
    ∙ both_loops_lem words extra h
