-- ===== src/Random/Twist.antt =====
-- mt_rand.c: `reloadMT` advances the recurrence of the Mersenne Twister in place.
use roadsend_php.Base.{
  ℕ, zero, suc, ◌+◌, ◌<◌, ◌≤◌, ◌≡◌, refl, sym, ap, ap₂, ◌∙◌, List, [], ◌∷◌, ◌++◌, append_assoc,
  Option, none, some, arith, if◌then◌else◌, ◌>>=◌, length, get_elem?, get_or, set, drop, ◌⊎◌, inl,
  inr, length-append, set-append, get_elem?-append, get_elem?-append_left, get_elem?-get_or, lt→ltb,
}
use roadsend_php.Random.{Scan, twist, write, reload_step, reload_loop}

-- The word behind a window of 624 words, by the recurrence, and the window moved by a word.
unfoldable pub next_word : List ℕ → ℕ
next_word ws = twist (get_or ws 397 0) (get_or ws 0 0) (get_or ws 1 0)

unfoldable pub advance : ℕ → List ℕ → List ℕ
advance zero ws = ws
advance (suc n) ws = advance n (drop 1 ws ++ next_word ws ∷ [])

-- The new words `front` are written over, the words `back` are still the old ones.
abbrev pub scan_at : List ℕ → List ℕ → ℕ → Scan
scan_at front back extra = record {
  state = front ++ (back ++ extra ∷ []);
  p0 = length front;
  p2 = length front + 2;
  s0 = get_or back 0 0;
  s1 = get_or (back ++ extra ∷ []) 1 0;
}

-- Where `pM` points, relative to the words written so far.
abbrev IsPlace : ℕ → ℕ → Type 0
IsPlace pm written = ((pm ≡ written + 397) × (written < 227)) ⊎ (pm + 227 ≡ written)

read_place :
    (front back : List ℕ) (extra pm : ℕ)
    → length front + length back ≡ 624
    → IsPlace pm (length front)
    → 2 ≤ length back
    → get_elem? (front ++ (back ++ extra ∷ [])) pm ≡ some (get_or (back ++ front) 397 0)
read_place front back extra pm full (inl (place, few)) enough =
    ap (get_elem? (front ++ (back ++ extra ∷ []))) place
    ∙ get_elem?-append front (back ++ extra ∷ []) 397
    ∙ get_elem?-append_left back (extra ∷ []) 397 (omega arith)
    ∙ sym (get_elem?-append_left back front 397 (omega arith))
    ∙ get_elem?-get_or (back ++ front) 397 0 (omega (arith, length-append back front))
read_place front back extra pm full (inr place) enough =
    let there : 397 ≡ length back + pm = omega arith in
    get_elem?-append_left front (back ++ extra ∷ []) pm (omega arith)
    ∙ sym (get_elem?-append back front pm)
    ∙ ap (get_elem? (back ++ front)) (sym there)
    ∙ get_elem?-get_or (back ++ front) 397 0 (omega (arith, length-append back front))

pub write-append :
    (front back : List ℕ) (x y : ℕ)
    → write (front ++ x ∷ back) (length front) y ≡ some ((front ++ y ∷ []) ++ back)
unfolding write
write-append front back x y =
    let room : length front < length (front ++ x ∷ back) =
      omega (arith, length-append front (x ∷ back)) in
    ap (λ t. if t then some (set (front ++ x ∷ back) (length front) y) else none)
      (lt→ltb (length front) (length (front ++ x ∷ back)) room)
    ∙ ap some (set-append front back x y)

-- The last two reads of a round at `scan_at front back extra`.
abbrev move : List ℕ → List ℕ → ℕ → List ℕ → Option Scan
move front back extra state = get_elem? state (length front + 2) >>= λ s1. some (record {
  state = state;
  p0 = length front + 1;
  p2 = length front + 2 + 1;
  s0 = get_or (back ++ extra ∷ []) 1 0;
  s1 = s1;
})

abbrev write_and_move : List ℕ → List ℕ → ℕ → ℕ → Option Scan
write_and_move front back extra m =
    write (front ++ (back ++ extra ∷ [])) (length front)
      (twist m (get_or back 0 0) (get_or (back ++ extra ∷ []) 1 0))
    >>= λ state. move front back extra state

reload_step_lem :
    (front back : List ℕ) (x0 x1 extra pm : ℕ)
    → length front + length (x0 ∷ x1 ∷ back) ≡ 624
    → IsPlace pm (length front)
    → reload_step pm (scan_at front (x0 ∷ x1 ∷ back) extra)
      ≡ some (scan_at (front ++ next_word (x0 ∷ x1 ∷ back ++ front) ∷ []) (x1 ∷ back) extra)
unfolding reload_step next_word
reload_step_lem front back x0 x1 extra pm full place =
    let m = get_or (x0 ∷ x1 ∷ back ++ front) 397 0 in
    let y = twist m x0 x1 in
    let rest = x1 ∷ back ++ extra ∷ [] in
    let new = (front ++ y ∷ []) ++ rest in
    let len = length-append front (y ∷ []) in
    let place2 : length front + 2 ≡ length (front ++ y ∷ []) + 1 = omega (arith, len) in
    let there = get_elem?-get_or rest 1 0 (omega (arith, length-append back (extra ∷ []))) in
    let read_s1 : get_elem? new (length front + 2) ≡ some (get_or rest 1 0) =
      ap (get_elem? new) place2 ∙ get_elem?-append (front ++ y ∷ []) rest 1 ∙ there in
    let p0 : length front + 1 ≡ length (front ++ y ∷ []) = omega (arith, len) in
    let p2 : length front + 2 + 1 ≡ length (front ++ y ∷ []) + 2 = omega (arith, len) in
    ap (λ o. o >>= λ m. write_and_move front (x0 ∷ x1 ∷ back) extra m)
      (read_place front (x0 ∷ x1 ∷ back) extra pm full place (omega arith))
    ∙ ap (λ o. o >>= λ state. move front (x0 ∷ x1 ∷ back) extra state)
        (write-append front rest x0 y)
    ∙ ap
        (λ o. o >>= λ s1. some (record {
          state = new;
          p0 = length front + 1;
          p2 = length front + 2 + 1;
          s0 = x1;
          s1 = s1;
        }))
        read_s1
    ∙ ap₂ (λ i j. some (record { state = new; p0 = i; p2 = j; s0 = x1; s1 = get_or rest 1 0 })) p0
        p2

-- After `r` rounds from `scan_at front back extra`.
pub record Progress (r : ℕ) (front back : List ℕ) (extra : ℕ) (after : Option Scan) : Type 0 where
  pub front' : List ℕ
  pub back' : List ℕ
  pub result : after ≡ some (scan_at front' back' extra)
  pub window : back' ++ front' ≡ advance r (back ++ front)
  pub written : length front' ≡ length front + r
  pub full : length front' + length back' ≡ 624

-- The place of `pM` for `r` rounds.
abbrev pub IsTrack : ℕ → ℕ → ℕ → Type 0
IsTrack r pm written = ((pm ≡ written + 397) × (written + r ≤ 227)) ⊎ (pm + 227 ≡ written)

pub reload_loop-Progress :
    (r : ℕ) (front back : List ℕ) (extra pm : ℕ)
    → length front + length back ≡ 624
    → r < length back
    → IsTrack r pm (length front)
    → Progress r front back extra (reload_loop r pm (scan_at front back extra))
unfolding reload_loop advance
reload_loop-Progress zero front back extra pm full few track = record {
  front' = front;
  back' = back;
  result = refl;
  window = refl;
  written = omega arith;
  full = full;
}
reload_loop-Progress (suc r) front [] extra pm full few track = absurd (omega arith)
reload_loop-Progress (suc r) front (x0 ∷ []) extra pm full few track = absurd (omega arith)
reload_loop-Progress (suc r) front (x0 ∷ x1 ∷ back) extra pm full few track =
    let y = next_word (x0 ∷ x1 ∷ back ++ front) in
    let len = length-append front (y ∷ []) in
    let place : IsPlace pm (length front) = ground arith in
    let moved : IsTrack r (pm + 1) (length (front ++ y ∷ [])) = ground (arith, len) in
    let step = reload_step_lem front back x0 x1 extra pm full place in
    let rest =
      reload_loop-Progress r (front ++ y ∷ []) (x1 ∷ back) extra (pm + 1) (omega (arith, len))
        (omega arith) moved in
    record {
      front' = rest.front';
      back' = rest.back';
      result = ap (λ o. o >>= λ c. reload_loop r (pm + 1) c) step ∙ rest.result;
      window = rest.window ∙ ap (advance r) (sym (append_assoc (x1 ∷ back) front (y ∷ [])));
      written = omega (arith, rest.written, len);
      full = rest.full;
    }

pub advance-add : (m n : ℕ) (ws : List ℕ) → advance n (advance m ws) ≡ advance (m + n) ws
unfolding advance
advance-add zero n ws = let e : n ≡ 0 + n = omega arith in ap (λ k. advance k ws) e
advance-add (suc m) n ws =
    let e : suc (m + n) ≡ suc m + n = omega arith in
    advance-add m n (drop 1 ws ++ next_word ws ∷ []) ∙ ap (λ k. advance k ws) e
