-- ===== src/Random/Output.antt =====
-- mt_rand.c: `randomMT` never fails, from the initial state on.
use roadsend_php.Base.{
  ℕ, zero, suc, ◌+◌, ◌<◌, ◌≡◌, refl, sym, ap, ◌∙◌, List, [], ◌∷◌, ◌++◌, Option, some, false, arith,
  if◌then◌else◌, ◌>>=◌, length, get_elem?, get_or, drop, take, take-append-drop, length-take,
  length-drop, ◌⊎◌, inl, inr, length-append, get_elem?-get_or,
}
use mathlib.Core.Path.{subst}
use roadsend_php.Base.Bits.{◌>>>◌}
use roadsend_php.Base.Int.{ℤ, pos, negsuc, ◌-ℤ◌, ltb_ℤ, eq_of_parts, -ℤ_parts}
use roadsend_php.Random.{Generator, temper, seed_loop, seed_mt, reload_words, reload_mt, random_mt}
use roadsend_php.Random.Twist.{advance, next_word}
use roadsend_php.Random.Reload.{singleton, reload_words-advance}

-- The array has 625 words, and `next` is inside of it for `left` more calls.
pub record IsReady (g : Generator) : Type 0 where
  pub full : length g.state ≡ 625
  pub place :
      (g.left ≡ negsuc 0)
      ⊎ (g.left ≡ pos 0)
      ⊎ ((n : ℕ) × (g.left ≡ pos (suc n)) × (g.next + suc n ≡ 624))

pub record IsResult (after : Option (Generator × ℕ)) : Type 0 where
  pub generator : Generator
  pub value : ℕ
  pub result : after ≡ some (generator, value)
  pub ready : IsReady generator

length-advance : (n : ℕ) (ws : List ℕ) → 0 < length ws → length (advance n ws) ≡ length ws
unfolding advance
length-advance zero ws h = refl
length-advance (suc n) ws h =
    let moved : length (drop 1 ws ++ next_word ws ∷ []) ≡ length ws =
      omega (arith, length-append (drop 1 ws) (next_word ws ∷ []), length-drop 1 ws) in
    length-advance n (drop 1 ws ++ next_word ws ∷ []) (omega arith) ∙ moved

reload_words-IsResult : (state : List ℕ) → length state ≡ 625 → IsResult (reload_words state)
reload_words-IsResult state h =
    let words = take 624 state in
    let size = length-take 624 state (omega arith) in
    let (extra, one) = singleton (drop 624 state) (omega (arith, length-drop 624 state)) in
    let split : state ≡ words ++ extra ∷ [] =
      sym (take-append-drop 624 state) ∙ ap (λ l. words ++ l) one in
    let after = advance 624 words in
    record {
      generator = record { state = after ++ extra ∷ []; next = 1; left = pos 623 };
      value = temper (get_or after 0 0);
      result = ap reload_words split ∙ reload_words-advance words extra size;
      ready = record {
        full =
            length-append after (extra ∷ [])
            ∙ ap (λ n. n + 1) (length-advance 624 words (omega arith) ∙ size);
        place = inr (inr (622, refl, refl));
      };
    }

pub length-seed_loop : (j x : ℕ) → length (seed_loop j x) ≡ j
unfolding seed_loop
length-seed_loop zero x = refl
length-seed_loop (suc j) x = ap suc (length-seed_loop j _)

-- Seeding a generator, in whatever state, leaves 625 words and no number to take.
pub seed_mt-IsReady : (seed : ℕ) (g : Generator) → length g.state ≡ 625 → IsReady (seed_mt seed g)
unfolding seed_mt
seed_mt-IsReady seed g h = record {
  full = omega (
    arith,
    length-append (seed_loop 623 _) (drop 624 g.state),
    length-seed_loop 623 _,
    length-drop 624 g.state,
  );
  place = inr (inl refl);
}

-- `randomMT` from `left`, as its value says which way it goes.
abbrev from_left : Generator → ℤ → Option (Generator × ℕ)
from_left g l =
    if ltb_ℤ (l -ℤ pos 1) (pos 0)
    then reload_mt (record g { left = l -ℤ pos 1 })
    else (get_elem? g.state g.next >>= λ y.
        some (record g { left = l -ℤ pos 1; next = g.next + 1 }, temper y >>> 1))

taken :
    (n next : ℕ)
    → next + suc n ≡ 624
    → (pos n ≡ negsuc 0)
      ⊎ (pos n ≡ pos 0)
      ⊎ ((m : ℕ) × (pos n ≡ pos (suc m)) × (next + 1 + suc m ≡ 624))
taken zero next h = inr (inl refl)
taken (suc n) next h = inr (inr (n, refl, omega arith))

not_less : (n : ℕ) → ltb_ℤ (pos n) (pos 0) ≡ false
not_less n = ground arith

pred_left : (n : ℕ) → pos (suc n) -ℤ pos 1 ≡ pos n
pred_left n =
    eq_of_parts (pos (suc n) -ℤ pos 1) (pos n) (omega (arith, -ℤ_parts (pos (suc n)) (pos 1)))

-- While words are left, the next one is taken.
from_left-suc :
    (g : Generator) (n y : ℕ)
    → get_elem? g.state g.next ≡ some y
    → from_left g (pos (suc n))
      ≡ some (record g { left = pos n; next = g.next + 1 }, temper y >>> 1)
from_left-suc g n y h =
    ap
      (λ l.
        if ltb_ℤ l (pos 0)
        then reload_mt (record g { left = l })
        else (get_elem? g.state g.next >>= λ y.
            some (record g { left = l; next = g.next + 1 }, temper y >>> 1)))
      (pred_left n)
    ∙ ap
        (λ t.
          if t
          then reload_mt (record g { left = pos n })
          else (get_elem? g.state g.next >>= λ y.
              some (record g { left = pos n; next = g.next + 1 }, temper y >>> 1)))
        (not_less n)
    ∙ ap (λ o. o >>= λ y. some (record g { left = pos n; next = g.next + 1 }, temper y >>> 1)) h

from_left-IsResult : (g : Generator) → IsReady g → IsResult (from_left g g.left)
unfolding ◌-ℤ◌ reload_mt
from_left-IsResult g ready = elim ready.place [
  | inl first ↦
      let seeded = seed_mt 4357 (record g { left = negsuc 1 }) in
      let new = seed_mt-IsReady 4357 (record g { left = negsuc 1 }) ready.full in
      subst (λ l. IsResult (from_left g l)) (sym first)
        (reload_words-IsResult seeded.state new.full)
  | inr (inl used) ↦
      subst (λ l. IsResult (from_left g l)) (sym used) (reload_words-IsResult g.state ready.full)
  | inr (inr (n, more, there)) ↦
      subst (λ l. IsResult (from_left g l)) (sym more)
        (record {
          generator = record g { left = pos n; next = g.next + 1 };
          value = temper (get_or g.state g.next 0) >>> 1;
          result =
              from_left-suc g n (get_or g.state g.next 0)
                (get_elem?-get_or g.state g.next 0 (omega (arith, ready.full)));
          ready = record { full = ready.full; place = taken n g.next there };
        })
]

-- `randomMT` succeeds in every ready state, and leaves one: before the first seeding, with all
-- words taken, and in between; it reads and writes only inside the array.
pub random_mt-IsResult : (g : Generator) → IsReady g → IsResult (random_mt g)
unfolding random_mt
random_mt-IsResult g ready = from_left-IsResult g ready
