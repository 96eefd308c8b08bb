-- ===== src/Apache/Exts.antt =====
-- webconnect/apache1/mod_pcc.c: the array of extensions as a list.
use roadsend_php.Base.{
  ℕ, zero, suc, ◌+◌, ◌≤◌, ◌<◌, ◌≡◌, refl, sym, ap, ◌∙◌, List, [], ◌∷◌, ◌++◌, map, Option, none,
  some, true, false, ltb, ◌==◌, if◌then◌else◌, length, get_elem?, take, take-all, replicate, arith,
  length-append, set-append, append-nil, append_assoc, Bool-cases, inl, inr, codes,
}
use roadsend_php.Apache.{
  Cfg, put_ext, pcc_create_per_dir, is_ext, customize, do_webapp_exts, iterate_exts,
}

-- The first `num_exts` pointers of the array of 30 are these extensions.
pub record Shows (exts : List (List ℕ)) (cfg : Cfg) : Type 0 where
  pub rest : List (Option (List ℕ))
  pub split : cfg.webapp_exts ≡ map some exts ++ rest
  pub size : length exts + length rest ≡ 30
  pub count : cfg.num_exts ≡ length exts

pub length-map : (xs : List (List ℕ)) → length (map some xs) ≡ length xs
length-map [] = refl
length-map (x ∷ xs) = ap suc (length-map xs)

pub map-append : (xs ys : List (List ℕ)) → map some (xs ++ ys) ≡ map some xs ++ map some ys
map-append [] ys = refl
map-append (x ∷ xs) ys = ap (λ l. some x ∷ l) (map-append xs ys)

get_elem?-middle :
    (done left : List (Option (List ℕ))) (x : Option (List ℕ))
    → get_elem? (done ++ x ∷ left) (length done) ≡ some x
get_elem?-middle [] left x = refl
get_elem?-middle (y ∷ done) left x = get_elem?-middle done left x

-- Reading an extension from the array.
pub exts_at :
    (done left : List (List ℕ)) (x : List ℕ) (rest : List (Option (List ℕ)))
    → get_elem? (map some (done ++ x ∷ left) ++ rest) (length done) ≡ some (some x)
exts_at done left x rest =
    let split : map some (done ++ x ∷ left) ++ rest
        ≡ map some done ++ some x ∷ (map some left ++ rest) =
      ap (λ l. l ++ rest) (map-append done (x ∷ left)) ∙ append_assoc (map some done) _ rest in
    let place : length done ≡ length (map some done) = sym (length-map done) in
    rw (split, place) (get_elem?-middle (map some done) (map some left ++ rest) (some x))

take-full : (xs ys : List (List ℕ)) (n : ℕ) → length xs ≡ n → take n (xs ++ ys) ≡ xs
take-full [] ys zero h = refl
take-full [] ys (suc n) h = absurd (omega arith)
take-full (x ∷ xs) ys zero h = absurd (omega arith)
take-full (x ∷ xs) ys (suc n) h = ap (λ l. x ∷ l) (take-full xs ys n (omega arith))

pub create-Shows :
    (dirspec : Option (List ℕ)) → Shows (codes ".php" ∷ []) (pcc_create_per_dir dirspec)
unfolding pcc_create_per_dir
create-Shows dirspec = record { rest = replicate 29 none; split = refl; size = refl; count = refl }

-- What a directive may add.
unfoldable pub chosen : List (List ℕ) → List (List ℕ)
chosen [] = []
chosen (ext ∷ exts) = let more = chosen exts in if is_ext ext then ext ∷ more else more

-- The extensions behind directives: the ones that are valid, but for those beyond the array, and
-- the default where there are none.
unfoldable pub shown : List (List ℕ) → List (List ℕ) → List (List ℕ)
shown default [] = default
shown default (ext ∷ exts) = take 30 (ext ∷ exts)

pub at_least_one :
    (xs : List (Option (List ℕ)))
    → 1 ≤ length xs
    → (x : Option (List ℕ)) × (rest : List (Option (List ℕ))) × (xs ≡ x ∷ rest)
at_least_one [] le = absurd (omega arith)
at_least_one (x ∷ rest) le = (x, rest, refl)

put_ext-Shows :
    (exts : List (List ℕ)) (cfg : Cfg) (ext : List ℕ)
    → Shows exts cfg
    → length exts < 30
    → (array : List (Option (List ℕ))) × (put_ext cfg.webapp_exts cfg.num_exts (some ext)
        ≡ some array)
      × Shows (exts ++ ext ∷ []) (record cfg { webapp_exts = array; num_exts = cfg.num_exts + 1 })
unfolding put_ext
put_ext-Shows exts cfg ext h lt =
    let (x, rest, e) = at_least_one h.rest (omega (arith, h.size)) in
    let split : cfg.webapp_exts ≡ map some exts ++ x ∷ rest =
      h.split ∙ ap (λ l. map some exts ++ l) e in
    let left : length h.rest ≡ suc (length rest) = ap length e in
    let place : cfg.num_exts ≡ length (map some exts) = h.count ∙ sym (length-map exts) in
    let inside : ltb (length (map some exts)) (length (map some exts ++ x ∷ rest)) ≡ true =
      ground (arith, length-append (map some exts) (x ∷ rest)) in
    (
      map some (exts ++ ext ∷ []) ++ rest,
      rw
          (
            split,
            place,
            inside,
            set-append (map some exts) rest x (some ext),
            map-append exts (ext ∷ []),
          )
          refl,
      record {
        rest = rest;
        split = refl;
        size = omega (arith, h.size, length-append exts (ext ∷ []));
        count = omega (arith, h.count, length-append exts (ext ∷ []));
      },
    )

customize-custom : (cfg : Cfg) → (customize cfg).custom_exts ≡ true
unfolding customize
customize-custom cfg = elim (Bool-cases cfg.custom_exts) [
  | inl own ↦ rw own refl
  | inr default ↦ rw default refl
]

customize-own : (cfg : Cfg) → cfg.custom_exts ≡ true → customize cfg ≡ cfg
unfolding customize
customize-own cfg own = rw own refl

-- The extensions of the default are given up.
customize-Shows :
    (exts : List (List ℕ)) (cfg : Cfg)
    → Shows exts cfg
    → cfg.custom_exts ≡ false
    → Shows [] (customize cfg)
unfolding customize
customize-Shows exts cfg h default = rw default (record {
  rest = cfg.webapp_exts;
  split = refl;
  size = rw h.split (omega (arith, h.size, length-append (map some exts) h.rest, length-map exts));
  count = refl;
})

-- A valid extension goes behind those of the user's own.
do_webapp_exts-adds :
    (exts : List (List ℕ)) (cfg : Cfg) (ext : List ℕ)
    → is_ext ext ≡ true
    → (cfg.num_exts == 30) ≡ false
    → Shows exts (customize cfg)
    → length exts < 30
    → (next : Cfg) × (do_webapp_exts cfg ext ≡ some next)
      × Shows (exts ++ ext ∷ []) next
      × (next.custom_exts ≡ true)
unfolding do_webapp_exts
do_webapp_exts-adds exts cfg ext valid room h lt =
    let (array, put, k) = put_ext-Shows exts (customize cfg) ext h lt in
    (
      record (customize cfg) { webapp_exts = array; num_exts = (customize cfg).num_exts + 1 },
      rw (valid, room, put) refl,
      k,
      customize-custom cfg,
    )

skips_full :
    (cfg : Cfg) (ext : List ℕ) → (cfg.num_exts == 30) ≡ true → do_webapp_exts cfg ext ≡ some cfg
unfolding do_webapp_exts
skips_full cfg ext full = elim (Bool-cases (is_ext ext)) [
  | inl valid ↦ rw (valid, full) refl
  | inr bad ↦ rw bad refl
]

skips_bad : (cfg : Cfg) (ext : List ℕ) → is_ext ext ≡ false → do_webapp_exts cfg ext ≡ some cfg
unfolding do_webapp_exts
skips_bad cfg ext bad = rw bad refl

-- Behind the first extension of the user's own.
iterate_exts-custom :
    (exts given : List (List ℕ)) (cfg : Cfg)
    → Shows exts cfg
    → cfg.custom_exts ≡ true
    → (next : Cfg) × (iterate_exts cfg given ≡ some next)
      × Shows (take 30 (exts ++ chosen given)) next
unfolding iterate_exts chosen
iterate_exts-custom exts [] cfg h own =
    let short : length exts ≤ 30 = omega (arith, h.size) in
    (cfg, refl, rw (append-nil exts, take-all exts 30 short) h)
iterate_exts-custom exts (ext ∷ given) cfg h own = elim (Bool-cases (is_ext ext)) [
  | inl valid ↦ elim (Bool-cases (cfg.num_exts == 30)) [
    | inl full ↦
        let (next, e, k) = iterate_exts-custom exts given cfg h own in
        let no_room : length exts ≡ 30 = ground (arith, h.count) in
        let same : Shows exts next = rw (take-full exts (chosen given) 30 no_room) at k in
        (
          next,
          rw (skips_full cfg ext full) e,
          rw (valid, take-full exts (ext ∷ chosen given) 30 no_room) same,
        )
    | inr room ↦
        let same : Shows exts (customize cfg) = rw (customize-own cfg own) h in
        let (added, step, k, still) =
          do_webapp_exts-adds exts cfg ext valid room same (ground (arith, h.count, h.size)) in
        let (next, e, m) = iterate_exts-custom (exts ++ ext ∷ []) given added k still in
        (next, rw step e, rw valid (rw (append_assoc exts (ext ∷ []) (chosen given)) at m))
  ]
  | inr bad ↦
      let (next, e, k) = iterate_exts-custom exts given cfg h own in
      (next, rw (skips_bad cfg ext bad) e, rw bad k)
]

-- From the default on, extensions are added by the first of the user's own.
iterate_exts-default :
    (exts given : List (List ℕ)) (cfg : Cfg)
    → Shows exts cfg
    → length exts < 30
    → cfg.custom_exts ≡ false
    → (next : Cfg) × (iterate_exts cfg given ≡ some next) × Shows (shown exts (chosen given)) next
unfolding iterate_exts chosen shown
iterate_exts-default exts [] cfg h lt default = (cfg, refl, h)
iterate_exts-default exts (ext ∷ given) cfg h lt default = elim (Bool-cases (is_ext ext)) [
  | inl valid ↦
      let (added, step, k, still) =
        do_webapp_exts-adds [] cfg ext valid (ground (arith, h.count))
          (customize-Shows exts cfg h default) (omega arith) in
      let (next, e, m) = iterate_exts-custom (ext ∷ []) given added k still in
      (next, rw step e, rw valid m)
  | inr bad ↦
      let (next, e, k) = iterate_exts-default exts given cfg h lt default in
      (next, rw (skips_bad cfg ext bad) e, rw bad k)
]

-- Behind the values of pcc_webapp_exts, the extensions of a new directory are the valid ones among
-- them in their order, at most 30, or ".php" where none is valid; the array is never left.
pub iterate_exts_lem :
    (dirspec : Option (List ℕ)) (given : List (List ℕ))
    → (cfg : Cfg) × (iterate_exts (pcc_create_per_dir dirspec) given ≡ some cfg)
      × Shows (shown (codes ".php" ∷ []) (chosen given)) cfg
unfolding pcc_create_per_dir
iterate_exts_lem dirspec given =
    iterate_exts-default (codes ".php" ∷ []) given (pcc_create_per_dir dirspec)
      (create-Shows dirspec) (omega arith) refl
