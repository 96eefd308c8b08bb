-- ===== src/Apache/Lookup/Match.antt =====
-- webconnect/apache1/mod_pcc.c: which files `match_extension` matches.
use mathlib.Core.Path.{subst}
use roadsend_php.Base.{
  ℕ, zero, suc, ◌+◌, ◌-◌, ◌≤◌, ◌<◌, ◌≡◌, refl, sym, ap, ◌∙◌, List, [], ◌∷◌, ◌++◌, Option, none,
  some, true, false, leb, ◌>>=◌, length, arith, length-append, append-nil, Bool-cases, Option-cases,
  inl, inr, ◌↔◌,
}
use roadsend_php.Apache.Lookup.{begins, strstr, match_extension}

-- The needle stands at the index.
abbrev pub OccursAt : List ℕ → List ℕ → ℕ → Type 0
OccursAt needle s i =
    (before after : List ℕ) × (s ≡ before ++ (needle ++ after)) × (length before ≡ i)

begins-true :
    (needle s : List ℕ) → begins needle s ≡ true → (after : List ℕ) × (s ≡ needle ++ after)
unfolding begins
begins-true [] s e = (s, refl)
begins-true (c ∷ needle) [] e = cc
begins-true (c ∷ needle) (x ∷ s) e =
    let same : c ≡ x = ground arith in
    let tail : begins needle s ≡ true = ground arith in
    let (after, f) = begins-true needle s tail in (after, rw same (ap (λ l. x ∷ l) f))

begins_self : (needle after : List ℕ) → begins needle (needle ++ after) ≡ true
unfolding begins
begins_self [] after = refl
begins_self (c ∷ needle) after = ground (arith, begins_self needle after)

occurs-zero : (needle s : List ℕ) → OccursAt needle s 0 → begins needle s ≡ true
occurs-zero needle s ([], after, e, n) = rw e (begins_self needle after)
occurs-zero needle s (x ∷ before, after, e, n) = absurd (omega (arith, n))

occurs-suc : (needle s : List ℕ) (x i : ℕ) → OccursAt needle (x ∷ s) (suc i) → OccursAt needle s i
occurs-suc needle s x i ([], after, e, n) = absurd (omega (arith, n))
occurs-suc needle s x i (y ∷ before, after, e, n) = (before, after, cc, omega (arith, n))

occurs-later : (needle s : List ℕ) (x i : ℕ) → OccursAt needle s i → OccursAt needle (x ∷ s) (suc i)
occurs-later needle s x i (before, after, e, n) = (x ∷ before, after, ap (λ l. x ∷ l) e, ap suc n)

occurs-nil : (needle : List ℕ) (i : ℕ) → OccursAt needle [] i → i ≡ 0
occurs-nil needle i (before, after, e, n) =
    let size : 0 ≡ length (before ++ (needle ++ after)) = ap length e in
    omega (arith, n, length-append before (needle ++ after))

-- What `strstr` gives.
abbrev pub IsFirst : List ℕ → List ℕ → Option ℕ → Type 0
IsFirst needle s none = (i : ℕ) → ¬ (OccursAt needle s i)
IsFirst needle s (some i) = OccursAt needle s i × ((j : ℕ) → OccursAt needle s j → i ≤ j)

none_later :
    (needle s : List ℕ) (x : ℕ)
    → begins needle (x ∷ s) ≡ false
    → ((i : ℕ) → ¬ (OccursAt needle s i))
    → (i : ℕ) → ¬ (OccursAt needle (x ∷ s) i)
none_later needle s x fails h zero o = let e = occurs-zero needle (x ∷ s) o in cc
none_later needle s x fails h (suc i) o = h i (occurs-suc needle s x i o)

least_later :
    (needle s : List ℕ) (x i : ℕ)
    → begins needle (x ∷ s) ≡ false
    → ((j : ℕ) → OccursAt needle s j → i ≤ j)
    → (j : ℕ) → OccursAt needle (x ∷ s) j
    → suc i ≤ j
least_later needle s x i fails least zero o = let e = occurs-zero needle (x ∷ s) o in cc
least_later needle s x i fails least (suc j) o =
    let le = least j (occurs-suc needle s x j o) in omega (arith, le)

IsFirst-later :
    (needle s : List ℕ) (x : ℕ) (o : Option ℕ)
    → begins needle (x ∷ s) ≡ false
    → IsFirst needle s o
    → IsFirst needle (x ∷ s) (o >>= λ i. some (suc i))
IsFirst-later needle s x none fails h = none_later needle s x fails h
IsFirst-later needle s x (some i) fails (o, least) =
    (occurs-later needle s x i o, least_later needle s x i fails least)

begins-IsFirst : (needle s : List ℕ) → begins needle s ≡ true → IsFirst needle s (some 0)
begins-IsFirst needle s e =
    let (after, f) = begins-true needle s e in (([], after, f, refl), λ j o. omega arith)

pub strstr-IsFirst : (s needle : List ℕ) → IsFirst needle s (strstr s needle)
unfolding strstr
strstr-IsFirst [] needle = elim (Bool-cases (begins needle [])) [
  | inl e ↦ rw e (begins-IsFirst needle [] e)
  | inr e ↦ rw e (λ i o.
      let zero_at : OccursAt needle [] 0 = subst (OccursAt needle []) (occurs-nil needle i o) o in
      let f = occurs-zero needle [] zero_at in cc)
]
strstr-IsFirst (x ∷ s) needle = elim (Bool-cases (begins needle (x ∷ s))) [
  | inl e ↦ rw e (begins-IsFirst needle (x ∷ s) e)
  | inr e ↦ rw e (IsFirst-later needle s x (strstr s needle) e (strstr-IsFirst s needle))
]

-- The name ends in the extension, behind a character or more, and has it nowhere else in front.
abbrev pub EndsIn : List ℕ → List ℕ → Type 0
EndsIn filename ext =
    (name : List ℕ) × (filename ≡ name ++ ext)
    × (1 ≤ length name)
    × ((i : ℕ) → OccursAt ext filename i → length name ≤ i)

last-EndsIn :
    (filename ext : List ℕ) (i : ℕ)
    → IsFirst ext filename (some i)
    → length ext < length filename
    → i ≡ length filename - length ext
    → EndsIn filename ext
last-EndsIn filename ext i ((before, after, e, n), least) lt last =
    let size : length filename ≡ length before + (length ext + length after) =
      ap length e
      ∙ length-append before (ext ++ after)
      ∙ ap (λ k. length before + k) (length-append ext after) in
    let none_after = nothing after (omega (arith, n)) in
    (
      before,
      e ∙ ap (λ l. before ++ (ext ++ l)) none_after ∙ ap (λ l. before ++ l) (append-nil ext),
      omega (arith, n),
      λ j o. let le = least j o in omega (arith, n, le),
    )
  where
    nothing : (xs : List ℕ) → length xs ≡ 0 → xs ≡ []
    nothing [] h = refl
    nothing (x ∷ xs) h = absurd (omega (arith, h))

EndsIn-last :
    (filename ext : List ℕ) (o : Option ℕ)
    → IsFirst ext filename o
    → EndsIn filename ext
    → o ≡ some (length filename - length ext)
EndsIn-last filename ext none h (name, e, le, last) =
    absurd (h (length name) (name, [], e ∙ ap (λ l. name ++ l) (sym (append-nil ext)), refl))
EndsIn-last filename ext (some i) (o, least) (name, e, le, last) =
    let before =
      least (length name) (name, [], e ∙ ap (λ l. name ++ l) (sym (append-nil ext)), refl) in
    let behind = last i o in
    let size : length filename ≡ length name + length ext = ap length e ∙ length-append name ext in
    ap some (omega (arith, before, behind))

-- A file matches an extension exactly where its name ends in it, behind a character or more, and
-- the extension stands nowhere further in front as well.
pub match_extension_iff :
    (filename ext : List ℕ) → (match_extension filename ext ≡ true) ↔ EndsIn filename ext
unfolding match_extension
match_extension_iff filename ext = (to, from)
  where
    first : IsFirst ext filename (strstr filename ext)
    first = strstr-IsFirst filename ext

    to : match_extension filename ext ≡ true → EndsIn filename ext
    to e = elim (Bool-cases (leb (length filename) (length ext))) [
      | inl short ↦ let f = rw short at e in cc
      | inr long ↦ elim (Option-cases (strstr filename ext)) [
        | inl missing ↦ let f = rw (long, missing) at e in cc
        | inr (i, found) ↦
            let f = rw (long, found) at e in
            last-EndsIn filename ext i (rw found at first) (ground arith) (ground arith)
      ]
    ]

    from : EndsIn filename ext → match_extension filename ext ≡ true
    from (name, e, le, last) =
        let long : leb (length filename) (length ext) ≡ false =
          ground (arith, length-append name ext, ap length e) in
        rw (long, EndsIn-last filename ext (strstr filename ext) first (name, e, le, last))
          (ground arith)
