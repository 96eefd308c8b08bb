-- ===== src/Format/Sink.antt =====
-- pcc_snprintf.c: the output of the formatter, which the macros INS_CHAR and PAD write. The
-- caller's memory is a list of bytes, a pointer into it an index, and NULL is `none`.
pub mod Print
pub mod Place
use roadsend_php.Base.{
  ℕ, zero, suc, List, [], ◌∷◌, Option, none, some, Bool, true, ◌&&◌, ltb, leb, if◌then◌else◌,
  length, set,
}

-- `pcc_vformatter_buff_t`, with the memory that it points into.
pub record Vbuff : Type 0 where
  pub memory : List ℕ
  pub curpos : Option ℕ
  pub endpos : ℕ

-- The local `sp`, `bep` and `cc` of the formatter.
pub record Out : Type 0 where
  pub memory : List ℕ
  pub sp : Option ℕ
  pub bep : ℕ
  pub cc : ℕ

-- `full` is the return of -1, and `fault` is what C leaves undefined.
pub data Run {ℓ} (A : Type ℓ) : Type ℓ where
  ok : A → Run A
  full : Vbuff → Run A
  fault : Run A

infixl 5 ◌>>=◌
abbrev pub ◌>>=◌ {ℓ κ} : {A : Type ℓ} {B : Type κ} → Run A → (A → Run B) → Run B
ok a >>= f = f a
full v >>= f = full v
fault >>= f = fault

abbrev pub of_option {ℓ} : {A : Type ℓ} → Option A → Run A
of_option none = fault
of_option (some a) = ok a

-- The result -1: there is nowhere to flush to.
unfoldable pub snprintf_flush : Vbuff → Bool
snprintf_flush vbuff = true

-- The part of `INS_CHAR` for a pointer that is not NULL.
unfoldable pub ins_at : ℕ → ℕ → Out → Run Out
unfolding snprintf_flush
ins_at c sp o =
    let vbuff : Vbuff = record { memory = o.memory; curpos = some sp; endpos = o.bep } in
    if leb o.bep sp && snprintf_flush vbuff
    then full vbuff
    else if ltb sp (length o.memory)
    then ok (record o { memory = set o.memory sp c; sp = some (suc sp); cc = suc o.cc })
    else fault

unfoldable pub ins_char : ℕ → Out → Run Out
ins_char c o = elim o.sp [ none ↦ ok (record o { cc = suc o.cc }) | some sp ↦ ins_at c sp o ]

-- `PAD`, a `do` loop: at least one character, and so many as the width exceeds the length.
unfoldable pub pad : ℕ → ℕ → ℕ → Out → Run Out
pad zero len ch o = ins_char ch o
pad (suc width) len ch o =
    ins_char ch o >>= λ o'. let more = pad width len ch o' in if ltb len width then more else ok o'

-- The loop that prints the bytes of `s`.
unfoldable pub print_loop : List ℕ → Out → Run Out
print_loop [] o = ok o
print_loop (c ∷ s) o = ins_char c o >>= print_loop s
