-- ===== src/Random/Tests.antt =====
-- mt_rand.c from a seed on.
use roadsend_php.Base.{◌≡◌, refl, ◌∷◌, ◌++◌, [], some, inl, replicate, get_or}
use roadsend_php.Base.Int.{pos, negsuc}
use roadsend_php.Random.{Generator, temper, seed_mt, reload_words, random_mt}
use roadsend_php.Random.Twist.{advance}
use roadsend_php.Random.Reload.{reload_words-advance}
use roadsend_php.Random.Output.{IsReady, IsResult, random_mt-IsResult, seed_mt-IsReady}

-- The static variables before the first call.
abbrev unseeded : Generator
unseeded = record { state = replicate 625 0; next = 0; left = negsuc 0 }

unseeded-IsReady : IsReady unseeded
unseeded-IsReady = record { full = refl; place = inl refl }

reload_words-advance_example :
    reload_words (replicate 624 1 ++ 0 ∷ [])
    ≡ some (
      record { state = advance 624 (replicate 624 1) ++ 0 ∷ []; next = 1; left = pos 623 },
      temper (get_or (advance 624 (replicate 624 1)) 0 0),
    )
reload_words-advance_example = reload_words-advance (replicate 624 1) 0 refl

random_mt-IsResult_example : IsResult (random_mt unseeded)
random_mt-IsResult_example = random_mt-IsResult unseeded unseeded-IsReady

seed_mt-IsReady_example : IsReady (seed_mt 4357 unseeded)
seed_mt-IsReady_example = seed_mt-IsReady 4357 unseeded refl
