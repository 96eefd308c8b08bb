-- ===== src/System/Buffer.antt =====
-- php-system.c: the buffer never overflows, and holds the whole output.
use roadsend_php.Base.{ℕ, ◌<◌, ◌≡◌, List, ◌++◌, Option, some, length}
use roadsend_php.System.{Filled}

-- A buffer with everything in it, and room behind.
record IsRead (start : Filled) (output : List ℕ) (after : Option Filled) : Type 0 where
  size : ℕ
  result : after ≡ some (record { buf = start.buf ++ output; currentsize = size })
  room : length (start.buf ++ output) < size
