-- ===== src/Fcgi/Tests.antt =====
-- c-fcgi.c for one child and for none.
use roadsend_php.Base.{refl, true}
use roadsend_php.Fcgi.{
  Spawner, start, waiting, in_parent, spawn, top_step, Reach, begin, later, at_top,
}
use roadsend_php.Fcgi.Counted.{IsCounted, Reach-IsCounted}

abbrev parent_waits : Spawner
parent_waits = record { parent = true; running = 1; children = 1; point = waiting }

Reach-waiting : Reach 1 parent_waits
unfolding top_step spawn start
Reach-waiting = later (later begin (at_top in_parent refl)) (at_top in_parent refl)

Reach-IsCounted_example : IsCounted 1 parent_waits
Reach-IsCounted_example = Reach-IsCounted Reach-waiting

abbrev none_wanted : Spawner
none_wanted = record { parent = true; running = 0; children = 0; point = waiting }

Reach-none : Reach 0 none_wanted
unfolding top_step start
Reach-none = later begin (at_top in_parent refl)
