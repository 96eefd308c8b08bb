-- ===== src/Fcgi.antt =====
-- webconnect/fastcgi/c-fcgi.c: the process that keeps a number of children running, as a state
-- machine; the version for Unix. What `fork` and `wait` return is chosen by the system.
pub mod Counted
mod Tests
use roadsend_php.Base.{ℕ, zero, suc, ◌+◌, ◌-◌, ◌≡◌, Bool, true, false, ◌&&◌, ltb, if◌then◌else◌}

-- At `spawn_top`, in the loop around `wait`, behind `return parent`, behind `exit(1)`.
pub data Point : Type 0 where
  spawn_top : Point
  waiting : Point
  returned : Point
  exited : Point

-- `parent` and `running` of the process, and the children that it has not waited for.
pub record Spawner : Type 0 where
  pub parent : Bool
  pub running : ℕ
  pub children : ℕ
  pub point : Point

pub start : Spawner
start = record { parent = true; running = 0; children = 0; point = spawn_top }

-- What `fork` returns: -1, 0 in the child, or the child's number in the parent.
pub data Fork : Type 0 where
  failed : Fork
  in_child : Fork
  in_parent : Fork

-- The body of the `while` loop; a new process has no children.
pub spawn : Fork → Spawner → Spawner
spawn failed s = record s { point = exited }
spawn in_child s = record s { parent = false; running = s.running + 1; children = 0 }
spawn in_parent s = record s { running = s.running + 1; children = s.children + 1 }

-- A round of the `while` loop, or the test behind it.
pub top_step : ℕ → Fork → Spawner → Spawner
top_step numchildren fork s =
    if s.parent && ltb s.running numchildren
    then spawn fork s
    else if s.parent
    then record s { point = waiting }
    else record s { point = returned }

-- `wait` fails if it is interrupted or there is no child; else a child is gone.
reap : ℕ → Spawner → Spawner
reap zero s = s
reap (suc children) s = record s { running = s.running - 1; children = children; point = spawn_top }

pub wait_step : Bool → Spawner → Spawner
wait_step interrupted s = if interrupted then s else reap s.children s

-- A step of `pcc_fcgi_spawn(numchildren)`, and what it can reach. A negative number acts as 0.
pub data Step (numchildren : ℕ) (s : Spawner) : Spawner → Type 0 where
  at_top : (fork : Fork) → s.point ≡ spawn_top → Step numchildren s (top_step numchildren fork s)
  at_wait : (interrupted : Bool) → s.point ≡ waiting → Step numchildren s (wait_step interrupted s)

pub data Reach (numchildren : ℕ) : Spawner → Type 0 where
  begin : Reach numchildren start
  later : {s t : Spawner} → Reach numchildren s → Step numchildren s t → Reach numchildren t
