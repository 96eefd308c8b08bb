-- ===== src/Fcgi/Counted.antt =====
-- c-fcgi.c: `running` counts the children.
use roadsend_php.Base.{
  ℕ, zero, suc, ◌<◌, ◌≤◌, ◌≡◌, refl, Bool, true, false, ◌&&◌, arith, ltb, if◌then◌else◌,
}
use roadsend_php.Fcgi.{
  spawn_top, waiting, returned, Spawner, start, Fork, failed, in_child, in_parent, spawn, top_step,
  reap, wait_step, Step, at_top, at_wait, Reach, begin, later,
}

-- The parent counts its children, and has no more of them than it was asked for; it waits only
-- when it has them all; only a child returns, and it has no children.
pub record IsCounted (numchildren : ℕ) (s : Spawner) : Type 0 where
  pub counted : s.parent ≡ true → s.running ≡ s.children
  pub bounded : s.parent ≡ true → s.running ≤ numchildren
  pub complete : s.point ≡ waiting → (s.parent ≡ true) × (s.running ≡ numchildren)
  pub child : s.point ≡ returned → s.parent ≡ false
  pub leaf : s.parent ≡ false → s.children ≡ 0

spawn-IsCounted :
    (n : ℕ) (f : Fork) (s : Spawner)
    → IsCounted n s
    → s.point ≡ spawn_top
    → s.parent ≡ true
    → s.running < n
    → IsCounted n (spawn f s)
unfolding spawn
spawn-IsCounted n failed s c p h lt = ground arith
spawn-IsCounted n in_child s c p h lt = ground arith
spawn-IsCounted n in_parent s c p h lt = ground arith

by_test :
    (P : Spawner → Type 0) (b : Bool) (x y : Spawner)
    → (b ≡ true → P x)
    → (b ≡ false → P y)
    → P (if b then x else y)
by_test P true x y yes_x no_y = yes_x refl
by_test P false x y yes_x no_y = no_y refl

top_step-IsCounted :
    (n : ℕ) (f : Fork) (s : Spawner)
    → IsCounted n s
    → s.point ≡ spawn_top
    → IsCounted n (top_step n f s)
unfolding top_step
top_step-IsCounted n f s c p =
    by_test (IsCounted n) (s.parent && ltb s.running n) (spawn f s) _
      (λ t. spawn-IsCounted n f s c p (ground arith) (ground arith))
      (λ stop.
        by_test (IsCounted n) s.parent (record s { point = waiting })
          (record s { point = returned }) (λ h. ground arith) (λ h. ground arith))

reap-IsCounted :
    (n k : ℕ) (s : Spawner)
    → IsCounted n s
    → s.point ≡ waiting
    → s.children ≡ k
    → IsCounted n (reap k s)
unfolding reap
reap-IsCounted n zero s c p h = c
reap-IsCounted n (suc k) s c p h = ground arith

wait_step-IsCounted :
    (n : ℕ) (i : Bool) (s : Spawner)
    → IsCounted n s
    → s.point ≡ waiting
    → IsCounted n (wait_step i s)
unfolding wait_step
wait_step-IsCounted n true s c p = c
wait_step-IsCounted n false s c p = reap-IsCounted n s.children s c p refl

Step-IsCounted : {n : ℕ} {s t : Spawner} → Step n s t → IsCounted n s → IsCounted n t
Step-IsCounted {n} {s} (at_top f p) c = top_step-IsCounted n f s c p
Step-IsCounted {n} {s} (at_wait i p) c = wait_step-IsCounted n i s c p

-- In every state that the process reaches, `running` is the number of the parent's children and
-- is at most `numchildren`; the parent waits only when it has them all, and never returns: only a
-- child does, which has no children.
pub Reach-IsCounted : {n : ℕ} {s : Spawner} → Reach n s → IsCounted n s
unfolding start
Reach-IsCounted begin = ground arith
Reach-IsCounted (later r st) = Step-IsCounted st (Reach-IsCounted r)

reap_zero : (k : ℕ) (s : Spawner) → k ≡ 0 → reap k s ≡ s
unfolding reap
reap_zero zero s h = refl
reap_zero (suc k) s h = absurd (omega arith)

wait_none : (i : Bool) (s : Spawner) → s.children ≡ 0 → wait_step i s ≡ s
unfolding wait_step
wait_none true s h = refl
wait_none false s h = reap_zero s.children s h

-- For no children at all, the parent never leaves the loop around `wait`.
pub wait_step_none :
    {s : Spawner} (interrupted : Bool) → Reach 0 s → s.point ≡ waiting → wait_step interrupted s ≡ s
wait_step_none {s} i r p =
    let c = Reach-IsCounted r in
    let (is_parent, all) = c.complete p in
    let count = c.counted is_parent in wait_none i s (omega arith)
