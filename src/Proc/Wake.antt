-- ===== src/Proc/Wake.antt =====
-- `wakeup1` and `wakeup` of proc.c.
use a.Base.{
  get_elem?-map, ℕ, ◌+◌, ◌-◌, ◌≡◌, refl, ◌∙◌, ◌≢◌, ◌⊎◌, false, some, List, map, arith, get_elem?,
  ok, map-map,
}
use a.Kernel.{Kernel, Proc, sleeping, runnable}
use a.Proc.{wake, wakeup}
use a.Proc.Pids.{PidsOk, PidsOk-same}

-- Waking changes no pid, and nothing but the state of a process.
pids-wake :
    (chan : ℕ) (ps : List Proc)
    → map (λ (p : Proc). p.pid) (map (wake chan) ps) ≡ map (λ (p : Proc). p.pid) ps
pids-wake chan ps = map-map (λ (p : Proc). p.pid) (wake chan) (λ p. p.pid) ps (λ p. ground arith)

-- `wakeup` returns with the lock released. A process that slept on `chan` is RUNNABLE then, and every
-- other slot is as it was; no pid changes.
pub wakeup_lem :
    (chan : ℕ) (k : Kernel)
    → k.ptable_lock ≡ false
    → PidsOk k
    → (k' : Kernel) × (wakeup chan k ≡ ok k')
      × ((i : ℕ) (p : Proc)
          → get_elem? k.procs i ≡ some p
          → p.state ≡ sleeping
          → p.chan ≡ chan
          → get_elem? k'.procs i ≡ some (record p { state = runnable }))
      × ((i : ℕ) (p : Proc)
          → get_elem? k.procs i ≡ some p
          → (p.state ≢ sleeping) ⊎ (p.chan ≢ chan)
          → get_elem? k'.procs i ≡ some p)
      × PidsOk k'
      × (k'.ptable_lock ≡ false)
unfolding wakeup
wakeup_lem chan k un ok_k = (
  record k { procs = map (wake chan) k.procs; ncli = k.ncli + 1 - 1; ptable_lock = false },
  ground arith,
  (λ i p at s c. get_elem?-map (wake chan) k.procs i at ∙ ground arith),
  (λ i p at n. get_elem?-map (wake chan) k.procs i at ∙ ground arith),
  PidsOk-same k _ ok_k (pids-wake chan k.procs) refl,
  refl,
)
