-- ===== src/Tests/Locks.antt =====
-- Spin locks under fixed schedules.
use a.Base.{ℕ, ◌≡◌, refl, List, [], ◌∷◌, ◌++◌, replicate, true, false}
use a.Spinlock.{
  spin, inside, dead, pushcli, Call, acquiring, releasing, acquire_test, exchange, turn_at, turn,
  run, initlock, Machine, outside,
}
use a.Spinlock.Progress.{acquire-release}
use a.Spinlock.Claims.{IsExclusive}
use a.Spinlock.Exclusion.{run-IsExclusive, Leads, turn-Leads}

-- CPU 0 and CPU 1 acquire at the same time, and CPU 0 comes first.
abbrev race : List (ℕ × Call)
race =
    (0, acquiring)
    ∷ (1, acquiring)
    ∷ (0, acquiring)
    ∷ (1, acquiring)
    ∷ (0, acquiring)
    ∷ (1, acquiring)
    ∷ (0, acquiring)
    ∷ (1, acquiring)
    ∷ []

race-places :
    (((run race initlock).cpus 0).place ≡ inside) × (((run race initlock).cpus 1).place ≡ spin)
unfolding run turn turn_at acquire_test exchange pushcli
race-places = (refl, refl)

-- CPU 0 acquires the lock again.
again-dead : ((run (race ++ (0, acquiring) ∷ (0, acquiring) ∷ []) initlock).cpus 0).place ≡ dead
unfolding run turn turn_at acquire_test exchange pushcli
again-dead = refl

run-IsExclusive_example : IsExclusive (run race initlock)
run-IsExclusive_example = run-IsExclusive race

turn-Leads_example :
    Leads ((run race initlock).cpus 0).place ((turn 0 releasing (run race initlock)).cpus 0).place
turn-Leads_example = turn-Leads race 0

acquire-release_example :
    (held : Machine) × (run (replicate 4 (1, acquiring)) initlock ≡ held)
    × ((held.cpus 1).place ≡ inside)
    × (held.locked ≡ true)
    × (◌≡◌ {A = ℕ} held.cpu 2)
    × ((back : Machine) × (run (replicate 3 (1, releasing)) held ≡ back)
        × ((back.cpus 1).place ≡ outside)
        × ((back.cpus 1).ncli ≡ 0)
        × ((back.cpus 1).interrupts ≡ true)
        × (back.locked ≡ false))
acquire-release_example = acquire-release initlock 1 refl refl refl
