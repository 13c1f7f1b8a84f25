-- ===== src/Tests/Schedules.antt =====
-- The scheduler and the ends of processes of proc.c at fixed inputs.
use a.Base.{
  ℕ, ◌≡◌, refl, true, some, [], ◌∷◌, get_elem?, Outcome, ok, get_elem?-All, arith, ◌≢◌, replicate,
  modify, not, ◌||◌, ◌==◌, if◌then◌else◌, panic, All, subst, some-injective, sym, ◌∙◌,
  get_elem?-modify_self,
}
use a.Kalloc.{Kmem, kfree}
use a.Kernel.{Kernel, Proc, runnable, running, zombie, is_zombie, scheduling_line}
use a.Scheduler.Round.{round_lines}
use a.Life.{WaitEnd, wait}
use a.Life.Leave.{exit}
use a.Life.Exit.{IsGone, exit-IsGone}
use a.Life.Closing.{Closes, Skips, Puts, clear_fd}
use a.Proc.Pids.{All-set}
use a.Life.Reap.{WaitOk, wait-WaitOk}
use a.Tests.Data.{kernel0, kernel1, sleeper, init_proc, page2}

-- two ready processes, in containers 0 and 2
abbrev kernel4 : Kernel
kernel4 = record kernel0 {
  current = 0;
  scheduler_log = true;
  procs =
      record sleeper { state = runnable; pid = 7; container_id = 2 }
      ∷ record sleeper { state = runnable; pid = 8; container_id = 0 }
      ∷ sleeper
      ∷ [];
}

round4 : round_lines kernel4.conts kernel4.procs ≡ scheduling_line 0 8 ∷ scheduling_line 2 7 ∷ []
round4 = refl

abbrev parent5 : Proc
parent5 = record sleeper { state = running }

-- The third slot is a dead child of the second.
abbrev kernel5 : Kernel
kernel5 = record kernel1 {
  procs =
      init_proc
      ∷ parent5
      ∷ record sleeper { state = zombie; pid = 9; parent = 2; kstack = page2 }
      ∷ [];
}

abbrev no_freevm : ℕ → Kmem → Outcome Kmem
no_freevm pgdir m = ok m

kernel5-frees :
    (i : ℕ) (p : Proc)
    → get_elem? kernel5.procs i ≡ some p
    → is_zombie p.state ≡ true
    → (m : Kmem) × (n : Kmem) × (kfree p.kstack kernel5.kmem ≡ ok m) × (no_freevm p.pgdir m ≡ ok n)
unfolding kfree
kernel5-frees i p at =
    get_elem?-All
      (λ p.
        is_zombie p.state ≡ true
        → (m : Kmem) × (n : Kmem) × (kfree p.kstack kernel5.kmem ≡ ok m)
          × (no_freevm p.pgdir m ≡ ok n))
      kernel5.procs i ((λ z. absurd cc), ((λ z. absurd cc), ((λ z. (_, _, refl, refl)), tt))) at

abbrev back : Kernel → Kernel
back k = k

wait-WaitOk_example :
    (e : WaitEnd) × (wait no_freevm back kernel5 ≡ ok e) × WaitOk back 1 parent5 kernel5 e
wait-WaitOk_example =
    wait-WaitOk no_freevm back 1 parent5 kernel5 refl refl refl (refl, refl) (refl, refl, refl)
      kernel5-frees

-- A process with one file open as two descriptors, and the directory 900.
abbrev leaver : Proc
leaver = record parent5 { ofile = 700 ∷ 700 ∷ replicate 14 0; cwd = 900 }

abbrev kernel6 : Kernel
kernel6 = record kernel5 { procs = modify kernel5.procs 1 (λ p. leaver) }

-- Calls that know one file and one directory, and panic with `ptable.lock` held, as `wakeup` does in them.
abbrev close_700 : ℕ → Kernel → Outcome Kernel
close_700 f k = if not (f == 700) || k.ptable_lock then panic else ok k

abbrev put_900 : ℕ → Kernel → Outcome Kernel
put_900 d k = if not (d == 900) || k.ptable_lock then panic else ok k

abbrev Known : ℕ → Kernel → Type 0
Known fd k =
    (p : Proc) → get_elem? k.procs 1 ≡ some p → All (λ f. f ≢ 0 → f ≡ 700) p.ofile × (p.cwd ≡ 900)

kernel6-Known : Known 0 kernel6
kernel6-Known p at =
    subst (λ p. All (λ f. f ≢ 0 → f ≡ 700) p.ofile × (p.cwd ≡ 900)) (some-injective _ _ at)
      (
        (
          (λ z. refl),
          (
            (λ z. refl),
            (
              λ z. absurd (z refl),
              (
                λ z. absurd (z refl),
                (
                  λ z. absurd (z refl),
                  (
                    λ z. absurd (z refl),
                    (
                      λ z. absurd (z refl),
                      (
                        λ z. absurd (z refl),
                        (
                          λ z. absurd (z refl),
                          (
                            λ z. absurd (z refl),
                            (
                              λ z. absurd (z refl),
                              (
                                λ z. absurd (z refl),
                                (
                                  λ z. absurd (z refl),
                                  (
                                    λ z. absurd (z refl),
                                    (λ z. absurd (z refl), (λ z. absurd (z refl), tt)),
                                  ),
                                ),
                              ),
                            ),
                          ),
                        ),
                      ),
                    ),
                  ),
                ),
              ),
            ),
          ),
        ),
        refl,
      )

close_700-Closes : Closes Known close_700 1
close_700-Closes fd f k p known u n at g nz =
    let (files, dir) = known p at in
    let e = get_elem?-All (λ f. f ≢ 0 → f ≡ 700) p.ofile fd files g nz in
    (
      k,
      ground arith,
      record { current = refl; initproc = refl; lock = refl; ncli = refl; slot = refl },
      λ q at'.
          let same : clear_fd fd p ≡ q =
            some-injective _ _ (sym (get_elem?-modify_self k.procs 1 (clear_fd fd) at) ∙ at') in
          subst (λ p. All (λ f. f ≢ 0 → f ≡ 700) p.ofile × (p.cwd ≡ 900)) same
            (All-set (λ f. f ≢ 0 → f ≡ 700) p.ofile fd 0 (λ z. absurd (z refl)) files, dir),
    )

Known-Skips : Skips Known 1
Known-Skips fd k p known at z = known

put_900-Puts : Puts Known put_900 1
put_900-Puts k p known u n at =
    let (files, dir) = known p at in
    (
      k,
      ground arith,
      record { current = refl; initproc = refl; lock = refl; ncli = refl; slot = refl },
    )

exit-IsGone_example : (k' : Kernel) × (exit close_700 put_900 kernel6 ≡ ok k') × IsGone 1 2 k'
exit-IsGone_example =
    exit-IsGone Known close_700 put_900 1 kernel6 leaver close_700-Closes Known-Skips put_900-Puts
      kernel6-Known refl refl refl refl refl (omega arith)
