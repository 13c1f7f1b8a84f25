-- ===== src/Vm/Bits.antt =====
-- The bitwise `|` of vm.c on page table entries: an address of a page and flags below it.
use a.Base.{ℕ, zero, suc, ◌+◌, ◌-◌, ◌*◌, ◌/◌, ◌%◌, ◌^◌, ◌≤◌, ◌<◌, ◌≡◌, arith, subst}
use a.Kalloc.{page_size}
use a.Vm.{bit_or, new_pte}

-- `c * 2 ^ k`, in steps that arithmetic reads.
unfoldable shift : ℕ → ℕ → ℕ
shift zero c = c
shift (suc k) c = 2 * shift k c

bit_or_zero : (n a : ℕ) → a < shift n 1 → bit_or n a 0 ≡ a
unfolding bit_or shift
bit_or_zero zero a h = omega arith
bit_or_zero (suc n) a h = let r = bit_or_zero n (a / 2) (omega arith) in ground arith

bit_or_one : (n a : ℕ) → a < shift (suc n) 1 → bit_or (suc n) a 1 ≡ a - a % 2 + 1
unfolding bit_or shift
bit_or_one n a h = let r = bit_or_zero n (a / 2) (omega arith) in ground arith

-- Bits below those of `c * 2 ^ k` are added.
bit_or-shift :
    (n k c b : ℕ)
    → k ≤ n
    → shift k c < shift n 1
    → b < shift k 1
    → bit_or n (shift k c) b ≡ shift k c + b
unfolding bit_or shift
bit_or-shift zero zero c b l h s = omega arith
bit_or-shift zero (suc k) c b l h s = absurd (omega arith)
bit_or-shift (suc n) zero c b l h s = let r = bit_or_zero n (c / 2) (omega arith) in ground arith
bit_or-shift (suc n) (suc k) c b l h s =
    let r = bit_or-shift n k c (b / 2) (omega arith) (omega arith) (omega arith) in
    let half : 2 * shift k c / 2 ≡ shift k c = omega arith in rw half (ground arith)

-- A page's number and flags below 2^12.
pub bit_or-page : (p f : ℕ) → p % page_size ≡ 0 → p < 2 ^ 32 → f < page_size → bit_or 32 p f ≡ p + f
unfolding shift
bit_or-page p f a b c =
    let e : shift 12 (p / page_size) ≡ p = omega arith in
    subst (λ q. bit_or 32 q f ≡ q + f) e
      (bit_or-shift 32 12 (p / page_size) f (omega arith) (omega arith) (omega arith))

pub new_pte_lem :
    (pa perm : ℕ)
    → pa % page_size ≡ 0
    → pa < 2 ^ 32
    → perm < page_size
    → new_pte pa perm ≡ pa + (perm - perm % 2 + 1)
unfolding shift
new_pte_lem pa perm a b c =
    rw (bit_or-page pa perm a b c) (rw (bit_or_one 31 (pa + perm) (omega arith)) (omega arith))
