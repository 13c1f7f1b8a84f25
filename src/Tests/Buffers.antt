-- ===== src/Tests/Buffers.antt =====
-- The cache of disk blocks at fixed inputs.
use a.Base.{zero, suc, ◌≡◌, refl, ap, true, false, [], ◌∷◌, arith, some-injective}
use a.Bio.{Buf, Bcache, bget}
use a.Bio.Blocks.{IsBcache, BgetOk, bget-BgetOk}

abbrev buf0 : Buf
buf0 = record {
  id = 0;
  valid = true;
  dirty = false;
  dev = 1;
  blockno = 5;
  locked = false;
  refcnt = 1;
}

abbrev buf1 : Buf
buf1 = record buf0 { id = 1; blockno = 6; refcnt = 0 }

abbrev bcache0 : Bcache
bcache0 = record { lock = false; buf = buf0 ∷ buf1 ∷ [] }

-- Two buffers of different blocks.
bcache0-IsBcache : IsBcache bcache0.buf
bcache0-IsBcache zero zero x y g h u s = refl
bcache0-IsBcache zero (suc zero) x y g h u (d, n) =
    let p : 5 ≡ x.blockno = ap (λ b. b.blockno) (some-injective _ _ g) in
    let q : 6 ≡ y.blockno = ap (λ b. b.blockno) (some-injective _ _ h) in
    absurd (omega (arith, n, p, q))
bcache0-IsBcache zero (suc (suc j)) x y g h u s = cc
bcache0-IsBcache (suc zero) zero x y g h u (d, n) =
    let p : 6 ≡ x.blockno = ap (λ b. b.blockno) (some-injective _ _ g) in
    let q : 5 ≡ y.blockno = ap (λ b. b.blockno) (some-injective _ _ h) in
    absurd (omega (arith, n, p, q))
bcache0-IsBcache (suc zero) (suc zero) x y g h u s = refl
bcache0-IsBcache (suc zero) (suc (suc j)) x y g h u s = cc
bcache0-IsBcache (suc (suc i)) j x y g h u s = cc

bget-BgetOk_example : BgetOk 1 7 bcache0 (bget 1 7 bcache0)
bget-BgetOk_example = bget-BgetOk 1 7 bcache0 (omega arith) bcache0-IsBcache refl
