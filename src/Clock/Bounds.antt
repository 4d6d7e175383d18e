-- ===== src/Clock/Bounds.antt =====
-- What `Exponential.Next` computes, with and without a cap.
use native.Mathlib.Nat.{pow-suc, one-le-pow, mod-eq_of_lt}
use native.Mathlib.Decide.{dec_lt}
use flintlock_runner.Prelude.{
  ℕ, zero, suc, ◌*◌, ◌^◌, ◌≤◌, ◌<◌, ◌≡◌, arith, min, if◌then◌else◌, ltb, leb, ◌&&◌,
}
use flintlock_runner.Prelude.Words.{half64, mod64}
use flintlock_runner.Clock.{Exponential, doubling, next}

double-pow : (d n : ℕ) → d * 2 ^ suc n ≡ d * 2 * 2 ^ n
double-pow d n = rw (pow-suc 2 n) (omega arith)

le-double : (d n : ℕ) → d ≤ d * 2 ^ n
le-double d n = let one = one-le-pow n 2 (omega arith) in grind arith

-- One round, while the delay still fits.
doubling-suc :
    (e : Exponential) (n d : ℕ)
    → d * 2 < half64
    → 0 < d
    → e.max < half64
    → doubling e (suc n) d
      ≡ (if ltb 0 e.max && leb e.max (d * 2) then e.max else doubling e n (d * 2))
unfolding doubling
doubling-suc e n d h hd hm = rw (mod-eq_of_lt {n = d * 2} {m = mod64} (omega arith)) (ground arith)

doubling-over :
    (e : Exponential) (n d : ℕ)
    → half64 ≤ d * 2
    → d < half64
    → e.max < half64
    → doubling e (suc n) d ≡ e.max
unfolding doubling
doubling-over e n d h hd hm = ground arith

doubling-min :
    (e : Exponential) (n d : ℕ)
    → 0 < d
    → d < half64
    → 0 < e.max
    → e.max < half64
    → doubling e n d ≡ min e.max (d * 2 ^ n)
doubling-min e zero d hd hd' hm hm' = unfold doubling in ground arith
doubling-min e (suc n) d hd hd' hm hm' = elim (dec_lt (d * 2) half64) [
  | yes small ↦
      rw (doubling-suc e n d small hd hm', double-pow d n)
        (ground (arith, doubling-min e n (d * 2), le-double (d * 2) n))
  | no big ↦
      rw (doubling-over e n d (omega arith) hd' hm', double-pow d n)
        (omega (arith, le-double (d * 2) n))
]

-- For a positive base and cap that int64 holds, the delay before an attempt is the base doubled once
-- for each earlier attempt, or the cap if that is less. The wrap-around of the doubling never shows.
pub next-min :
    (e : Exponential) (attempt : ℕ)
    → 0 < e.base
    → e.base < half64
    → 0 < e.max
    → e.max < half64
    → attempt < half64
    → next e attempt ≡ min e.max (e.base * 2 ^ attempt)
unfolding next
next-min e attempt hb hb' hm hm' ha = ground (arith, doubling-min e attempt e.base)

doubling_uncapped :
    (e : Exponential) (n d : ℕ)
    → 0 < d
    → d < half64
    → e.max ≡ 0
    → doubling e n d ≡ (if ltb (d * 2 ^ n) half64 then d * 2 ^ n else 0)
doubling_uncapped e zero d hd hd' hm = unfold doubling in ground arith
doubling_uncapped e (suc n) d hd hd' hm = elim (dec_lt (d * 2) half64) [
  | yes small ↦
      rw (doubling-suc e n d small hd (omega arith), double-pow d n)
        (ground (arith, doubling_uncapped e n (d * 2)))
  | no big ↦
      rw (doubling-over e n d (omega arith) hd' (omega arith), double-pow d n)
        (ground (arith, le-double (d * 2) n))
]

-- With a cap of zero the delay doubles as long as int64 holds it, and from then on it is zero: the
-- retries that should be furthest apart do not wait at all.
pub next_uncapped :
    (e : Exponential) (attempt : ℕ)
    → 0 < e.base
    → e.base < half64
    → e.max ≡ 0
    → attempt < half64
    → next e attempt ≡ (if ltb (e.base * 2 ^ attempt) half64 then e.base * 2 ^ attempt else 0)
unfolding next
next_uncapped e attempt hb hb' hm ha = ground (arith, doubling_uncapped e attempt e.base)
