-- ===== src/Monitor/Intervals.antt =====
-- internal/monitor/monitor.go, `intervalToDuration` and the comparisons with it, for timeouts that
-- fit into 64 bits.
use croncontrol.Prelude.{
  ℕ, ◌+◌, ◌*◌, ◌<◌, int64, int64_pos, saturate64, ltb-saturate64, pos-mul, pos-add, ltb_ℤ, ◌+ℤ◌,
  ◌*ℤ◌, ◌≡◌, refl, ◌↔◌, ℤ, pos, negsuc, ◌-ℤ◌, ◌<ℤ◌, false, Option, none, some, ◌&&◌, ap, subst,
  ◌≤ℤ◌, arith,
}
use croncontrol.Store.{Interval}
use croncontrol.Monitor.{interval_to_duration, exceeded}

-- The length of an interval in nanoseconds, exactly; a month is 30 days.
abbrev pub nanoseconds : Interval → ℤ
nanoseconds iv =
    iv.microseconds *ℤ pos 1000
    +ℤ iv.days *ℤ pos 86400000000000
    +ℤ iv.months *ℤ pos 2592000000000000

-- A timeout, where there is one, that has no negative part, and is shorter than the largest 64-bit
-- number of nanoseconds (about 292 years).
abbrev pub IsShort : Option Interval → Type 0
IsShort none = Unit
IsShort (some iv) =
    (pos 0 ≤ℤ iv.microseconds)
    × (pos 0 ≤ℤ iv.days)
    × (pos 0 ≤ℤ iv.months)
    × (nanoseconds iv <ℤ pos 9223372036854775807)

-- The interval is positive, and more time has gone by.
abbrev pub Passed : Interval → ℤ → ℤ → Type 0
Passed iv from t = (pos 0 <ℤ nanoseconds iv) × (nanoseconds iv <ℤ t -ℤ from)

abbrev plain : ℤ → ℤ → ℤ → ℤ
plain u d m = u *ℤ pos 1000 +ℤ d *ℤ pos 86400000000000 +ℤ m *ℤ pos 2592000000000000

abbrev wrapped : ℤ → ℤ → ℤ → ℤ
wrapped u d m = int64 (
    int64 (int64 (u *ℤ pos 1000) +ℤ int64 (int64 (d *ℤ pos 24) *ℤ pos 3600000000000))
    +ℤ int64 (int64 (int64 (m *ℤ pos 30) *ℤ pos 24) *ℤ pos 3600000000000))

plain_lem :
    (u d m : ℕ)
    → plain (pos u) (pos d) (pos m) ≡ pos (u * 1000 + d * 86400000000000 + m * 2592000000000000)
unfolding ◌+ℤ◌ ◌*ℤ◌
plain_lem u d m = ground arith

wrapped_lem :
    (u d m : ℕ)
    → u * 1000 + d * 86400000000000 + m * 2592000000000000 < 9223372036854775807
    → wrapped (pos u) (pos d) (pos m) ≡ pos (u * 1000 + d * 86400000000000 + m * 2592000000000000)
wrapped_lem u d m h =
    rw
      (
        pos-mul u 1000,
        int64_pos (u * 1000) (omega arith),
        pos-mul d 24,
        int64_pos (d * 24) (omega arith),
        pos-mul (d * 24) 3600000000000,
        int64_pos (d * 24 * 3600000000000) (omega arith),
        pos-mul m 30,
        int64_pos (m * 30) (omega arith),
        pos-mul (m * 30) 24,
        int64_pos (m * 30 * 24) (omega arith),
        pos-mul (m * 30 * 24) 3600000000000,
        int64_pos (m * 30 * 24 * 3600000000000) (omega arith),
        pos-add (u * 1000) (d * 24 * 3600000000000),
        int64_pos (u * 1000 + d * 24 * 3600000000000) (omega arith),
        pos-add (u * 1000 + d * 24 * 3600000000000) (m * 30 * 24 * 3600000000000),
        int64_pos (u * 1000 + d * 24 * 3600000000000 + m * 30 * 24 * 3600000000000) (omega arith),
      )
      (ap pos (omega arith))

-- Nothing wraps in a short interval.
wrapped-plain :
    (u d m : ℤ)
    → pos 0 ≤ℤ u
    → pos 0 ≤ℤ d
    → pos 0 ≤ℤ m
    → plain u d m <ℤ pos 9223372036854775807
    → (n : ℕ) × (wrapped u d m ≡ pos n) × (plain u d m ≡ pos n) × n < 9223372036854775807
wrapped-plain (pos u) (pos d) (pos m) hu hd hm h =
    let small = subst (λ x. x <ℤ pos 9223372036854775807) (plain_lem u d m) h in
    (_, wrapped_lem u d m (omega (arith, small)), plain_lem u d m, omega (arith, small))
wrapped-plain (negsuc u) d m hu hd hm h = absurd (omega (arith, hu))
wrapped-plain (pos u) (negsuc d) m hu hd hm h = absurd (omega (arith, hd))
wrapped-plain (pos u) (pos d) (negsuc m) hu hd hm h = absurd (omega (arith, hm))

below :
    (n : ℕ) (d : ℤ)
    → n < 9223372036854775807
    → ltb_ℤ (pos 0) (pos n) && ltb_ℤ (pos n) (saturate64 d)
      ≡ ltb_ℤ (pos 0) (pos n) && ltb_ℤ (pos n) d
below n d h = rw (ltb-saturate64 n d h) refl

exceeded_lem :
    (iv : Interval) (from t : ℤ)
    → IsShort (some iv)
    → exceeded (some iv) from t
      ≡ ltb_ℤ (pos 0) (nanoseconds iv) && ltb_ℤ (nanoseconds iv) (t -ℤ from)
unfolding exceeded interval_to_duration
exceeded_lem iv from t (hu, hd, hm, h) =
    let (n, w, p, small) = wrapped-plain iv.microseconds iv.days iv.months hu hd hm h in
    rw (w, p) (below n (t -ℤ from) small)

both_false : (a b : ℤ) (d : ℤ) → (ltb_ℤ a b && ltb_ℤ b d ≡ false) ↔ (¬ ((a <ℤ b) × (b <ℤ d)))
both_false a b d = (λ e q. ground (arith, q), λ h. ground (arith, h))

pub not_exceeded :
    (o : Option Interval) (from t : ℤ)
    → IsShort o
    → (exceeded o from t ≡ false) ↔ ((iv : Interval) → o ≡ some iv → ¬ Passed iv from t)
unfolding exceeded
not_exceeded none from t short = (λ e iv q. cc, λ h. refl)
not_exceeded (some iv) from t short = rw (exceeded_lem iv from t short) (
  λ e x q.
      subst (λ y. ¬ Passed y from t) (some_inj q)
        ((both_false (pos 0) (nanoseconds iv) (t -ℤ from)).0 e),
  λ h. (both_false (pos 0) (nanoseconds iv) (t -ℤ from)).1 (h iv refl),
)
  where
    some_inj : {x y : Interval} → some x ≡ some y → x ≡ y
    some_inj e = cc
