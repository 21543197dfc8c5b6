-- ===== src/Splitter/Power.antt =====
-- bsplitter_simple.go: the test of NewBlockSplitterSimple for a power of 2, `n & (n - 1) == 0`.
use Prim.Native.Nat.{min, digits, bit_and, bit_and-bitwise}
use angelkey_kbfsbeta.Prelude.{
  ℕ, zero, suc, ◌+◌, ◌-◌, ◌*◌, ◌/◌, ◌%◌, ◌^◌, ◌≤◌, ◌≡◌, refl, ◌⊎◌, inl, inr, arith, ◌==◌, ==_iff,
  Bool-cases, ℕ_discrete,
}
use angelkey_kbfsbeta.Splitter.{adjust_desired}

-- More digits to go than the number has change nothing.
enough_digits :
    (f : ℕ → ℕ → ℕ) (n m a b : ℕ)
    → a ≤ n
    → a ≤ m
    → digits (λ y. 0) f n a b ≡ digits (λ y. 0) f m a b
enough_digits f zero zero zero b p q = refl
enough_digits f zero (suc m) zero b p q = refl
enough_digits f (suc n) zero zero b p q = refl
enough_digits f (suc n) (suc m) zero b p q = refl
enough_digits f zero m (suc a) b p q = absurd (omega arith)
enough_digits f (suc n) zero (suc a) b p q = absurd (omega arith)
enough_digits f (suc n) (suc m) (suc a) b p q =
    rw (enough_digits f n m (suc a / 2) (b / 2) (omega arith) (omega arith)) refl

lowest_digit : (a b : ℕ) → bit_and a b ≡ bit_and (a / 2) (b / 2) * 2 + min (a % 2) (b % 2)
lowest_digit zero b = simp bit_and-bitwise (omega arith)
lowest_digit (suc a) b =
    simp bit_and-bitwise (
      omega
        (arith, enough_digits min a (suc a / 2) (suc a / 2) (b / 2) (omega arith) (omega arith)))

bit_and_same_below : (n a : ℕ) → a ≤ n → bit_and a a ≡ a
bit_and_same_below n zero h = simp bit_and-bitwise refl
bit_and_same_below zero (suc a) h = absurd (omega arith)
bit_and_same_below (suc n) (suc a) h =
    omega (arith, lowest_digit (suc a) (suc a), bit_and_same_below n (suc a / 2) (omega arith))

abbrev pub IsPowerOfTwo : ℕ → Type 0
IsPowerOfTwo d = (k : ℕ) × (d ≡ 2 ^ k)

power_below : (n d : ℕ) → d ≤ n → 1 ≤ d → bit_and d (d - 1) ≡ 0 → IsPowerOfTwo d
power_below zero d h p e = absurd (omega arith)
power_below (suc n) d h p e = elim (ℕ_discrete d 1) [
  | yes one ↦ (0, one)
  | no more ↦ elim (ℕ_discrete (d % 2) 0) [
    | yes even ↦
        let half : (d - 1) / 2 ≡ d / 2 - 1 = omega arith in
        let step = lowest_digit d (d - 1) in
        let zero_half : bit_and (d / 2) (d / 2 - 1) ≡ 0 = rw (← half) (omega arith) in
        let (k, q) = power_below n (d / 2) (omega arith) (omega arith) zero_half in
        let twice : d ≡ d / 2 * 2 = omega arith in (suc k, omega (arith, twice, q))
    | no odd ↦
        let half : (d - 1) / 2 ≡ d / 2 = omega arith in
        let step : bit_and d (d - 1) ≡ bit_and (d / 2) (d / 2) * 2 + min (d % 2) ((d - 1) % 2) =
          rw (lowest_digit d (d - 1), half) refl in
        absurd (omega (arith, step, bit_and_same_below d (d / 2) (omega arith)))
  ]
]

bit_and_power : (k : ℕ) → bit_and (2 ^ k) (2 ^ k - 1) ≡ 0
bit_and_power zero = refl
bit_and_power (suc k) =
    let double : 2 ^ suc k ≡ 2 ^ k * 2 = omega arith in
    let half : 2 ^ suc k / 2 ≡ 2 ^ k = omega arith in
    let rest : (2 ^ suc k - 1) / 2 ≡ 2 ^ k - 1 = omega arith in
    rw (lowest_digit (2 ^ suc k) (2 ^ suc k - 1), half, rest, bit_and_power k) (omega arith)

-- The desired size less one if it is a power of 2, and itself otherwise.
abbrev pub IsAdjusted : ℕ → ℕ → Type 0
IsAdjusted d goal = IsPowerOfTwo d × (goal ≡ d - 1) ⊎ (¬ IsPowerOfTwo d) × (goal ≡ d)

pub adjust_desired-IsAdjusted : (d : ℕ) → 1 ≤ d → IsAdjusted d (adjust_desired d)
unfolding adjust_desired
adjust_desired-IsAdjusted d p = elim (Bool-cases (bit_and d (d - 1) == 0)) [
  | inl e ↦ rw e (inl (power_below d d (omega arith) p ((==_iff (bit_and d (d - 1)) 0).0 e), refl))
  | inr e ↦ rw e (
      inr (
        λ (k, q).
            let z : bit_and d (d - 1) ≡ 0 = rw q (bit_and_power k) in
            absurd (cc (e, (==_iff (bit_and d (d - 1)) 0).1 z)),
        refl,
      ))
]
