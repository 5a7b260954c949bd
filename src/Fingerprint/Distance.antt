-- ===== src/Fingerprint/Distance.antt =====
-- The distance of two hashes.
use Prim.Native.Nat.{bit_xor, bit_xor-bitwise, digits, differ}
use ig_anonymous_monitor.Base.{ℕ, zero, suc, ◌/◌, ◌%◌, ◌≤◌, ◌≡◌, refl, arith}
use ig_anonymous_monitor.Fingerprint.{hash_distance}

differ_comm : (x y : ℕ) → differ x y ≡ differ y x
differ_comm zero zero = refl
differ_comm zero (suc y) = refl
differ_comm (suc x) zero = refl
differ_comm (suc x) (suc y) = differ_comm x y

differ-le : (x y k : ℕ) → x ≤ k → y ≤ k → differ x y ≤ k
differ-le zero y k h g = g
differ-le (suc x) zero k h g = h
differ-le (suc x) (suc y) k h g =
    let smaller = differ-le x y k (omega arith) (omega arith) in smaller

abbrev xor_digits : ℕ → ℕ → ℕ → ℕ
xor_digits = digits (λ b. b) differ

xor-xor_digits : (a b : ℕ) → bit_xor a b ≡ xor_digits a a b
xor-xor_digits a b = λ i. bit_xor-bitwise a b i

differ_zero : (x : ℕ) → differ x 0 ≡ x
differ_zero zero = refl
differ_zero (suc x) = refl

xor_digits-zero : (n a : ℕ) → a ≤ n → xor_digits n a 0 ≡ a
xor_digits-zero zero a h = omega arith
xor_digits-zero (suc n) zero h = refl
xor_digits-zero (suc n) (suc a) h =
    omega (arith, xor_digits-zero n (suc a / 2) (omega arith), differ_zero (suc a % 2))

xor_digits_comm : (n m a b : ℕ) → a ≤ n → b ≤ m → xor_digits n a b ≡ xor_digits m b a
xor_digits_comm zero zero zero zero h g = refl
xor_digits_comm zero zero zero (suc b) h g = absurd (omega arith)
xor_digits_comm zero zero (suc a) b h g = absurd (omega arith)
xor_digits_comm zero (suc m) (suc a) b h g = absurd (omega arith)
xor_digits_comm zero (suc m) zero zero h g = refl
xor_digits_comm zero (suc m) zero (suc b) h g = omega (arith, xor_digits-zero (suc m) (suc b) g)
xor_digits_comm (suc n) m zero b h g = omega (arith, xor_digits-zero m b g)
xor_digits_comm (suc n) zero (suc a) zero h g = xor_digits-zero (suc n) (suc a) h
xor_digits_comm (suc n) zero (suc a) (suc b) h g = absurd (omega arith)
xor_digits_comm (suc n) (suc m) (suc a) zero h g = xor_digits-zero (suc n) (suc a) h
xor_digits_comm (suc n) (suc m) (suc a) (suc b) h g = omega (
  arith,
  xor_digits_comm n m (suc a / 2) (suc b / 2) (omega arith) (omega arith),
  differ_comm (suc a % 2) (suc b % 2),
)

pub hash_distance_comm : (a b : ℕ) → hash_distance a b ≡ hash_distance b a
unfolding hash_distance
hash_distance_comm a b =
    rw (xor-xor_digits a b, xor-xor_digits b a, xor_digits_comm a b a b (omega arith) (omega arith))
      refl
