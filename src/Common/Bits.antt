-- ===== src/Common/Bits.antt =====
-- `|`, `&` and `^` on words at variables: the equation of the lowest digit, and bounds by it.
use Prim.Native.Nat.{ℕ, zero, suc, ◌+◌, ◌*◌, ◌/◌, ◌%◌, ◌^◌, ◌≤◌, ◌<◌, min, max}
use Prim.Native.Nat.{bit_and, bit_or, digits, bitwise}
use Prim.Native.Nat.{bit_and-bitwise, bit_or-bitwise}
use mathlib.Core.Path.{◌≡◌, ◌∙◌, refl, sym, ap}
use native.Mathlib.Nat.{le_refl, pow-suc}
use native.Mathlib.Omega.{arith}

-- `digits` with `rest` for the digits behind the first number's last one, and `op` for a digit.
module _ (rest : ℕ → ℕ) (op : ℕ → ℕ → ℕ) where
  digits-zero : (fuel y : ℕ) → digits rest op fuel 0 y ≡ rest y
  digits-zero zero y = refl
  digits-zero (suc fuel) y = refl

  -- Any two fuels that cover the first number agree.
  enough_fuel : {i j : ℕ} (x y : ℕ) → x ≤ i → x ≤ j → digits rest op i x y ≡ digits rest op j x y
  enough_fuel {i = i} {j = j} zero y hi hj = digits-zero i y ∙ sym (digits-zero j y)
  enough_fuel {i = zero} (suc x) y hi hj = elim hi [ ]
  enough_fuel {i = suc i} {j = zero} (suc x) y hi hj = elim hj [ ]
  enough_fuel {i = suc i} {j = suc j} (suc x) y hi hj =
      let high = enough_fuel {i = i} {j = j} (suc x / 2) (y / 2) (omega arith) (omega arith) in
      omega (arith, high)

  -- The equation of the lowest digit, from the same for `rest`.
  bitwise_step :
      ((y : ℕ) → rest y ≡ rest (y / 2) * 2 + op 0 (y % 2))
      → (x y : ℕ) → bitwise rest op x y ≡ bitwise rest op (x / 2) (y / 2) * 2 + op (x % 2) (y % 2)
  bitwise_step h zero y = h y
  bitwise_step h (suc x) y =
      let half : suc x / 2 ≤ x = omega arith in
      let high = enough_fuel {i = x} (suc x / 2) (y / 2) half (le_refl (suc x / 2)) in
      omega (arith, high)

pub bit_and_step : (a b : ℕ) → bit_and a b ≡ bit_and (a / 2) (b / 2) * 2 + min (a % 2) (b % 2)
bit_and_step a b =
    rw (bit_and-bitwise a b, bit_and-bitwise (a / 2) (b / 2))
      (bitwise_step (λ y. 0) min (λ y. omega arith) a b)

pub bit_or_step : (a b : ℕ) → bit_or a b ≡ bit_or (a / 2) (b / 2) * 2 + max (a % 2) (b % 2)
bit_or_step a b =
    rw (bit_or-bitwise a b, bit_or-bitwise (a / 2) (b / 2))
      (bitwise_step (λ y. y) max (λ y. omega arith) a b)

zero-bit_and : (b : ℕ) → bit_and 0 b ≡ 0
zero-bit_and b = bit_and-bitwise 0 b

bit_or-zero_fuel : (n a : ℕ) → a ≤ n → bit_or a 0 ≡ a
bit_or-zero_fuel n zero h = refl
bit_or-zero_fuel zero (suc a) h = absurd (omega arith)
bit_or-zero_fuel (suc n) (suc a) h =
    omega (arith, bit_or_step (suc a) 0, bit_or-zero_fuel n (suc a / 2) (omega arith))

-- `q << k | r` is a sum when `r` has `k` bits at most.
pub bit_or-add : (k q r : ℕ) → r < 2 ^ k → bit_or (q * 2 ^ k) r ≡ q * 2 ^ k + r
bit_or-add zero q r h = ground (arith, bit_or-zero_fuel q q (le_refl q))
bit_or-add (suc k) q r h = ground (
  arith,
  bit_or_step (q * 2 ^ suc k) r,
  ap (λ (t : ℕ). q * t) (pow-suc 2 k),
  pow-suc 2 k,
  bit_or-add k q (r / 2) (omega (arith, pow-suc 2 k)),
)

-- A mask without the lowest bit leaves an even number.
pub bit_and_even : (a m : ℕ) → bit_and a (m * 2) % 2 ≡ 0
bit_and_even a m = omega (arith, bit_and_step a (m * 2))

bit_and-le_fuel : (n a b : ℕ) → a ≤ n → bit_and a b ≤ b
bit_and-le_fuel n zero b h = omega (arith, zero-bit_and b)
bit_and-le_fuel zero (suc a) b h = absurd (omega arith)
bit_and-le_fuel (suc n) (suc a) b h =
    omega (arith, bit_and_step (suc a) b, bit_and-le_fuel n (suc a / 2) (b / 2) (omega arith))

-- A mask only takes bits away.
pub bit_and-le : (a b : ℕ) → bit_and a b ≤ b
bit_and-le a b = bit_and-le_fuel a a b (le_refl a)

zero-bit_or : (b : ℕ) → bit_or 0 b ≡ b
zero-bit_or b = bit_or-bitwise 0 b

bit_or_comm_fuel : (n a b : ℕ) → a ≤ n → bit_or a b ≡ bit_or b a
bit_or_comm_fuel n zero b h = omega (arith, zero-bit_or b, bit_or-zero_fuel b b (le_refl b))
bit_or_comm_fuel zero (suc a) b h = absurd (omega arith)
bit_or_comm_fuel (suc n) (suc a) b h = omega (
  arith,
  bit_or_step (suc a) b,
  bit_or_step b (suc a),
  bit_or_comm_fuel n (suc a / 2) (b / 2) (omega arith),
)

pub bit_or_comm : (a b : ℕ) → bit_or a b ≡ bit_or b a
bit_or_comm a b = bit_or_comm_fuel a a b (le_refl a)

-- The same with the low bits on the left.
pub add-bit_or : (k q r : ℕ) → r < 2 ^ k → bit_or r (q * 2 ^ k) ≡ r + q * 2 ^ k
add-bit_or k q r h = omega (arith, bit_or_comm r (q * 2 ^ k), bit_or-add k q r h)

-- `b | b << 8 | b << 16 | b << 24` and the like: bytes side by side are a sum.
pub bytes-add :
    (a b c d : ℕ)
    → a < 256
    → b < 256
    → c < 256
    → bit_or (bit_or (bit_or a (b * 2 ^ 8)) (c * 2 ^ 16)) (d * 2 ^ 24)
      ≡ a + b * 2 ^ 8 + c * 2 ^ 16 + d * 2 ^ 24
bytes-add a b c d ha hb hc = rw (
  add-bit_or 8 b a ha,
  add-bit_or 16 c (a + b * 2 ^ 8) (omega arith),
  add-bit_or 24 d (a + b * 2 ^ 8 + c * 2 ^ 16) (omega arith),
)
