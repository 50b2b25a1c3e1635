-- ===== src/TransportTcp/Digits.antt =====
-- When the bit operations of the comparison in src/transport_tcp.rs give 0.
use Prim.Native.Nat.{max, differ, digits, bit_or-bitwise, bit_xor-bitwise}
use horsie_actor.Base.{
  ℕ, zero, suc, ◌/◌, ◌%◌, ◌≤◌, ◌≡◌, ◌↔◌, refl, ◌∙◌, sym, bit_or, bit_xor, arith,
}

differ-zero : (x y : ℕ) → differ x y ≡ 0 → x ≡ y
differ-zero zero y h = omega arith
differ-zero (suc x) zero h = absurd (omega arith)
differ-zero (suc x) (suc y) h = omega (arith, differ-zero x y h)

differ_self : (x : ℕ) → differ x x ≡ 0
differ_self zero = refl
differ_self (suc x) = differ_self x

xor_digits-zero : (n a b : ℕ) → a ≤ n → digits (λ b. b) differ n a b ≡ 0 → a ≡ b
xor_digits-zero zero zero b f h = sym h
xor_digits-zero zero (suc a) b f h = absurd (omega arith)
xor_digits-zero (suc n) zero b f h = sym h
xor_digits-zero (suc n) (suc a) b f h =
    let high : suc a / 2 ≡ b / 2 =
      xor_digits-zero n (suc a / 2) (b / 2) (omega arith) (omega (arith, h)) in
    let low : suc a % 2 ≡ b % 2 = differ-zero (suc a % 2) (b % 2) (omega (arith, h)) in
    omega (arith, high, low)

xor_digits_self : (n a : ℕ) → a ≤ n → digits (λ b. b) differ n a a ≡ 0
xor_digits_self zero zero f = refl
xor_digits_self zero (suc a) f = absurd (omega arith)
xor_digits_self (suc n) zero f = refl
xor_digits_self (suc n) (suc a) f =
    omega (arith, xor_digits_self n (suc a / 2) (omega arith), differ_self (suc a % 2))

pub bit_xor-zero : (a b : ℕ) → (bit_xor a b ≡ 0) ↔ (a ≡ b)
bit_xor-zero a b = (
  λ h. xor_digits-zero a a b (omega arith) (sym (bit_xor-bitwise a b) ∙ h),
  λ e. rw (← e) (bit_xor-bitwise a a ∙ xor_digits_self a a (omega arith)),
)

or_digits-zero : (n a b : ℕ) → a ≤ n → digits (λ b. b) max n a b ≡ 0 → (a ≡ 0) × (b ≡ 0)
or_digits-zero zero zero b f h = (refl, h)
or_digits-zero zero (suc a) b f h = absurd (omega arith)
or_digits-zero (suc n) zero b f h = (refl, h)
or_digits-zero (suc n) (suc a) b f h =
    let high = or_digits-zero n (suc a / 2) (b / 2) (omega arith) (omega (arith, h)) in
    absurd (omega (arith, high.0, h))

pub bit_or-zero : (a b : ℕ) → (bit_or a b ≡ 0) ↔ ((a ≡ 0) × (b ≡ 0))
bit_or-zero a b = (
  λ h. or_digits-zero a a b (omega arith) (sym (bit_or-bitwise a b) ∙ h),
  λ e. rw (e.0, e.1) refl,
)
