-- ===== src/Substrate/Tests/Fixed.antt =====
-- Fixed point numbers with six digits, cut off towards 0, meet what the theorems ask of floats.
use native.Mathlib.Nat.{mul-div_cancel_left, div-lt_iff_lt-mul, lt-mul-div-succ, mul-le-mul_right}
use mathlib.Core.Path.{subst}
use subnet_llm_template.Prelude.{
  ℕ, zero, suc, ◌+◌, ◌*◌, ◌/◌, ◌-◌, ◌≤◌, ◌≡◌, refl, sym, ap, Option, none, some, arith,
}
use subnet_llm_template.Prelude.Int.{ℤ, pos, negsuc, ◌+ℤ◌, ◌-ℤ◌, ◌≤ℤ◌, int_laws, eq_of_parts}
use subnet_llm_template.Substrate.Scores.Shares.{Floats}
use subnet_llm_template.Substrate.Scores.Limits.{IsRounding}

abbrev pub neg : ℕ → ℤ
neg zero = pos 0
neg (suc n) = negsuc n

-- A number with the sign of an integer.
abbrev pub over : ℤ → ℕ → ℤ
over (pos a) n = pos (a / n)
over (negsuc a) n = neg (suc a / n)

abbrev pub times : ℤ → ℤ → ℤ
times (pos a) (pos b) = pos (a * b)
times (pos a) (negsuc b) = neg (a * suc b)
times (negsuc a) (pos b) = neg (suc a * b)
times (negsuc a) (negsuc b) = pos (suc a * suc b)

abbrev divide : ℤ → ℤ → Option ℤ
divide a (pos zero) = none
divide a (pos (suc n)) = some (over (times a (pos 1000000)) (suc n))
divide a (negsuc n) = some (over (times a (negsuc 999999)) (suc n))

abbrev pub fixed : Floats
fixed = record {
  Float = ℤ;
  div = divide;
  of_int = λ n. times n (pos 1000000);
  add = λ p q. p +ℤ q;
  sub = λ p q. p -ℤ q;
  mul = λ p q. over (times p q) 1000000;
  penalty = pos 330000;
  int = λ p. over p 1000000;
}

div_mono : (a b n : ℕ) → a ≤ b → a / suc n ≤ b / suc n
div_mono a b n h =
    let below = (div-lt_iff_lt-mul {k = suc n} {x = a} {y = b / suc n + 1} (omega arith)).1 in
    omega (arith, below (omega (arith, lt-mul-div-succ b {b = suc n} (omega arith))))

some_inj : {a b : ℕ} → some (pos a) ≡ some (pos b) → a ≡ b
some_inj e = cc

div-le :
    (a b n : ℕ) (p q : ℤ)
    → a ≤ b
    → divide (pos a) (pos (suc n)) ≡ some p
    → divide (pos b) (pos (suc n)) ≡ some q
    → p ≤ℤ q
div-le a b n (pos p) (pos q) h e r =
    omega (arith, div_mono (a * 1000000) (b * 1000000) n (omega arith), some_inj e, some_inj r)
div-le a b n (negsuc p) q h e r = absurd (cc)
div-le a b n (pos p) (negsuc q) h e r = absurd (cc)

mul-le :
    (p q : ℤ) (n : ℕ)
    → pos 0 ≤ℤ p
    → p ≤ℤ q
    → over (times p (pos (n * 1000000))) 1000000 ≤ℤ over (times q (pos (n * 1000000))) 1000000
mul-le (pos p) (pos q) n low h =
    omega (arith, mul-le-mul_right {m = p} {n = q} (n * 1000000) (omega arith))
mul-le (negsuc p) q n low h = absurd (omega arith)
mul-le (pos p) (negsuc q) n low h = absurd (omega arith)

mul_pos : (p q : ℤ) → pos 0 ≤ℤ p → pos 0 ≤ℤ q → pos 0 ≤ℤ over (times p q) 1000000
mul_pos (pos p) (pos q) h k = omega arith
mul_pos (negsuc p) q h k = absurd (omega arith)
mul_pos (pos p) (negsuc q) h k = absurd (omega arith)

neg-le : (a b : ℕ) → b ≤ a → neg a ≤ℤ neg b
neg-le zero zero h = omega arith
neg-le zero (suc b) h = absurd (omega arith)
neg-le (suc a) zero h = omega arith
neg-le (suc a) (suc b) h = omega arith

neg-le_pos : (a b : ℕ) → neg a ≤ℤ pos b
neg-le_pos zero b = omega arith
neg-le_pos (suc a) b = omega arith

int-le : (p q : ℤ) → p ≤ℤ q → over p 1000000 ≤ℤ over q 1000000
int-le (pos p) (pos q) h = omega arith
int-le (pos p) (negsuc q) h = absurd (omega arith)
int-le (negsuc p) (pos q) h = neg-le_pos (suc p / 1000000) (q / 1000000)
int-le (negsuc p) (negsuc q) h = neg-le (suc p / 1000000) (suc q / 1000000) (omega arith)

pos-sub : (a b : ℕ) → b ≤ a → pos a -ℤ pos b ≡ pos (a - b)
pos-sub a b h = eq_of_parts _ _ (omega int_laws)

penalized :
    (n : ℕ)
    → let less = over (pos (n * 1000000) -ℤ pos (n * 1000000 * 330000 / 1000000)) 1000000 in
      (pos 0 ≤ℤ less) × (less ≤ℤ pos n)
penalized n =
    let lost = n * 1000000 * 330000 / 1000000 in
    subst (λ z. (pos 0 ≤ℤ over z 1000000) × (over z 1000000 ≤ℤ pos n))
      (sym (pos-sub (n * 1000000) lost (omega arith))) (omega arith, omega arith)

pub fixed-IsRounding : IsRounding fixed
fixed-IsRounding = record {
  le = λ p q. p ≤ℤ q;
  div_pos = λ a n. (pos (a * 1000000 / suc n), refl, omega arith);
  div_self = λ n. ap (λ z. some (pos z)) (mul-div_cancel_left 1000000 {n = suc n} (omega arith));
  div-le = div-le;
  of_int-le = λ n. omega arith;
  add_pos = λ p q h k. omega int_laws;
  mul_pos = mul_pos;
  mul-le = mul-le;
  one_mul = λ n. ap pos (mul-div_cancel_left (n * 1000000) {n = 1000000} (omega arith));
  int-le = int-le;
  int-of_int = λ n h. ap pos (omega arith);
  penalized = penalized;
}
