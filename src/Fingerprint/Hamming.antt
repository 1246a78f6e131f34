-- ===== src/Fingerprint/Hamming.antt =====
-- `_hamming` of veriproof/services/image_fingerprint.py counts the bits that differ.
use Prim.Native.Nat.{bit_xor, bit_xor-bitwise, digits, differ}
use veri_proof_hackerton.Prelude.{
  ℕ, zero, suc, ◌+◌, ◌*◌, ◌/◌, ◌%◌, ◌≤◌, Bool, true, false, List, [], ◌∷◌, ◌≡◌, refl, sym, ap, ◌∙◌,
  arith, length,
}
use veri_proof_hackerton.Fingerprint.{
  digit, bits_after, bits_to_int, count_digits, bit_count, hamming,
}

abbrev xor_digits : ℕ → ℕ → ℕ → ℕ
xor_digits = digits (λ b. b) differ

-- More fuel than the number changes nothing.
xor_digits_fuel : (n m a b : ℕ) → a ≤ n → a ≤ m → xor_digits n a b ≡ xor_digits m a b
xor_digits_fuel zero zero a b h k = refl
xor_digits_fuel zero (suc m) zero b h k = refl
xor_digits_fuel zero (suc m) (suc a) b h k = absurd (omega (arith, h))
xor_digits_fuel (suc n) zero zero b h k = refl
xor_digits_fuel (suc n) zero (suc a) b h k = absurd (omega (arith, k))
xor_digits_fuel (suc n) (suc m) zero b h k = refl
xor_digits_fuel (suc n) (suc m) (suc a) b h k =
    ap (λ x. x * 2 + differ (suc a % 2) (b % 2))
      (xor_digits_fuel n m (suc a / 2) (b / 2) (omega (arith, h)) (omega (arith, k)))

count_digits_fuel : (n m a : ℕ) → a ≤ n → a ≤ m → count_digits n a ≡ count_digits m a
count_digits_fuel zero zero a h k = refl
count_digits_fuel zero (suc m) zero h k = refl
count_digits_fuel zero (suc m) (suc a) h k = absurd (omega (arith, h))
count_digits_fuel (suc n) zero zero h k = refl
count_digits_fuel (suc n) zero (suc a) h k = absurd (omega (arith, k))
count_digits_fuel (suc n) (suc m) zero h k = refl
count_digits_fuel (suc n) (suc m) (suc a) h k =
    ap (λ x. x + suc a % 2)
      (count_digits_fuel n m (suc a / 2) (omega (arith, h)) (omega (arith, k)))

count_digit : (k a : ℕ) (x : Bool) → k ≡ a * 2 + digit x → bit_count k ≡ bit_count a + digit x
count_digit zero zero false e = refl
count_digit zero a true e = absurd (omega (arith, e))
count_digit zero (suc a) false e = absurd (omega (arith, e))
count_digit (suc k) a false e =
    ap (λ y. count_digits k y + suc k % 2) (omega (arith, e))
    ∙ ap (λ y. y + suc k % 2) (count_digits_fuel k a a (omega (arith, e)) (omega arith))
    ∙ ap (λ y. bit_count a + y) (omega (arith, e))
count_digit (suc k) a true e =
    ap (λ y. count_digits k y + suc k % 2) (omega (arith, e))
    ∙ ap (λ y. y + suc k % 2) (count_digits_fuel k a a (omega (arith, e)) (omega arith))
    ∙ ap (λ y. bit_count a + y) (omega (arith, e))

-- The last binary digit of an exclusive or is that of the last digits.
xor_digit :
    (k m a b : ℕ) (x y : Bool)
    → k ≡ a * 2 + digit x
    → m ≡ b * 2 + digit y
    → xor_digits k k m ≡ xor_digits a a b * 2 + differ (digit x) (digit y)
xor_digit zero m zero b false y e f = omega (arith, f)
xor_digit zero m a b true y e f = absurd (omega (arith, e))
xor_digit zero m (suc a) b false y e f = absurd (omega (arith, e))
xor_digit (suc k) m a b x y e f =
    let halved : suc k / 2 ≡ a = half (suc k) a x e in
    let halved' : m / 2 ≡ b = half m b y f in
    let last : suc k % 2 ≡ digit x = rest (suc k) a x e in
    let last' : m % 2 ≡ digit y = rest m b y f in
    ap (λ z. xor_digits k z (m / 2) * 2 + differ (suc k % 2) (m % 2)) halved
    ∙ ap (λ z. xor_digits k a z * 2 + differ (suc k % 2) (m % 2)) halved'
    ∙ ap (λ z. z * 2 + differ (suc k % 2) (m % 2))
        (xor_digits_fuel k a a b (below x e) (omega arith))
    ∙ ap (λ z. xor_digits a a b * 2 + differ z (m % 2)) last
    ∙ ap (λ z. xor_digits a a b * 2 + differ (digit x) z) last'
  where
    half : (n c : ℕ) (z : Bool) → n ≡ c * 2 + digit z → n / 2 ≡ c
    half n c true e = omega (arith, e)
    half n c false e = omega (arith, e)

    rest : (n c : ℕ) (z : Bool) → n ≡ c * 2 + digit z → n % 2 ≡ digit z
    rest n c true e = omega (arith, e)
    rest n c false e = omega (arith, e)

    below : (z : Bool) → suc k ≡ a * 2 + digit z → a ≤ k
    below true e = omega (arith, e)
    below false e = omega (arith, e)

abbrev differs : Bool → Bool → Bool
differs false y = y
differs true false = true
differs true true = false

differ-digit : (x y : Bool) → differ (digit x) (digit y) ≡ digit (differs x y)
differ-digit false y = refl
differ-digit true false = refl
differ-digit true true = refl

xor-bitwise : (a b : ℕ) → bit_xor a b ≡ xor_digits a a b
xor-bitwise a b = λ i. bit_xor-bitwise a b i

hamming_zero : hamming 0 0 ≡ 0
unfolding hamming
hamming_zero = refl

hamming-digit :
    (a b : ℕ) (x y : Bool)
    → hamming (a * 2 + digit x) (b * 2 + digit y) ≡ hamming a b + digit (differs x y)
unfolding hamming
hamming-digit a b x y =
    ap bit_count (xor-bitwise (a * 2 + digit x) (b * 2 + digit y))
    ∙ count_digit _ (xor_digits a a b) (differs x y)
        (xor_digit _ _ a b x y refl refl ∙ ap (λ z. xor_digits a a b * 2 + z) (differ-digit x y))
    ∙ ap (λ z. bit_count z + digit (differs x y)) (sym (xor-bitwise a b))

-- The positions at which two lists of bits differ, counted.
unfoldable pub count_differences : List Bool → List Bool → ℕ
count_differences [] ys = 0
count_differences (x ∷ xs) [] = 0
count_differences (x ∷ xs) (y ∷ ys) = digit (differs x y) + count_differences xs ys

hamming-bits_after :
    (a b : ℕ) (xs ys : List Bool)
    → length xs ≡ length ys
    → hamming (bits_after a xs) (bits_after b ys) ≡ hamming a b + count_differences xs ys
unfolding count_differences
hamming-bits_after a b [] [] h = omega arith
hamming-bits_after a b [] (y ∷ ys) h = absurd (omega (arith, h))
hamming-bits_after a b (x ∷ xs) [] h = absurd (omega (arith, h))
hamming-bits_after a b (x ∷ xs) (y ∷ ys) h =
    hamming-bits_after (a * 2 + digit x) (b * 2 + digit y) xs ys (omega (arith, h))
    ∙ ap (λ n. n + count_differences xs ys) (hamming-digit a b x y)
    ∙ omega arith

-- The distance of two hashes of equally many bits, worked out on the numbers with `^` and
-- `bit_count`, is the number of positions at which the bits differ.
pub hamming-bits_to_int :
    (xs ys : List Bool)
    → length xs ≡ length ys
    → hamming (bits_to_int xs) (bits_to_int ys) ≡ count_differences xs ys
unfolding bits_to_int
hamming-bits_to_int xs ys h =
    hamming-bits_after 0 0 xs ys h
    ∙ ap (λ n. n + count_differences xs ys) hamming_zero
    ∙ omega arith
