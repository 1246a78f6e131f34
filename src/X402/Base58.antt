-- ===== src/X402/Base58.antt =====
-- `_base58_encode` of veriproof/services/x402_service.py. A text in base 58 is the list of the
-- positions of its characters in `BASE58_ALPHABET`, whose 58 characters are different.
use veri_proof_hackerton.Prelude.{
  ℕ, zero, suc, ◌+◌, ◌*◌, ◌/◌, ◌%◌, ◌≤◌, ◌<◌, List, [], ◌∷◌, ◌++◌, ◌≡◌, refl, sym, ap, ◌∙◌, arith,
  All, length,
}

-- The number that digits stand for, the highest first, after those that `high` stands for.
-- `int.from_bytes(raw, "big")` is the one of the bytes in base 256.
unfoldable pub from_digits : ℕ → ℕ → List ℕ → ℕ
from_digits base high [] = high
from_digits base high (d ∷ digits) = from_digits base (high * base + d) digits

-- `while number: number, remainder = divmod(number, 58); encoded = ALPHABET[remainder] + encoded`
unfoldable pub encode_loop : ℕ → ℕ → List ℕ → List ℕ
encode_loop zero number encoded = encoded
encode_loop (suc fuel) zero encoded = encoded
encode_loop (suc fuel) (suc n) encoded = encode_loop fuel (suc n / 58) (suc n % 58 ∷ encoded)

-- `len(raw) - len(raw.lstrip(b"\0"))` times the first character
unfoldable pub leading_ones : List ℕ → List ℕ
leading_ones [] = []
leading_ones (zero ∷ raw) = 0 ∷ leading_ones raw
leading_ones (suc b ∷ raw) = []

-- `encoded or BASE58_ALPHABET[0]`
abbrev or_one : List ℕ → List ℕ
or_one [] = 0 ∷ []
or_one (d ∷ digits) = d ∷ digits

-- The loop runs at most as often as the number says.
unfoldable pub base58_encode : List ℕ → List ℕ
unfolding encode_loop leading_ones from_digits
base58_encode raw =
    let number : ℕ = from_digits 256 0 raw in
    leading_ones raw ++ or_one (encode_loop number number [])

-- The loop ends: with the number as its fuel or with more it makes the same rounds, since each round
-- divides the number, until it is zero.
pub encode_loop_ends :
    (fuel fuel' number : ℕ) (encoded : List ℕ)
    → number ≤ fuel
    → number ≤ fuel'
    → encode_loop fuel number encoded ≡ encode_loop fuel' number encoded
unfolding encode_loop
encode_loop_ends zero zero zero encoded h h' = refl
encode_loop_ends zero (suc g) zero encoded h h' = refl
encode_loop_ends (suc f) zero zero encoded h h' = refl
encode_loop_ends (suc f) (suc g) zero encoded h h' = refl
encode_loop_ends zero g (suc n) encoded h h' = absurd (omega (arith, h))
encode_loop_ends (suc f) zero (suc n) encoded h h' = absurd (omega (arith, h'))
encode_loop_ends (suc f) (suc g) (suc n) encoded h h' =
    encode_loop_ends f g (suc n / 58) (suc n % 58 ∷ encoded) (omega arith) (omega arith)

-- The digits that the loop puts in front stand for the number that it starts from, however much fuel
-- beyond the number it has.
from_digits-encode_loop :
    (fuel number : ℕ) (encoded : List ℕ)
    → number ≤ fuel
    → from_digits 58 0 (encode_loop fuel number encoded) ≡ from_digits 58 number encoded
unfolding encode_loop from_digits
from_digits-encode_loop zero zero encoded h = refl
from_digits-encode_loop zero (suc n) encoded h = absurd (omega (arith, h))
from_digits-encode_loop (suc fuel) zero encoded h = refl
from_digits-encode_loop (suc fuel) (suc n) encoded h =
    from_digits-encode_loop fuel (suc n / 58) (suc n % 58 ∷ encoded) (omega (arith, h))
    ∙ ap (λ m. from_digits 58 m encoded) (omega arith)

from_digits-leading_ones :
    (raw rest : List ℕ) → from_digits 58 0 (leading_ones raw ++ rest) ≡ from_digits 58 0 rest
unfolding leading_ones from_digits
from_digits-leading_ones [] rest = refl
from_digits-leading_ones (zero ∷ raw) rest = from_digits-leading_ones raw rest
from_digits-leading_ones (suc b ∷ raw) rest = refl

from_digits-or_one : (digits : List ℕ) → from_digits 58 0 (or_one digits) ≡ from_digits 58 0 digits
unfolding from_digits
from_digits-or_one [] = refl
from_digits-or_one (d ∷ digits) = refl

-- The text that comes out, read in base 58, is the number that the bytes are in base 256; so the
-- loop has ended with the whole number written.
pub base58_encode_value :
    (raw : List ℕ) → from_digits 58 0 (base58_encode raw) ≡ from_digits 256 0 raw
unfolding base58_encode from_digits encode_loop leading_ones
base58_encode_value raw =
    from_digits-leading_ones raw _
    ∙ from_digits-or_one (encode_loop (from_digits 256 0 raw) (from_digits 256 0 raw) [])
    ∙ from_digits-encode_loop (from_digits 256 0 raw) (from_digits 256 0 raw) [] (omega arith)

abbrev pub IsByte : ℕ → Type 0
IsByte b = b < 256

-- Bytes of one length are known by their number.
from_digits_injective :
    (high high' : ℕ) (raw raw' : List ℕ)
    → All IsByte raw
    → All IsByte raw'
    → length raw ≡ length raw'
    → from_digits 256 high raw ≡ from_digits 256 high' raw'
    → (high ≡ high') × (raw ≡ raw')
unfolding from_digits
from_digits_injective high high' [] [] h h' same e = (e, refl)
from_digits_injective high high' [] (b' ∷ raw') h h' same e = absurd (omega (arith, same))
from_digits_injective high high' (b ∷ raw) [] h h' same e = absurd (omega (arith, same))
from_digits_injective high high' (b ∷ raw) (b' ∷ raw') (small, h) (small', h') same e =
    let (tops, rest) =
      from_digits_injective (high * 256 + b) (high' * 256 + b') raw raw' h h' (omega (arith, same))
        e in
    let first : b ≡ b' = omega (arith, tops, small, small') in
    (omega (arith, tops, small, small'), ap (λ x. x ∷ raw) first ∙ ap (λ xs. b' ∷ xs) rest)

-- Keys of one length in bytes that have the same text are the same key.
pub base58_encode_injective :
    (raw raw' : List ℕ)
    → All IsByte raw
    → All IsByte raw'
    → length raw ≡ length raw'
    → base58_encode raw ≡ base58_encode raw'
    → raw ≡ raw'
base58_encode_injective raw raw' h h' same e =
    (from_digits_injective 0 0 raw raw' h h' same
      (sym (base58_encode_value raw) ∙ ap (from_digits 58 0) e ∙ base58_encode_value raw')).1
