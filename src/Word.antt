-- ===== src/Word.antt =====
-- The machine's integers: `long` and `int` as integers, their bit patterns, and the little-endian
-- bytes of a pattern, which `SandboxOptions` stores (src/tioj/sandbox.cpp, `using Int = long`).
use tioj_judge.Base.{
  ℕ, zero, suc, ◌+◌, ◌-◌, ◌*◌, ◌/◌, ◌%◌, ◌<◌, ◌≡◌, refl, List, [], ◌∷◌, arith, ltb, length,
  if◌then◌else◌,
}
use tioj_judge.Base.Int.{ℤ, pos, negsuc}

abbrev pub two63 : ℕ
two63 = 9223372036854775808

abbrev pub two64 : ℕ
two64 = 18446744073709551616

abbrev pub two31 : ℕ
two31 = 2147483648

abbrev pub two32 : ℕ
two32 = 4294967296

-- The range of `long` and of `int`.
abbrev pub IsLong : ℤ → Type 0
IsLong (pos n) = n < two63
IsLong (negsuc n) = n < two63

abbrev pub IsInt : ℤ → Type 0
IsInt (pos n) = n < two31
IsInt (negsuc n) = n < two31

-- The pattern of an integer in 64 bits, and the integer of a pattern.
unfoldable pub to_word : ℤ → ℕ
to_word (pos n) = n % two64
to_word (negsuc n) = two64 - 1 - n % two64

unfoldable pub of_word : ℕ → ℤ
of_word w = if ltb w two63 then pos w else negsuc (two64 - 1 - w)

-- The conversion of a `long` to `int`: the low 32 bits, read with their sign.
unfoldable pub narrow : ℤ → ℤ
unfolding to_word
narrow z = let w = to_word z % two32 in if ltb w two31 then pos w else negsuc (two32 - 1 - w)

pub to_word-lt : (z : ℤ) → to_word z < two64
unfolding to_word
to_word-lt z = ground arith

pub of_word-to_word : (z : ℤ) → IsLong z → of_word (to_word z) ≡ z
unfolding of_word to_word
of_word-to_word (pos n) h = ground arith
of_word-to_word (negsuc n) h = ground arith

pub narrow_id : (z : ℤ) → IsInt z → narrow z ≡ z
unfolding narrow
narrow_id (pos n) h = ground arith
narrow_id (negsuc n) h = ground arith

pub IsInt-IsLong : (z : ℤ) → IsInt z → IsLong z
IsInt-IsLong (pos n) h = omega arith
IsInt-IsLong (negsuc n) h = omega arith

-- The bytes of a pattern, the least significant one first.
unfoldable pub le_bytes : ℕ → ℕ → List ℕ
le_bytes zero w = []
le_bytes (suc k) w = (w % 256) ∷ le_bytes k (w / 256)

unfoldable pub of_bytes : List ℕ → ℕ
of_bytes [] = 0
of_bytes (b ∷ bs) = b + 256 * of_bytes bs

unfoldable pub byte_range : ℕ → ℕ
byte_range zero = 1
byte_range (suc k) = 256 * byte_range k

pub of_bytes-le_bytes : (k w : ℕ) → w < byte_range k → of_bytes (le_bytes k w) ≡ w
unfolding of_bytes le_bytes byte_range
of_bytes-le_bytes zero w h = omega arith
of_bytes-le_bytes (suc k) w h = omega (arith, of_bytes-le_bytes k (w / 256) (omega arith))

pub length-le_bytes : (k w : ℕ) → length (le_bytes k w) ≡ k
unfolding le_bytes
length-le_bytes zero w = refl
length-le_bytes (suc k) w = omega (arith, length-le_bytes k (w / 256))
