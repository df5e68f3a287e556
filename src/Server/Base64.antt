-- ===== src/Server/Base64.antt =====
-- The decoder of src/server_io.cpp: `Base64CharToValue` and `OutputBase64`, on lists of bytes. The parts
-- that `|` joins have no bit in common, and are added.
pub mod RoundTrip
use tioj_judge.Base.{
  ℕ, zero, suc, ◌+◌, ◌-◌, ◌*◌, ◌/◌, ◌%◌, Bool, true, false, ◌&&◌, ◌||◌, List, [], ◌∷◌, ◌++◌, ltb,
  leb, ◌==◌, if◌then◌else◌,
}

-- Base64CharToValue
unfoldable pub base64_char_to_value : ℕ → ℕ
base64_char_to_value chr =
    if leb 65 chr && leb chr 90
    then chr - 65
    else if leb 97 chr && leb chr 122
    then chr - 97 + (90 - 65) + 1
    else if leb 48 chr && leb chr 57
    then chr - 48 + (90 - 65) + (122 - 97) + 2
    else if chr == 43 || chr == 45
    then 62
    else if chr == 47 || chr == 95
    then 63
    else 0

-- The three bytes of a group of four values.
abbrev pub first_byte : ℕ → ℕ → ℕ
first_byte v0 v1 = (v0 * 4 + v1 / 16 % 4) % 256

abbrev pub second_byte : ℕ → ℕ → ℕ
second_byte v1 v2 = (v1 % 16 * 16 + v2 / 4 % 16) % 256

abbrev pub third_byte : ℕ → ℕ → ℕ
third_byte v2 v3 = (v2 % 4 * 64 + v3) % 256

-- `'='`
abbrev pub pad : ℕ
pad = 61

-- The rest after the loop: at most four characters.
unfoldable pub output_last : List ℕ → List ℕ
unfolding base64_char_to_value
output_last (a ∷ b ∷ []) =
    if b == pad then [] else first_byte (base64_char_to_value a) (base64_char_to_value b) ∷ []
output_last (a ∷ b ∷ c ∷ []) =
    if b == pad
    then []
    else first_byte (base64_char_to_value a) (base64_char_to_value b)
      ∷ (if c == pad
          then []
          else second_byte (base64_char_to_value b) (base64_char_to_value c) ∷ [])
output_last (a ∷ b ∷ c ∷ d ∷ rest) =
    if b == pad
    then []
    else first_byte (base64_char_to_value a) (base64_char_to_value b)
      ∷ (if c == pad
          then []
          else second_byte (base64_char_to_value b) (base64_char_to_value c)
            ∷ (if d == pad
                then []
                else third_byte (base64_char_to_value c) (base64_char_to_value d) ∷ []))
output_last _ = []

abbrev pub no_more : List ℕ → Bool
no_more [] = true
no_more (x ∷ xs) = false

-- OutputBase64: the loop takes four characters as long as more than four are left.
unfoldable pub output_base64 : List ℕ → List ℕ
unfolding output_last base64_char_to_value
output_base64 (a ∷ b ∷ c ∷ d ∷ rest) =
    let later = output_base64 rest in
    if no_more rest
    then output_last (a ∷ b ∷ c ∷ d ∷ [])
    else first_byte (base64_char_to_value a) (base64_char_to_value b)
      ∷ second_byte (base64_char_to_value b) (base64_char_to_value c)
      ∷ third_byte (base64_char_to_value c) (base64_char_to_value d)
      ∷ later
output_base64 str = output_last str
