-- ===== src/Server/Base64/RoundTrip.antt =====
-- That `OutputBase64` of src/server_io.cpp decodes what the encoder of RFC 4648 makes.
use tioj_judge.Base.{
  ℕ, ◌+◌, ◌-◌, ◌*◌, ◌/◌, ◌%◌, ◌<◌, ◌≡◌, ◌∙◌, refl, ap, false, List, [], ◌∷◌, ltb, ◌==◌, arith,
  if◌then◌else◌, All,
}
use tioj_judge.Server.Base64.{
  base64_char_to_value, first_byte, second_byte, third_byte, pad, output_last, no_more,
  output_base64,
}

-- The alphabet of RFC 4648.
unfoldable pub char_of : ℕ → ℕ
char_of v =
    if ltb v 26
    then 65 + v
    else (if ltb v 52 then 71 + v else (if ltb v 62 then v - 4 else (if v == 62 then 43 else 47)))

unfoldable pub encode : List ℕ → List ℕ
unfolding char_of
encode [] = []
encode (a ∷ []) = char_of (a / 4) ∷ char_of (a % 4 * 16) ∷ pad ∷ pad ∷ []
encode (a ∷ b ∷ []) =
    char_of (a / 4) ∷ char_of (a % 4 * 16 + b / 16) ∷ char_of (b % 16 * 4) ∷ pad ∷ []
encode (a ∷ b ∷ c ∷ rest) =
    char_of (a / 4)
    ∷ char_of (a % 4 * 16 + b / 16)
    ∷ char_of (b % 16 * 4 + c / 64)
    ∷ char_of (c % 64)
    ∷ encode rest

base64_char_to_value-char_of : (v : ℕ) → v < 64 → base64_char_to_value (char_of v) ≡ v
unfolding base64_char_to_value char_of
base64_char_to_value-char_of v h = ground arith

char_of-pad : (v : ℕ) → (char_of v == pad) ≡ false
unfolding char_of
char_of-pad v = ground arith

first_lem : (a b : ℕ) → a < 256 → b < 256 → first_byte (a / 4) (a % 4 * 16 + b / 16) ≡ a
first_lem a b h k = omega arith

one_lem : (a : ℕ) → a < 256 → first_byte (a / 4) (a % 4 * 16) ≡ a
one_lem a h = omega arith

two_lem : (a b : ℕ) → a < 256 → b < 256 → second_byte (a % 4 * 16 + b / 16) (b % 16 * 4) ≡ b
two_lem a b h k = omega arith

second_lem :
    (a b c : ℕ)
    → a < 256
    → b < 256
    → c < 256
    → second_byte (a % 4 * 16 + b / 16) (b % 16 * 4 + c / 64) ≡ b
second_lem a b c h k l = omega arith

third_lem : (b c : ℕ) → c < 256 → third_byte (b % 16 * 4 + c / 64) (c % 64) ≡ c
third_lem b c h = omega arith

-- The bytes that the four characters of a group give, before others.
group_lem :
    (a b c : ℕ) (rest : List ℕ)
    → a < 256
    → b < 256
    → c < 256
    → first_byte
          (base64_char_to_value (char_of (a / 4)))
          (base64_char_to_value (char_of (a % 4 * 16 + b / 16)))
        ∷ second_byte
            (base64_char_to_value (char_of (a % 4 * 16 + b / 16)))
            (base64_char_to_value (char_of (b % 16 * 4 + c / 64)))
        ∷ third_byte
            (base64_char_to_value (char_of (b % 16 * 4 + c / 64)))
            (base64_char_to_value (char_of (c % 64)))
        ∷ rest
      ≡ a ∷ b ∷ c ∷ rest
group_lem a b c rest h k l =
    rw
      (
        base64_char_to_value-char_of (a / 4) (omega arith),
        base64_char_to_value-char_of (a % 4 * 16 + b / 16) (omega arith),
        base64_char_to_value-char_of (b % 16 * 4 + c / 64) (omega arith),
        base64_char_to_value-char_of (c % 64) (omega arith),
        first_lem a b h k,
        second_lem a b c h k l,
        third_lem b c l,
      )
      refl

encode_more : (b : ℕ) (bs : List ℕ) → no_more (encode (b ∷ bs)) ≡ false
unfolding encode
encode_more a [] = refl
encode_more a (b ∷ []) = refl
encode_more a (b ∷ c ∷ rest) = refl

-- For all bytes, OutputBase64 writes exactly what was encoded.
pub output_base64-encode : (bs : List ℕ) → All (λ b. b < 256) bs → output_base64 (encode bs) ≡ bs
unfolding output_base64 encode output_last
output_base64-encode [] h = refl
output_base64-encode (a ∷ []) h =
    rw
      (
        char_of-pad (a % 4 * 16),
        base64_char_to_value-char_of (a / 4) (omega arith),
        base64_char_to_value-char_of (a % 4 * 16) (omega arith),
      )
      (ap (λ x. x ∷ []) (one_lem a h.0))
output_base64-encode (a ∷ b ∷ []) h =
    rw
      (
        char_of-pad (a % 4 * 16 + b / 16),
        char_of-pad (b % 16 * 4),
        base64_char_to_value-char_of (a / 4) (omega arith),
        base64_char_to_value-char_of (a % 4 * 16 + b / 16) (omega arith),
        base64_char_to_value-char_of (b % 16 * 4) (omega arith),
      )
      (ap (λ x. x ∷ second_byte (a % 4 * 16 + b / 16) (b % 16 * 4) ∷ []) (first_lem a b h.0 h.1.0)
        ∙ ap (λ x. a ∷ x ∷ []) (two_lem a b h.0 h.1.0))
output_base64-encode (a ∷ b ∷ c ∷ []) h =
    rw (char_of-pad (a % 4 * 16 + b / 16), char_of-pad (b % 16 * 4 + c / 64), char_of-pad (c % 64))
      (group_lem a b c [] h.0 h.1.0 h.1.1.0)
output_base64-encode (a ∷ b ∷ c ∷ x ∷ rest) h =
    rw (encode_more x rest, output_base64-encode (x ∷ rest) h.1.1.1)
      (group_lem a b c (x ∷ rest) h.0 h.1.0 h.1.1.0)
