-- ===== src/Scorer/Strict.antt =====
-- `StrictCompare` of tools/default-scoring.cpp, which reads both files buffer by buffer, is equality.
use tioj_judge.Base.{
  ℕ, zero, suc, ◌<◌, ◌≡◌, refl, true, ◌&&◌, [], ◌∷◌, some, arith, Bool-cases, inl, inr, length,
  take, drop, ltb, length-take, length-drop,
}
use tioj_judge.Scorer.{Bytes, bytes_eq, strict_compare}

-- Two strings of which the first has fewer bytes than the buffer are compared by their buffers.
bytes_eq-take :
    (n : ℕ) (a b : Bytes)
    → length a < n
    → length b < n
    → bytes_eq (take n a) (take n b) ≡ bytes_eq a b
unfolding bytes_eq
bytes_eq-take zero a b h k = absurd (omega arith)
bytes_eq-take (suc n) [] [] h k = refl
bytes_eq-take (suc n) [] (y ∷ b) h k = refl
bytes_eq-take (suc n) (x ∷ a) [] h k = refl
bytes_eq-take (suc n) (x ∷ a) (y ∷ b) h k = ground (arith, bytes_eq-take n a b)

-- The bytes of two buffers, and what follows them.
bytes_eq-split :
    (n : ℕ) (a b : Bytes)
    → bytes_eq a b ≡ (bytes_eq (take n a) (take n b) && bytes_eq (drop n a) (drop n b))
unfolding bytes_eq
bytes_eq-split zero a b = refl
bytes_eq-split (suc n) [] [] = refl
bytes_eq-split (suc n) [] (y ∷ b) = refl
bytes_eq-split (suc n) (x ∷ a) [] = refl
bytes_eq-split (suc n) (x ∷ a) (y ∷ b) = ground (arith, bytes_eq-split n a b)

bytes_eq-length : (a b : Bytes) → bytes_eq a b ≡ true → length a ≡ length b
unfolding bytes_eq
bytes_eq-length [] [] h = refl
bytes_eq-length [] (y ∷ b) h = cc
bytes_eq-length (x ∷ a) [] h = cc
bytes_eq-length (x ∷ a) (y ∷ b) h = ground (arith, bytes_eq-length a b)

-- With a buffer of at least one byte, and more fuel than bytes, `StrictCompare` ends, and accepts
-- exactly the files with the same bytes.
pub strict_compare-bytes_eq :
    (size fuel : ℕ) (ans usr : Bytes)
    → 0 < size
    → length ans < fuel
    → strict_compare size fuel ans usr ≡ some (bytes_eq ans usr)
unfolding strict_compare
strict_compare-bytes_eq size zero ans usr s h = absurd (omega arith)
strict_compare-bytes_eq size (suc fuel) ans usr s h = elim (Bool-cases (ltb (length ans) size)) [
  | inl b ↦ ground (
    arith,
    b,
    bytes_eq-take size ans usr,
    bytes_eq-length ans usr,
    length-take size ans,
    length-take size usr,
  )
  | inr b ↦
      let rest =
        strict_compare-bytes_eq size fuel (drop size ans) (drop size usr) s
          (ground (arith, length-drop size ans, b)) in
      ground (
        arith,
        b,
        rest,
        bytes_eq-split size ans usr,
        bytes_eq-length ans usr,
        length-take size ans,
        length-take size usr,
      )
]
