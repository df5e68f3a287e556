-- ===== src/Handler/Registry/Entries.antt =====
-- Lookups after `erase`, and the map from submission ids after a push (src/tioj/submission.cpp).
use tioj_judge.Base.{
  ℕ, ◌≡◌, ◌≢◌, refl, false, List, [], ◌∷◌, Option, none, some, arith, ◌==◌, ==_iff, Bool-cases, inl,
  inr, sym, ◌∙◌,
}
use tioj_judge.Order.{has_group}
use tioj_judge.Handler.{lookup}
use tioj_judge.Handler.Registry.{Registry, erase_key, erase_id, track}

lookup-erase_self {ℓ} :
    {A : Type ℓ} → (x : ℕ) (es : List (ℕ × A)) → lookup x (erase_key x es) ≡ none
unfolding lookup erase_key
lookup-erase_self x [] = refl
lookup-erase_self x ((k, a) ∷ es) = elim (Bool-cases (k == x)) [
  | inl b ↦ rw b (lookup-erase_self x es)
  | inr b ↦ rw b (rw b (lookup-erase_self x es))
]

pub lookup-erase_other {ℓ} :
    {A : Type ℓ} → (x y : ℕ) (es : List (ℕ × A)) → x ≢ y → lookup y (erase_key x es) ≡ lookup y es
unfolding lookup erase_key
lookup-erase_other x y [] d = refl
lookup-erase_other x y ((k, a) ∷ es) d =
    ground (arith, ==_iff k x, ==_iff k y, lookup-erase_other x y es d)

pub has_group-erase_other :
    (x y : ℕ) (ys : List ℕ) → x ≢ y → has_group y (erase_id x ys) ≡ has_group y ys
unfolding has_group erase_id
has_group-erase_other x y [] d = refl
has_group-erase_other x y (z ∷ zs) d =
    ground (arith, ==_iff z x, ==_iff z y, has_group-erase_other x y zs d)

pub lookup-erase_some {ℓ} :
    {A : Type ℓ}
    → (x y : ℕ) (a : A) (es : List (ℕ × A)) → lookup y (erase_key x es) ≡ some a
    → (x ≢ y) × (lookup y es ≡ some a)
lookup-erase_some x y a es e = elim (Bool-cases (x == y)) [
  | inl b ↦
      let same : x ≡ y = ground (arith, b, ==_iff x y) in
      let gone : lookup y (erase_key x es) ≡ none = rw (same) (lookup-erase_self y es) in
      absurd (let clash : some a ≡ none = sym e ∙ gone in cc)
  | inr b ↦
      let d : x ≢ y = ground (arith, b, ==_iff x y) in (d, sym (lookup-erase_other x y es d) ∙ e)
]

pub track_self :
    (sub_id id : ℕ) (o : Option ℕ) (r : Registry)
    → lookup sub_id (track sub_id id o r).submission_id_map ≡ some id
unfolding lookup
track_self sub_id id none r = ground (arith, ==_iff sub_id sub_id)
track_self sub_id id (some old) r = ground (arith, ==_iff sub_id sub_id)

pub track_other :
    (sub_id id x : ℕ) (o : Option ℕ) (r : Registry)
    → sub_id ≢ x
    → lookup x (track sub_id id o r).submission_id_map ≡ lookup x r.submission_id_map
unfolding lookup
track_other sub_id id x none r d = ground (arith, ==_iff sub_id x)
track_other sub_id id x (some old) r d =
    ground (arith, ==_iff sub_id x, lookup-erase_other sub_id x r.submission_id_map d)

pub track_wanted :
    (sub_id id x : ℕ) (o : Option ℕ) (r : Registry)
    → has_group x (track sub_id id o r).cancelled.cancelled_list ≡ false
    → (has_group x r.cancelled.cancelled_list ≡ false) × (o ≢ some x)
unfolding has_group
track_wanted sub_id id x none r h = (h, λ e. cc)
track_wanted sub_id id x (some old) r h =
    (ground (arith, h), λ e. let same : old ≡ x = cc in ground (arith, h, same, ==_iff old x))

pub track_list :
    (sub_id id : ℕ) (o : Option ℕ) (r : Registry)
    → (track sub_id id o r).submission_list ≡ r.submission_list
track_list sub_id id none r = refl
track_list sub_id id (some old) r = refl
