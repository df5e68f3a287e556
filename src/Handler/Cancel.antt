-- ===== src/Handler/Cancel.antt =====
-- The cancellation of groups (src/tioj/submission.cpp): `cancelled_group[id].insert` and `IsCancelled`.
use tioj_judge.Base.{
  ℕ, ◌≡◌, ◌≢◌, ◌⊎◌, ◌↔◌, ◌∙◌, Bool, false, refl, sym, ap, subst, true, ◌||◌, List, [], ◌∷◌, ◌++◌,
  Option, none, some, arith, ◌==◌, ==_iff, Bool-cases, inl, inr,
}
use tioj_judge.Order.{has_group, covers}
use tioj_judge.Handler.{Cancelled, lookup, group_cancelled, is_cancelled, cancel_groups}

pub has_group-append :
    (x : ℕ) (xs ys : List ℕ) → has_group x (xs ++ ys) ≡ (has_group x xs || has_group x ys)
unfolding has_group
has_group-append x [] ys = refl
has_group-append x (y ∷ xs) ys = ground (arith, has_group-append x xs ys)

-- A larger set covers more.
covers_more :
    (xs ys gs : List ℕ)
    → ((x : ℕ) → has_group x xs ≡ true → has_group x ys ≡ true)
    → covers xs gs ≡ true
    → covers ys gs ≡ true
unfolding covers
covers_more xs ys [] h c = refl
covers_more xs ys (g ∷ gs) h c = ground (arith, h g, covers_more xs ys gs h)

covers_self :
    (xs gs : List ℕ)
    → ((x : ℕ) → has_group x gs ≡ true → has_group x xs ≡ true)
    → covers xs gs ≡ true
unfolding covers has_group
covers_self xs [] h = refl
covers_self xs (g ∷ gs) h =
    let rest = covers_self xs gs (λ x m. h x (ground (arith, m))) in
    ground (arith, h g, ==_iff g g, rest)

covers_in :
    (xs gs : List ℕ) (x : ℕ) → covers xs gs ≡ true → has_group x gs ≡ true → has_group x xs ≡ true
unfolding covers has_group
covers_in xs [] x c h = cc
covers_in xs (g ∷ gs) x c h = elim (Bool-cases (g == x)) [
  | inl b ↦
      let same : g ≡ x = ground (arith, b, ==_iff g x) in
      let here : has_group g xs ≡ true = ground (arith, c) in
      ap (λ y. has_group y xs) (sym same) ∙ here
  | inr b ↦ covers_in xs gs x (ground (arith, c)) (rw b at h)
]

-- Whether a group was cancelled before.
abbrev pub in_some : ℕ → Option (List ℕ) → Bool
in_some x none = false
in_some x (some gs) = has_group x gs

-- The groups that are cancelled after, of the submission.
lookup-cancel_self :
    (id : ℕ) (groups : List ℕ) (m : List (ℕ × List ℕ))
    → (gs : List ℕ) × (lookup id (cancel_groups id groups m) ≡ some gs)
      × ((x : ℕ) → has_group x gs ≡ (has_group x groups || in_some x (lookup id m)))
unfolding lookup cancel_groups
lookup-cancel_self id groups [] = (groups, ground (arith, ==_iff id id), λ x. ground arith)
lookup-cancel_self id groups ((k, gs) ∷ m) = elim (Bool-cases (k == id)) [
  | inl b ↦ (groups ++ gs, rw b (ground (arith, b)), λ x. rw b (has_group-append x groups gs))
  | inr b ↦
      let (gs', e, n) = lookup-cancel_self id groups m in (gs', rw b (rw b e), λ x. rw b (n x))
]

lookup-cancel_other :
    (id id' : ℕ) (groups : List ℕ) (m : List (ℕ × List ℕ))
    → id ≢ id'
    → lookup id' (cancel_groups id groups m) ≡ lookup id' m
unfolding lookup cancel_groups
lookup-cancel_other id id' groups [] d = ground (arith, ==_iff id id')
lookup-cancel_other id id' groups ((k, gs) ∷ m) d =
    ground (arith, ==_iff k id, ==_iff k id', lookup-cancel_other id id' groups m d)

-- A testdata is cancelled by groups exactly if it is in one, and in none but those.
group_cancelled-in :
    (xs gs : List ℕ)
    → (group_cancelled (some xs) gs ≡ true)
      ↔ ((gs ≢ []) × ((x : ℕ) → has_group x gs ≡ true → has_group x xs ≡ true))
group_cancelled-in xs [] = (λ e. cc, λ h. absurd (h.0 refl))
group_cancelled-in xs (g ∷ gs) =
    (λ e. (λ e'. cc, λ x. covers_in xs (g ∷ gs) x e), λ h. covers_self xs (g ∷ gs) h.1)

-- Adding the groups of a failed testdata changes what is cancelled of no other submission. Of this one
-- exactly those testdata are cancelled afterwards that were cancelled as a whole, or that are in a group
-- and in none but the added ones and those cancelled before.
pub is_cancelled-cancel_groups :
    (c : Cancelled) (id : ℕ) (groups : List ℕ)
    → ((id' : ℕ) (gs : List ℕ)
        → id ≢ id'
        → is_cancelled
            (record c { cancelled_group = cancel_groups id groups c.cancelled_group })
            id'
            gs
          ≡ is_cancelled c id' gs)
      × ((gs : List ℕ)
          → (is_cancelled
                (record c { cancelled_group = cancel_groups id groups c.cancelled_group })
                id
                gs
              ≡ true)
            ↔ ((has_group id c.cancelled_list ≡ true)
                ⊎ ((gs ≢ [])
                    × ((x : ℕ)
                        → has_group x gs ≡ true
                        → (has_group x groups || in_some x (lookup id c.cancelled_group)) ≡ true))))
unfolding is_cancelled
is_cancelled-cancel_groups c id groups = (
  λ id' gs d. rw (lookup-cancel_other id id' groups c.cancelled_group d) refl,
  λ gs.
      let (xs, l, n) = lookup-cancel_self id groups c.cancelled_group in
      let (there, back) = group_cancelled-in xs gs in
      rw l (elim (Bool-cases (has_group id c.cancelled_list)) [
        | inl b ↦ rw b (λ e. inl refl, λ e. refl)
        | inr b ↦ rw b (
          λ e. inr ((there e).0, λ x m. sym (n x) ∙ (there e).1 x m),
          λ e. elim e [ inl f ↦ cc | inr (ne, f) ↦ back (ne, λ x m. n x ∙ f x m) ],
        )
      ]),
)

cancelled_before :
    (o : Option (List ℕ)) (gs : List ℕ)
    → group_cancelled o gs ≡ true
    → (gs ≢ []) × ((x : ℕ) → has_group x gs ≡ true → in_some x o ≡ true)
cancelled_before none gs h = cc
cancelled_before (some old) gs h = (group_cancelled-in old gs).0 h

was_cancelled :
    (c : Cancelled) (id : ℕ) (groups gs : List ℕ)
    → is_cancelled c id gs ≡ true
    → (has_group id c.cancelled_list ≡ true)
      ⊎ ((gs ≢ [])
          × ((x : ℕ)
              → has_group x gs ≡ true
              → (has_group x groups || in_some x (lookup id c.cancelled_group)) ≡ true))
unfolding is_cancelled
was_cancelled c id groups gs h = elim (Bool-cases (has_group id c.cancelled_list)) [
  | inl b ↦ inl b
  | inr b ↦
      let (ne, f) = cancelled_before (lookup id c.cancelled_group) gs (rw b at h) in
      inr (ne, λ x m. let t = f x m in ground (arith, t))
]

-- No cancellation is taken back, and a testdata in some of the groups and in none but those is cancelled.
pub cancel_groups_lem :
    (c : Cancelled) (id : ℕ) (groups : List ℕ)
    → ((id' : ℕ) (gs : List ℕ)
        → is_cancelled c id' gs ≡ true
        → is_cancelled
            (record c { cancelled_group = cancel_groups id groups c.cancelled_group })
            id'
            gs
          ≡ true)
      × ((gs : List ℕ)
          → gs ≢ []
          → ((x : ℕ) → has_group x gs ≡ true → has_group x groups ≡ true)
          → is_cancelled
              (record c { cancelled_group = cancel_groups id groups c.cancelled_group })
              id
              gs
            ≡ true)
cancel_groups_lem c id groups =
    let (others, exact) = is_cancelled-cancel_groups c id groups in
    let own = λ (gs : List ℕ) (h : is_cancelled c id gs ≡ true).
      (exact gs).1 (was_cancelled c id groups gs h) in
    (
      λ id' gs h. elim (Bool-cases (id == id')) [
        | inl b ↦
            let same : id ≡ id' = ground (arith, b, ==_iff id id') in
            subst
              (λ k.
                is_cancelled
                  (record c { cancelled_group = cancel_groups id groups c.cancelled_group }) k gs
                ≡ true)
              same (own gs (ap (λ k. is_cancelled c k gs) same ∙ h))
        | inr b ↦ others id' gs (ground (arith, b, ==_iff id id')) ∙ h
      ],
      λ gs ne f. (exact gs).1 (inr (ne, λ x m. let t = f x m in ground (arith, t))),
    )
