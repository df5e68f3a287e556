-- ===== src/Server/Rising.antt =====
-- The order of the set of waiting times of src/server_io.cpp: the earliest stands first.
use tioj_judge.Base.{
  ℕ, ◌≤◌, inl, inr, Bool, true, false, [], ◌∷◌, arith, Bool-cases, All, if◌then◌else◌,
}
use tioj_judge.Base.Int.{ℤ}
use tioj_judge.Server.Requests.{Stamps, stands_before, eq_stamp, insert_stamp, erase_stamp}

abbrev pub Below : ℕ → Stamps → Type 0
Below t us = All (λ (x : ℕ × ℤ). t ≤ x.0) us

abbrev pub Rising : Stamps → Type 0
Rising [] = Unit
Rising ((t, k) ∷ us) = Below t us × Rising us

pub Below-le : (s t : ℕ) (us : Stamps) → s ≤ t → Below t us → Below s us
Below-le s t [] h b = tt
Below-le s t ((u, k) ∷ us) h b = (omega (arith, b.0), Below-le s t us h b.1)

Below-if :
    (b : Bool) (s : ℕ) (us vs : Stamps) → Below s us → Below s vs → Below s (if b then us else vs)
Below-if true s us vs p q = p
Below-if false s us vs p q = q

insert-Below :
    (s t : ℕ) (k : ℤ) (us : Stamps) → s ≤ t → Below s us → Below s (insert_stamp (t, k) us)
unfolding insert_stamp
insert-Below s t k [] h b = (h, tt)
insert-Below s t k ((u, i) ∷ us) h b =
    Below-if (stands_before (u, i) (t, k)) s _ _ (b.0, insert-Below s t k us h b.1)
      (Below-if (eq_stamp (u, i) (t, k)) s _ _ b (h, b))

pub insert-Rising : (t : ℕ) (k : ℤ) (us : Stamps) → Rising us → Rising (insert_stamp (t, k) us)
unfolding insert_stamp
insert-Rising t k [] r = (tt, tt)
insert-Rising t k ((u, i) ∷ us) r = elim (Bool-cases (stands_before (u, i) (t, k))) [
  | inl b ↦ rw b (insert-Below u t k us (ground (arith, b)) r.0, insert-Rising t k us r.1)
  | inr b ↦ rw b (elim (Bool-cases (eq_stamp (u, i) (t, k))) [
    | inl e ↦ rw e r
    | inr e ↦ let le : t ≤ u = ground (arith, b) in rw e ((le, Below-le t u us le r.0), r)
  ])
]

erase-Below : (s : ℕ) (x : ℕ × ℤ) (us : Stamps) → Below s us → Below s (erase_stamp x us)
unfolding erase_stamp
erase-Below s x [] b = tt
erase-Below s x (y ∷ us) b = Below-if (eq_stamp y x) s _ _ b.1 (b.0, erase-Below s x us b.1)

pub erase-Rising : (x : ℕ × ℤ) (us : Stamps) → Rising us → Rising (erase_stamp x us)
unfolding erase_stamp
erase-Rising x [] r = tt
erase-Rising x ((u, i) ∷ us) r = elim (Bool-cases (eq_stamp (u, i) x)) [
  | inl e ↦ rw e r.1
  | inr e ↦ rw e (erase-Below u x us r.0, erase-Rising x us r.1)
]
