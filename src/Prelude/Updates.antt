-- ===== src/Prelude/Updates.antt =====
-- Families over the natural numbers that are changed at one index, as the states of threads are.
use adaptive_pi.Prelude.{
  ℕ, ◌≡◌, ◌≢◌, sym, ◌∙◌, Bool-cases, inl, inr, ==_iff, ◌==◌, if◌then◌else◌, arith,
}
use mathlib.Core.Path.{subst}

abbrev pub update : {A : Type 0} → (ℕ → A) → ℕ → A → ℕ → A
update f i a j = if j == i then a else f j

module _ {A : Type 0} (f : ℕ → A) (i : ℕ) (a : A) where
  pub update_self : update f i a i ≡ a
  update_self = ground arith

  pub update-other : (j : ℕ) → j ≢ i → update f i a j ≡ f j
  update-other j h = ground arith

-- A property of all indices holds behind a change at `i`.
pub update-all :
    {A : Type 0} (P : ℕ → A → Type 0) (f : ℕ → A) (i : ℕ) (a : A)
    → P i a
    → ((j : ℕ) → j ≢ i → P j (f j))
    → (j : ℕ) → P j (update f i a j)
update-all P f i a h k j = elim (Bool-cases (j == i)) [
  | inl e ↦ rw e (subst (λ j. P j a) (sym ((==_iff j i).0 e)) h)
  | inr e ↦ rw e (k j (λ same. cc (sym e ∙ (==_iff j i).1 same)))
]

-- What holds at all indices behind a change at `i` held before, given that it held at `i`.
pub update-back :
    {A : Type 0} (P : A → Type 0) (f : ℕ → A) (i : ℕ) (a : A)
    → P (f i)
    → ((j : ℕ) → P (update f i a j))
    → (j : ℕ) → P (f j)
update-back P f i a h k j = elim (Bool-cases (j == i)) [
  | inl e ↦ subst (λ j. P (f j)) (sym ((==_iff j i).0 e)) h
  | inr e ↦ subst P (update-other f i a j (λ same. cc (sym e ∙ (==_iff j i).1 same))) (k j)
]
