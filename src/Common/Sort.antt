-- ===== src/Common/Sort.antt =====
-- `sort.Slice` as an insertion sort by the program's `less`.
use mathlib.Core.Path.{◌≡◌, refl, sym, subst}
use mathlib.Core.Logic.{◌≢◌, inl, inr}
use mathlib.Core.Bool.{Bool, true, false}
use mathlib.Core.List.{List, [], ◌∷◌}
use mathlib.Core.Option.{none, some, some-injective}
use native.Mathlib.Omega.{arith}
use appcenter_agent.Common.Tests.{if◌then◌else◌, Bool-cases}
use appcenter_agent.Common.Lists.{All, All-mono, head?}

module _ {ℓ} {A : Type ℓ} (less : A → A → Bool) where
  unfoldable pub place : A → List A → List A
  place x [] = x ∷ []
  place x (y ∷ ys) = if less y x then y ∷ place x ys else x ∷ y ∷ ys

  unfoldable pub sort : List A → List A
  unfolding place
  sort [] = []
  sort (x ∷ xs) = place x (sort xs)

  module _ {κ} (P : A → Type κ) where
    pub All-place : (x : A) (ys : List A) → P x → All P ys → All P (place x ys)
    unfolding place
    All-place x [] p h = (p, tt)
    All-place x (y ∷ ys) p h = ground (arith, All-place x ys p h.1)

    pub All-sort : (xs : List A) → All P xs → All P (sort xs)
    unfolding sort
    All-sort [] h = tt
    All-sort (x ∷ xs) h = All-place x (sort xs) h.0 (All-sort xs h.1)

  first-All {κ} : (P : A → Type κ) (ys : List A) {c : A} → All P ys → head? ys ≡ some c → P c
  first-All P [] h e = cc
  first-All P (y ∷ ys) h e = subst P (some-injective _ _ e) h.0

  pub head-sort-All {κ} :
      (P : A → Type κ) (xs : List A) {c : A} → All P xs → head? (sort xs) ≡ some c → P c
  head-sort-All P xs h e = first-All P (sort xs) (All-sort P xs h) e

  place-ne-nil : (x : A) (ys : List A) → head? (place x ys) ≢ none
  unfolding place
  place-ne-nil x [] e = cc
  place-ne-nil x (y ∷ ys) e = ground arith

  pub head-sort-none : (xs : List A) → head? (sort xs) ≡ none → xs ≡ []
  unfolding sort
  head-sort-none [] e = refl
  head-sort-none (x ∷ xs) e = absurd (place-ne-nil x (sort xs) e)

module _ {ℓ} {A : Type ℓ} (less : A → A → Bool)
    (asymm : (x y : A) → less x y ≡ true → less y x ≡ false)
    (neg_trans : (x y z : A) → less y x ≡ false → less z y ≡ false → less z x ≡ false) where
  abbrev IsMin : A → List A → Type 0
  IsMin c = All (λ d. less d c ≡ false)

  irrefl : (x : A) → less x x ≡ false
  irrefl x = elim (Bool-cases (less x x)) [ inl e ↦ asymm x x e | inr e ↦ e ]

  place-IsMin :
      (x : A) (xs ys : List A) {c : A}
      → ((y : A) → head? ys ≡ some y → IsMin y xs)
      → (head? ys ≡ none → xs ≡ [])
      → head? (place less x ys) ≡ some c
      → IsMin c (x ∷ xs)
  unfolding place
  place-IsMin x xs [] {c} h empty e =
      subst (λ z. IsMin z (x ∷ xs)) (some-injective _ _ e)
        (irrefl x, subst (IsMin x) (sym (empty refl)) tt)
  place-IsMin x xs (y ∷ ys) {c} h empty e = elim (Bool-cases (less y x)) [
    | inl before ↦
        let e' : some y ≡ some c = rw before at e in
        subst (λ z. IsMin z (x ∷ xs)) (some-injective _ _ e') (asymm y x before, h y refl)
    | inr after ↦
        let e' : some x ≡ some c = rw after at e in
        subst (λ z. IsMin z (x ∷ xs)) (some-injective _ _ e')
          (irrefl x, All-mono _ _ (λ d k. neg_trans x y d after k) xs (h y refl))
  ]

  -- nothing in the list stands before the head of the sorted list
  pub head-sort-min :
      (xs : List A) {c : A} → head? (sort less xs) ≡ some c → All (λ d. less d c ≡ false) xs
  unfolding sort
  head-sort-min [] e = cc
  head-sort-min (x ∷ xs) e =
      place-IsMin x xs (sort less xs) (λ y q. head-sort-min xs q) (head-sort-none less xs) e

  abbrev pub IsSorted : List A → Type 0
  IsSorted [] = Unit
  IsSorted (x ∷ xs) = All (λ y. less y x ≡ false) xs × IsSorted xs

  place-IsSorted : (x : A) (ys : List A) → IsSorted ys → IsSorted (place less x ys)
  unfolding place
  place-IsSorted x [] h = (tt, tt)
  place-IsSorted x (y ∷ ys) h = elim (Bool-cases (less y x)) [
    | inl before ↦ rw before (All-place less _ x ys (asymm y x before) h.0, place-IsSorted x ys h.1)
    | inr after ↦ rw after ((after, All-mono _ _ (λ d k. neg_trans x y d after k) ys h.0), h)
  ]

  pub sort-IsSorted : (xs : List A) → IsSorted (sort less xs)
  unfolding sort
  sort-IsSorted [] = tt
  sort-IsSorted (x ∷ xs) = place-IsSorted x (sort less xs) (sort-IsSorted xs)
