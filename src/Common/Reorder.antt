-- ===== src/Common/Reorder.antt =====
-- A sort by a total order of the keys, on lists that differ in their order only.
use mathlib.Core.Path.{◌≡◌, refl, ap, ◌∙◌, subst, subst₂}
use mathlib.Core.Logic.{∥∥₁_elim}
use mathlib.Core.Bool.{Bool, true, false}
use mathlib.Core.List.{List, [], ◌∷◌, Perm, Permᴰ}
use native.Mathlib.Omega.{arith}
use appcenter_agent.Common.Lists.{All}
use appcenter_agent.Common.Sort.{place, sort}

-- no two elements stand in the relation's complement
abbrev pub Pairs {ℓ κ} : {A : Type ℓ} → (A → A → Type κ) → List A → Type κ
Pairs R [] = Unit
Pairs R (x ∷ xs) = All (R x) xs × Pairs R xs

module _ {ℓ κ} {A : Type ℓ} (P : A → Type κ) where
  All-perm : {xs ys : List A} → Permᴰ xs ys → All P xs → All P ys
  All-perm Permᴰ.nil h = tt
  All-perm (Permᴰ.cons e d) h = (subst P e h.0, All-perm d h.1)
  All-perm (Permᴰ.swap e f) (p, (q, r)) = (subst P f q, (subst P e p, r))
  All-perm (Permᴰ.trans d c) h = All-perm c (All-perm d h)

module _ {ℓ κ} {A : Type ℓ} (R : A → A → Type κ) (flip : (x y : A) → R x y → R y x) where
  Pairs-perm : {xs ys : List A} → Permᴰ xs ys → Pairs R xs → Pairs R ys
  Pairs-perm Permᴰ.nil h = tt
  Pairs-perm (Permᴰ.cons {a = a} {b = b} {l₂ = l} e d) h =
      (subst (λ z. All (R z) l) e (All-perm (R a) d h.0), Pairs-perm d h.1)
  Pairs-perm (Permᴰ.swap {a = a} {b = b} {a' = a'} {b' = b'} {l = l} e f) h =
      let (ab, al) = h.0 in
      let (bl, rest) = h.1 in
      (
        (subst₂ R f e (flip a b ab), subst (λ z. All (R z) l) f bl),
        (subst (λ z. All (R z) l) e al, rest),
      )
  Pairs-perm (Permᴰ.trans d c) h = Pairs-perm c (Pairs-perm d h)

-- one of the two stands before the other
abbrev pub Comparable {ℓ} : {A : Type ℓ} → (A → A → Bool) → A → A → Type 0
Comparable less x y = less x y ≡ false → less y x ≡ false → ⊥

module _ {ℓ} {A : Type ℓ} (less : A → A → Bool)
    (asymm : (x y : A) → less x y ≡ true → less y x ≡ false)
    (neg_trans : (x y z : A) → less y x ≡ false → less z y ≡ false → less z x ≡ false) where
  place_comm :
      (x y : A) (zs : List A)
      → Comparable less x y
      → place less x (place less y zs) ≡ place less y (place less x zs)
  unfolding place
  place_comm x y [] c = ground (arith, c, asymm x y, asymm y x)
  place_comm x y (z ∷ zs) c = ground (
    arith,
    c,
    place_comm x y zs c,
    asymm x y,
    asymm y x,
    asymm z x,
    asymm z y,
    neg_trans x y z,
    neg_trans y x z,
    neg_trans y z x,
    neg_trans x z y,
    neg_trans z x y,
    neg_trans z y x,
  )

  sort-permuted :
      {xs ys : List A} → Permᴰ xs ys → Pairs (Comparable less) xs → sort less xs ≡ sort less ys
  unfolding sort
  sort-permuted Permᴰ.nil h = refl
  sort-permuted (Permᴰ.cons {a = a} {l₂ = l} e d) h =
      ap (place less a) (sort-permuted d h.1) ∙ ap (λ z. place less z (sort less l)) e
  sort-permuted (Permᴰ.swap {a = a} {b = b} {a' = a'} {l = l} e f) h =
      place_comm a b (sort less l) h.0.0
      ∙ ap (λ z. place less z (place less a (sort less l))) f
      ∙ ap (λ z. place less a' (place less z (sort less l))) e
  sort-permuted (Permᴰ.trans d c) h =
      sort-permuted d h ∙ sort-permuted c (Pairs-perm (Comparable less) (λ x y p q r. p r q) d h)

  -- sorted, two lists with the same elements agree, if any two of the elements are comparable
  pub sort-perm {κ} :
      {B : Type κ} (set : IsSet B) (f : List A → B) {xs ys : List A}
      → Perm xs ys
      → Pairs (Comparable less) xs
      → f (sort less xs) ≡ f (sort less ys)
  sort-perm set f p h = ∥∥₁_elim p (set _ _) (λ d. ap f (sort-permuted d h))
