-- ===== src/Common/Dict.antt =====
-- Go maps as association lists. `m[k] = v` keeps the place of a key that is there; the laws below
-- are all that the components use, and a map's iteration order is the order of its entries.
use mathlib.Core.Path.{◌≡◌, refl, sym, ap, ◌∙◌, subst₂}
use mathlib.Core.Logic.{inl, inr}
use mathlib.Core.Bool.{Bool, true, false}
use mathlib.Core.List.{List, [], ◌∷◌, map}
use mathlib.Core.Option.{Option, none, some, some-injective}
use native.Mathlib.Omega.{arith}
use appcenter_agent.Common.Tests.{if◌then◌else◌, is_some, Bool-cases}
use appcenter_agent.Common.Lists.{All, All-mono}
use appcenter_agent.Common.Equality.{HasEq, ◌==◌}

abbrev pub Dict {ℓ κ} : Type ℓ → Type κ → Type (ℓ ⊔ κ)
Dict K V = List (K × V)

module _ {ℓ κ} {K : Type ℓ} {V : Type κ} ⦃e : HasEq K⦄ where
  unfoldable pub lookup : K → Dict K V → Option V
  lookup wanted [] = none
  lookup wanted (entry ∷ m) = if entry.0 == wanted then some entry.1 else lookup wanted m

  abbrev pub contains : K → Dict K V → Bool
  contains k m = is_some (lookup k m)

  -- the entries' values, in iteration order
  abbrev pub values : Dict K V → List V
  values = map (λ e. e.1)

  abbrev pub keys : Dict K V → List K
  keys = map (λ e. e.0)

  -- no key stands twice, as in every Go map
  abbrev pub Distinct : Dict K V → Type κ
  Distinct [] = Unit
  Distinct ((k, v) ∷ m) = (lookup k m ≡ none) × Distinct m

  unfoldable pub insert : K → V → Dict K V → Dict K V
  insert new value [] = (new, value) ∷ []
  insert new value (entry ∷ m) =
      if entry.0 == new then (new, value) ∷ m else entry ∷ insert new value m

  unfoldable pub delete : K → Dict K V → Dict K V
  delete k [] = []
  delete k ((j, v) ∷ m) = let rest = delete k m in if j == k then rest else (j, v) ∷ rest

  pub lookup-insert :
      (new wanted : K) (value : V) (m : Dict K V)
      → lookup wanted (insert new value m) ≡ (if new == wanted then some value else lookup wanted m)
  unfolding lookup insert
  lookup-insert new wanted value [] = refl
  lookup-insert new wanted value (entry ∷ m) = ground (
    arith,
    lookup-insert new wanted value m,
    e.test_iff entry.0 new,
    e.test_iff entry.0 wanted,
    e.test_iff new wanted,
  )

  pub lookup-delete :
      (gone wanted : K) (m : Dict K V)
      → lookup wanted (delete gone m) ≡ (if gone == wanted then none else lookup wanted m)
  unfolding lookup delete
  lookup-delete gone wanted [] = ground arith
  lookup-delete gone wanted (entry ∷ m) = ground (
    arith,
    lookup-delete gone wanted m,
    e.test_iff entry.0 gone,
    e.test_iff entry.0 wanted,
    e.test_iff gone wanted,
  )

  pub lookup-insert_self : (k : K) (v : V) (m : Dict K V) → lookup k (insert k v m) ≡ some v
  lookup-insert_self k v m = rw (lookup-insert, (e.test_iff k k).1 refl)

  pub lookup-delete_self : (k : K) (m : Dict K V) → lookup k (delete k m) ≡ none
  lookup-delete_self k m = rw (lookup-delete, (e.test_iff k k).1 refl)

  pub contains-insert :
      (k j : K) (v : V) (m : Dict K V)
      → contains j (insert k v m) ≡ (if k == j then true else contains j m)
  contains-insert k j v m = rw lookup-insert (ground arith)

  pub contains-delete :
      (k j : K) (m : Dict K V) → contains j (delete k m) ≡ (if k == j then false else contains j m)
  contains-delete k j m = rw lookup-delete (ground arith)

  pub Distinct-insert : (k : K) (v : V) (m : Dict K V) → Distinct m → Distinct (insert k v m)
  unfolding lookup insert
  Distinct-insert k v [] h = (refl, tt)
  Distinct-insert k v ((j, w) ∷ m) h =
      ground
        (arith, e.test_iff j k, e.test_iff k j, Distinct-insert k v m h.1, lookup-insert k j v m)

  pub Distinct-delete : (k : K) (m : Dict K V) → Distinct m → Distinct (delete k m)
  unfolding delete
  Distinct-delete k [] h = tt
  Distinct-delete k ((j, w) ∷ m) h = ground (arith, Distinct-delete k m h.1, lookup-delete k j m)

  module _ {ℓ'} (P : K × V → Type ℓ') where
    pub All-insert : (k : K) (v : V) (m : Dict K V) → P (k, v) → All P m → All P (insert k v m)
    unfolding insert
    All-insert k v [] p h = (p, tt)
    All-insert k v ((j, w) ∷ m) p h = ground (arith, All-insert k v m p h.1)

    pub All-delete : (k : K) (m : Dict K V) → All P m → All P (delete k m)
    unfolding delete
    All-delete k [] h = tt
    All-delete k ((j, w) ∷ m) h = ground (arith, All-delete k m h.1)

    pub All-lookup : (k : K) (m : Dict K V) {v : V} → All P m → lookup k m ≡ some v → P (k, v)
    unfolding lookup
    All-lookup k [] h q = cc
    All-lookup k ((j, w) ∷ m) {v} h q = elim (Bool-cases (j == k)) [
      | inl hit ↦
          let found : some w ≡ some v = sym (ap (λ b. if b then some w else lookup k m) hit) ∙ q in
          subst₂ (λ i u. P (i, u)) ((e.test_iff j k).0 hit) (some-injective _ _ found) h.0
      | inr miss ↦ All-lookup k m h.1 (sym (ap (λ b. if b then some w else lookup k m) miss) ∙ q)
    ]

  pub lookup_own : (m : Dict K V) → Distinct m → All (λ (a : K × V). lookup a.0 m ≡ some a.1) m
  unfolding lookup
  lookup_own [] h = tt
  lookup_own ((k, v) ∷ m) h = (
    rw ((e.test_iff k k).1 refl),
    All-mono _ _ (λ a q. ground (arith, e.test_iff k a.0, h.0)) m (lookup_own m h.1),
  )
