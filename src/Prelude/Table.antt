-- ===== src/Prelude/Table.antt =====
-- Python's `dict` with keys of any type that has equality, in insertion order.
use autonomerce.Prelude.{
  ℕ, ◌+◌, ◌≡◌, refl, Option, none, some, List, [], ◌∷◌, arith, Eq, ◌==◌, if◌then◌else◌, length,
}

abbrev pub Table {ℓ} : Type 0 → Type ℓ → Type ℓ
Table K V = List (K × V)

module _ {ℓ} {K : Type 0} {V : Type ℓ} ⦃e : Eq K⦄ where
  -- `d.get(k)`
  unfoldable pub find : K → Table K V → Option V
  find k [] = none
  find k ((j, v) ∷ d) = if j == k then some v else find k d

  -- `d[k] = v`
  unfoldable pub put : K → V → Table K V → Table K V
  put k v [] = (k, v) ∷ []
  put k v ((j, w) ∷ d) = if j == k then (j, v) ∷ d else (j, w) ∷ put k v d

  -- `d.pop(k, None)`, for a key that stands once
  unfoldable pub drop_key : K → Table K V → Table K V
  drop_key k [] = []
  drop_key k ((j, w) ∷ d) = let rest = drop_key k d in if j == k then rest else (j, w) ∷ rest

  -- `d.get(k, default)`
  unfoldable pub find_or : V → K → Table K V → V
  unfolding find
  find_or v k d = elim (find k d) [ none ↦ v | some w ↦ w ]

  pub find-put :
      (k j : K) (v : V) (d : Table K V) → find j (put k v d) ≡ (if k == j then some v else find j d)
  unfolding find put
  find-put k j v [] = refl
  find-put k j v ((i, w) ∷ d) = ground (arith, find-put k j v d)

  pub find-drop_key :
      (k j : K) (d : Table K V) → find j (drop_key k d) ≡ (if k == j then none else find j d)
  unfolding find drop_key
  find-drop_key k j [] = ground arith
  find-drop_key k j ((i, w) ∷ d) = ground (arith, find-drop_key k j d)

  pub find_or-put :
      (z : V) (k j : K) (v : V) (d : Table K V)
      → find_or z j (put k v d) ≡ (if k == j then v else find_or z j d)
  unfolding find_or
  find_or-put z k j v d = ground (arith, find-put k j v d)

  pub find_or-drop_key :
      (z : V) (k j : K) (d : Table K V)
      → find_or z j (drop_key k d) ≡ (if k == j then z else find_or z j d)
  unfolding find_or
  find_or-drop_key z k j d = ground (arith, find-drop_key k j d)

  -- a write makes at most one more entry, and none if the key was there
  pub length-put :
      (k : K) (v : V) (d : Table K V)
      → length (put k v d)
        ≡ (elim (find k d) as (λ _. ℕ) [ none ↦ length d + 1 | some _ ↦ length d ])
  unfolding find put
  length-put k v [] = refl
  length-put k v ((i, w) ∷ d) = ground (arith, length-put k v d)

abbrev pub pair_discrete : {A B : Type 0} → Discrete A → Discrete B → Discrete (A × B)
pair_discrete c d (a, b) (x, y) = elim (c a x) [
  | no p ↦ no (λ q. p (cc))
  | yes p ↦ elim (d b y) [ no q ↦ no (λ r. q (cc)) | yes q ↦ yes (cc) ]
]

instance abbrev pub pair_eq : {A B : Type 0} ⦃e : Eq A⦄ ⦃f : Eq B⦄ → Eq (A × B)
pair_eq ⦃e⦄ ⦃f⦄ = record { discrete = pair_discrete e.discrete f.discrete }
