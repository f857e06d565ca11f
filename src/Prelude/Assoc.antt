-- ===== src/Prelude/Assoc.antt =====
-- A Go map as an association list. Go's key equality is `==` on the numbers that stand for the
-- byte arrays; a write through a pointer that the map holds is `adjust`.
use mathlib.Core.Path.{subst, sym, ◌∙◌}
use mathlib.Core.Logic.{◌⊎◌, inl, inr}
use native.Mathlib.Decide.{ℕ_discrete}
use mathlib.Core.Option.{some-injective}
use bazo_miner.Prelude.{
  ℕ, ◌≡◌, refl, ◌≢◌, Bool, true, false, Option, none, some, List, [], ◌∷◌, arith, ◌==◌,
  if◌then◌else◌, Bool-cases,
}

abbrev pub Assoc {ℓ} : Type ℓ → Type ℓ
Assoc V = List (ℕ × V)

module _ {ℓ} {V : Type ℓ} where
  unfoldable pub lookup : ℕ → Assoc V → Option V
  lookup k [] = none
  lookup k ((j, v) ∷ s) = if k == j then some v else lookup k s

  -- `m[k] = v`
  unfoldable pub insert : ℕ → V → Assoc V → Assoc V
  insert k v [] = (k, v) ∷ []
  insert k v ((j, u) ∷ s) = if k == j then (j, v) ∷ s else (j, u) ∷ insert k v s

  -- `delete(m, k)`
  unfoldable pub erase : ℕ → Assoc V → Assoc V
  erase k [] = []
  erase k ((j, u) ∷ s) = if k == j then s else (j, u) ∷ erase k s

  unfoldable pub adjust : ℕ → (V → V) → Assoc V → Assoc V
  adjust k f [] = []
  adjust k f ((j, u) ∷ s) = if k == j then (j, f u) ∷ s else (j, u) ∷ adjust k f s

  -- A property of every value of the map.
  abbrev pub Each : (V → Type 0) → Assoc V → Type 0
  Each P [] = Unit
  Each P ((_, v) ∷ s) = P v × Each P s

module _ {ℓ} {V : Type ℓ} where
  pub lookup-insert_self : (k : ℕ) (v : V) (s : Assoc V) → lookup k (insert k v s) ≡ some v
  unfolding lookup insert
  lookup-insert_self k v [] = ground arith
  lookup-insert_self k v ((j, u) ∷ s) = ground (arith, lookup-insert_self k v s)

  pub lookup-adjust_self :
      (k : ℕ) (f : V → V) (s : Assoc V) {v : V}
      → lookup k s ≡ some v
      → lookup k (adjust k f s) ≡ some (f v)
  unfolding lookup adjust
  lookup-adjust_self k f [] h = cc
  lookup-adjust_self k f ((j, u) ∷ s) {v} h = ground (arith, lookup-adjust_self k f s {v = v})

  pub lookup-adjust_ne :
      (k j : ℕ) (f : V → V) (s : Assoc V) → j ≢ k → lookup j (adjust k f s) ≡ lookup j s
  unfolding lookup adjust
  lookup-adjust_ne k j f [] h = refl
  lookup-adjust_ne k j f ((i, u) ∷ s) h = ground (arith, lookup-adjust_ne k j f s)

  -- A write through a pointer leaves the keys as they are.
  pub lookup-adjust-none :
      (k j : ℕ) (f : V → V) (s : Assoc V) → lookup j s ≡ none → lookup j (adjust k f s) ≡ none
  unfolding lookup adjust
  lookup-adjust-none k j f [] h = refl
  lookup-adjust-none k j f ((i, u) ∷ s) h = ground (arith, lookup-adjust-none k j f s)

  -- Writes that commute on a value commute on the map, at one key or at two.
  pub adjust_comm :
      (j k : ℕ) (f g : V → V) (s : Assoc V)
      → ((v : V) → f (g v) ≡ g (f v))
      → adjust j f (adjust k g s) ≡ adjust k g (adjust j f s)
  unfolding adjust
  adjust_comm j k f g [] h = refl
  adjust_comm j k f g ((i, u) ∷ s) h = ground (arith, adjust_comm j k f g s h, h u)

  -- A write that another undoes, on the values that the map holds.
  pub adjust-adjust_undo :
      (k : ℕ) (f g : V → V) (P : V → Type 0) (s : Assoc V)
      → Each P s
      → ((v : V) → P v → f (g v) ≡ v)
      → adjust k f (adjust k g s) ≡ s
  unfolding adjust
  adjust-adjust_undo k f g P [] e h = refl
  adjust-adjust_undo k f g P ((i, u) ∷ s) (e, es) h =
      ground (arith, adjust-adjust_undo k f g P s es h, h u e)

  -- The same at one key, from the value that it has.
  pub adjust-adjust_undo_at :
      (k : ℕ) (f g : V → V) (s : Assoc V) {v : V}
      → lookup k s ≡ some v
      → f (g v) ≡ v
      → adjust k f (adjust k g s) ≡ s
  unfolding adjust lookup
  adjust-adjust_undo_at k f g [] e h = refl
  adjust-adjust_undo_at k f g ((i, u) ∷ s) {v} e h = elim (Bool-cases (k == i)) [
    | inl q ↦ let same : u ≡ v = some-injective u v (rw q at e) in ground (arith, same, h)
    | inr q ↦ let rest = adjust-adjust_undo_at k f g s (rw q at e) h in ground (arith, rest)
  ]

  pub adjust-Each :
      (k : ℕ) (f : V → V) (P : V → Type 0) (s : Assoc V)
      → Each P s
      → ((v : V) → P v → P (f v))
      → Each P (adjust k f s)
  unfolding adjust
  adjust-Each k f P [] e h = tt
  adjust-Each k f P ((i, u) ∷ s) (e, es) h =
      elim (k == i) as (λ b. Each P (if b then (i, f u) ∷ s else (i, u) ∷ adjust k f s)) [
        | true ↦ (h u e, es)
        | false ↦ (e, adjust-Each k f P s es h)
      ]

  pub Each-lookup :
      (k : ℕ) (P : V → Type 0) (s : Assoc V) {v : V} → Each P s → lookup k s ≡ some v → P v
  unfolding lookup
  Each-lookup k P [] e h = cc
  Each-lookup k P ((i, u) ∷ s) {v} (e, es) h =
      let go : (b : Bool) → (if b then some u else lookup k s) ≡ some v → P v = elim [
        | true ↦ λ q. subst P (some-injective u v q) e
        | false ↦ λ q. Each-lookup k P s es q
      ] in
      go (k == i) h

  -- The write changes one value, the one that a lookup finds.
  pub adjust-Each_at :
      (k : ℕ) (f : V → V) (P : V → Type 0) (s : Assoc V) {v : V}
      → Each P s
      → lookup k s ≡ some v
      → P (f v)
      → Each P (adjust k f s)
  unfolding lookup adjust
  adjust-Each_at k f P [] e h p = tt
  adjust-Each_at k f P ((i, u) ∷ s) {v} (e, es) h p =
      let go : (b : Bool)
          → (if b then some u else lookup k s) ≡ some v
          → Each P (if b then (i, f u) ∷ s else (i, u) ∷ adjust k f s) =
        elim [
          | true ↦ λ q. (subst (λ x. P (f x)) (sym (some-injective u v q)) p, es)
          | false ↦ λ q. (e, adjust-Each_at k f P s es q p)
        ] in
      go (k == i) h

  -- What a lookup finds after a write: the old value, or at the written key the new one.
  pub lookup-adjust-some :
      (k j : ℕ) (f : V → V) (s : Assoc V) {v : V}
      → lookup j s ≡ some v
      → (u : V) × (lookup j (adjust k f s) ≡ some u) × ((u ≡ v) ⊎ ((j ≡ k) × (u ≡ f v)))
  lookup-adjust-some k j f s {v} h = elim (ℕ_discrete j k) [
    | yes e ↦ (f v, rw e (lookup-adjust_self k f s (rw e at h)), inr (e, refl))
    | no d ↦ (v, lookup-adjust_ne k j f s d ∙ h, inl refl)
  ]
