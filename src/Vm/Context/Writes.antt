-- ===== src/Vm/Context/Writes.antt =====
-- Writes to contract variables: when they are seen, and which ones make PersistChanges panic.
use bazo_miner.Prelude.{
  ℕ, ◌≤◌, ◌<◌, ◌≡◌, ◌≢◌, refl, true, false, Option, none, some, List, [], ◌∷◌, ◌++◌, length, set,
  arith, ap, ◌∙◌, ◌⊎◌, inl, inr, le-or-lt, ltb, Bool-cases, length-set, get_elem?-set_self,
  get_elem?-set_ne,
}
use bazo_miner.Prelude.Int.{ℤ, pos, negsuc, ltb_ℤ}
use bazo_miner.Vm.Result.{Bytes, Result, ok, err}
use bazo_miner.Vm.Context.{
  Context, Change, get_contract_variable, set_contract_variable, write_variable, and_persist,
  persist, persist_changes,
}

persist-append :
    (cs : List Change) (c : Change) (vars : List Bytes)
    → persist (cs ++ c ∷ []) vars ≡ and_persist (persist cs vars) (write_variable c.index c.value)
unfolding persist
persist-append [] c vars = last (write_variable c.index c.value vars)
  where
    last : (o : Option (List Bytes)) → and_persist o (persist []) ≡ o
    last none = refl
    last (some vs) = refl
persist-append (d ∷ cs) c vars = rest (write_variable d.index d.value vars) (persist-append cs c)
  where
    rest :
        (o : Option (List Bytes))
        → ((vs : List Bytes)
            → persist (cs ++ c ∷ []) vs
              ≡ and_persist (persist cs vs) (write_variable c.index c.value))
        → and_persist o (persist (cs ++ c ∷ []))
          ≡ and_persist (and_persist o (persist cs)) (write_variable c.index c.value)
    rest none later = refl
    rest (some vs) later = later vs

length-write :
    (i : ℤ) (value : Bytes) (vars vars' : List Bytes)
    → write_variable i value vars ≡ some vars'
    → length vars' ≡ length vars
unfolding write_variable
length-write (negsuc n) value vars vars' e = absurd (cc)
length-write (pos n) value vars vars' e = elim (Bool-cases (ltb n (length vars))) [
  | inl l ↦
      let k = rw l at e in
      let s : vars' ≡ set vars n value = cc in ap length s ∙ length-set vars n value
  | inr l ↦ absurd (let k = rw l at e in cc)
]

length-persist :
    (cs : List Change) (vars vars' : List Bytes)
    → persist cs vars ≡ some vars'
    → length vars' ≡ length vars
unfolding persist
length-persist [] vars vars' e = let s : vars' ≡ vars = cc in ap length s
length-persist (c ∷ cs) vars vars' e =
    first_write (write_variable c.index c.value vars) (λ vs. length-persist cs vs vars') refl e
  where
    first_write :
        (o : Option (List Bytes))
        → ((vs : List Bytes) → persist cs vs ≡ some vars' → length vars' ≡ length vs)
        → write_variable c.index c.value vars ≡ o
        → and_persist o (persist cs) ≡ some vars'
        → length vars' ≡ length vars
    first_write none later w h = absurd (cc)
    first_write (some vs) later w h = later vs h ∙ length-write c.index c.value vars vs w

-- The context with the variables that PersistChanges leaves.
abbrev pub persisted : Context → List Bytes → Context
persisted c vars = record c { contract_variables = vars }

-- What a write inside the bounds does to the reads before the changes are made, and to PersistChanges.
pub record IsDeferred (i : ℕ) (value : Bytes) (c c' : Context) : Type 0 where
  pub unseen : (j : ℤ) → get_contract_variable j c' ≡ get_contract_variable j c
  pub made :
      (vars : List Bytes)
      → persist_changes c ≡ some vars
      → (vars' : List Bytes) × (persist_changes c' ≡ some vars')
        × (get_contract_variable (pos i) (persisted c' vars') ≡ ok value)
        × ((j : ℕ)
            → i ≢ j
            → get_contract_variable (pos j) (persisted c' vars')
              ≡ get_contract_variable (pos j) (persisted c vars))

abbrev read : Option Bytes → Result Bytes
read o = elim o [ none ↦ err "Index out of bounds" | some variable ↦ ok variable ]

abbrev written : ℤ → Bytes → Context → Context
written i value c = record c { changes = c.changes ++ record { index = i; value = value } ∷ [] }

deferred :
    (i : ℕ) (value : Bytes) (c : Context)
    → i < length c.contract_variables
    → IsDeferred i value c (written (pos i) value c)
unfolding get_contract_variable persist_changes write_variable
deferred i value c h =
    let change : Change = record { index = pos i; value = value } in
    record {
      unseen = λ j. unchanged j;
      made = λ vars e.
          let low : ltb i (length vars) ≡ true =
            ground (arith, length-persist c.changes c.contract_variables vars e) in
          (
            set vars i value,
            persist-append c.changes change c.contract_variables ∙ rw (e, low) refl,
            ap read (get_elem?-set_self vars i value (ground arith)),
            λ j n. ap read (get_elem?-set_ne vars value n),
          );
    }
  where
    unchanged :
        (j : ℤ) → get_contract_variable j (written (pos i) value c) ≡ get_contract_variable j c
    unchanged (pos n) = refl
    unchanged (negsuc n) = refl

undone : (n : ℕ) (value : Bytes) (c : Context) → persist_changes (written (negsuc n) value c) ≡ none
unfolding persist_changes write_variable
undone n value c =
    persist-append c.changes (record { index = negsuc n; value = value }) c.contract_variables
    ∙ nothing (persist c.changes c.contract_variables)
  where
    nothing : (o : Option (List Bytes)) → and_persist o (write_variable (negsuc n) value) ≡ none
    nothing none = refl
    nothing (some vs) = refl

-- A write at an index inside the bounds is accepted; no read sees it until the changes are persisted,
-- which then succeeds when it does without the write, gives the variable the new value and leaves every
-- other one as without the write. A write above the bounds is an error and changes nothing. A write at a
-- negative index is accepted, and PersistChanges panics.
pub set_contract_variable-IsDeferred :
    (i : ℤ) (value : Bytes) (c : Context)
    → ((n : ℕ) × (i ≡ pos n)
        × (n < length c.contract_variables)
        × ((set_contract_variable i value c).0 ≡ ok tt)
        × IsDeferred n value c (set_contract_variable i value c).1)
      ⊎ (((n : ℕ) × (i ≡ pos n)
            × (length c.contract_variables ≤ n)
            × (set_contract_variable i value c ≡ (err "Index out of bounds", c)))
          ⊎ ((n : ℕ) × (i ≡ negsuc n)
              × ((set_contract_variable i value c).0 ≡ ok tt)
              × (persist_changes (set_contract_variable i value c).1 ≡ none)))
unfolding set_contract_variable
set_contract_variable-IsDeferred (pos n) value c = elim (le-or-lt (length c.contract_variables) n) [
  | inr h ↦
      let low : ltb_ℤ (pos n) (pos (length c.contract_variables)) ≡ true = ground arith in
      inl (n, refl, h, rw low refl, rw low (deferred n value c h))
  | inl h ↦
      let high : ltb_ℤ (pos n) (pos (length c.contract_variables)) ≡ false = ground arith in
      inr (inl (n, refl, h, rw high refl))
]
set_contract_variable-IsDeferred (negsuc n) value c =
    let low : ltb_ℤ (negsuc n) (pos (length c.contract_variables)) ≡ true = ground arith in
    inr (inr (n, refl, rw low refl, rw low (undone n value c)))
