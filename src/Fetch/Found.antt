-- ===== src/Fetch/Found.antt =====
-- The transactions that are fetched without an error are those that the block names.
use bazo_miner.Prelude.{
  ℕ, zero, suc, ◌≡◌, ◌⊎◌, inl, inr, refl, sym, ap, ◌∙◌, Bool, true, false, not, ◌||◌, Option, none,
  some, List, [], ◌∷◌, replicate, length, arith, ◌==◌, Bool-cases,
}
use bazo_miner.Ledger.Types.{Hash}
use bazo_miner.Storage.{Storage, Transaction, read_closed_tx, read_open_tx, read_invalid_open_tx}
use bazo_miner.Chain.{Net}
use bazo_miner.Fetch.Kinds.{
  TxAnswer, no_request, received, timed_out, Timeout, from_stash, go_on, give_up, Kind, Loop,
  finished, stopped, crashed, Next, then_rest, assert_kind, with_received, with_timeout,
  with_answer, from_pools, from_closed, fetch_data,
}

length-replicate {ℓ} : {A : Type ℓ} (n : ℕ) (a : A) → length (replicate n a) ≡ n
length-replicate zero a = refl
length-replicate (suc n) a = ap suc (length-replicate n a)

module _ (hash : Transaction → Hash) where
  -- Every transaction of the pools and buckets is stored under its hash.
  pub record IsFiled (s : Storage) : Type 0 where
    pub open_filed : (h : Hash) (t : Transaction) → read_open_tx h s ≡ some t → hash t ≡ h
    pub invalid_filed :
        (h : Hash) (t : Transaction) → read_invalid_open_tx h s ≡ some t → hash t ≡ h
    pub closed_filed : (h : Hash) (t : Transaction) → read_closed_tx h s ≡ some t → hash t ≡ h

  -- What a kind relies on.
  pub record IsLawful {T : Type 0} (kind : Kind T) : Type 0 where
    pub cast_same : (t : Transaction) (x : T) → kind.cast t ≡ some x → kind.as_tx x ≡ t
    pub receive_filed : (x : T) (s : Storage) → IsFiled s → IsFiled (kind.on_receive x s)
    pub stash_found :
        (h : Hash) (xs : List T) (x : T)
        → kind.on_timeout h xs ≡ from_stash x
        → hash (kind.as_tx x) ≡ h
    pub invalid_read :
        (h : Hash) (s : Storage) (t : Transaction)
        → kind.invalid_too h s ≡ some t
        → read_invalid_open_tx h s ≡ some t

  module _ {T : Type 0} (kind : Kind T) where
    abbrev pub Named : Hash → Option T → Type 0
    Named h none = ⊥
    Named h (some x) = hash (kind.as_tx x) ≡ h

    -- The slice has the transactions of the hashes, in their order; the places behind are not written.
    abbrev pub Names : List Hash → List (Option T) → Type 0
    Names [] os = os ≡ replicate (length os) none
    Names (h ∷ hs) [] = ⊥
    Names (h ∷ hs) (o ∷ os) = Named h o × Names hs os

    -- A loop that ran to its end without an error.
    abbrev pub IsFound : List Hash → (room : ℕ) → Loop T → Type 0
    IsFound hs room (finished os noted net) =
        ((noted ≡ true) ⊎ Names hs os) × (length os ≡ room) × IsFiled net.storage
    IsFound hs room (stopped net) = Unit
    IsFound hs room crashed = Unit

    module _ (lawful : IsLawful kind) (h : Hash) (hs : List Hash) (room : ℕ) (next : Next T)
        (next_found : (o : Option T) (noted : Bool) (net : Net)
          → IsFiled net.storage
          → (noted ≡ true) ⊎ Named h o
          → IsFound (h ∷ hs) room (next o noted net)) where
      assert_kind-IsFound :
          (t : Transaction) (o : Option T) (net : Net)
          → kind.cast t ≡ o
          → hash t ≡ h
          → IsFiled net.storage
          → IsFound (h ∷ hs) room (assert_kind o net next)
      assert_kind-IsFound t none net e f filed = tt
      assert_kind-IsFound t (some x) net e f filed =
          next_found (some x) false net filed (inr (ap hash (lawful.cast_same t x e) ∙ f))

      with_received-IsFound :
          (x : T) (net : Net)
          → IsFiled net.storage
          → IsFound (h ∷ hs) room (with_received hash kind h x net next)
      with_received-IsFound x net filed =
          next_found (some x) (not (hash (kind.as_tx x) == h)) net filed
            (elim (Bool-cases (hash (kind.as_tx x) == h)) [
              | inl e ↦ inr (ground arith)
              | inr e ↦ inl (rw e refl)
            ])

      with_timeout-IsFound :
          (o : Timeout T) (xs : List T) (net : Net)
          → kind.on_timeout h xs ≡ o
          → IsFiled net.storage
          → IsFound (h ∷ hs) room (with_timeout hash kind h o net next)
      with_timeout-IsFound (from_stash x) xs net e filed = with_received-IsFound x net filed
      with_timeout-IsFound go_on xs net e filed = next_found none true net filed (inl refl)
      with_timeout-IsFound give_up xs net e filed = tt

      with_answer-IsFound :
          (a : TxAnswer T) (net : Net)
          → IsFiled net.storage
          → IsFound (h ∷ hs) room (with_answer hash kind h a net next)
      with_answer-IsFound no_request net filed = tt
      with_answer-IsFound (received x) net filed =
          with_received-IsFound x (record net { storage = kind.on_receive x net.storage })
            (lawful.receive_filed x net.storage filed)
      with_answer-IsFound (timed_out xs) net filed =
          with_timeout-IsFound (kind.on_timeout h xs) xs net refl filed

      from_pools-IsFound :
          (opened invalid : Option Transaction) (net : Net)
          → read_open_tx h net.storage ≡ opened
          → kind.invalid_too h net.storage ≡ invalid
          → IsFiled net.storage
          → IsFound (h ∷ hs) room (from_pools hash kind h opened invalid net next)
      from_pools-IsFound (some t) invalid net e f filed =
          assert_kind-IsFound t (kind.cast t) net refl (filed.open_filed h t e) filed
      from_pools-IsFound none (some t) net e f filed =
          assert_kind-IsFound t (kind.cast t) net refl
            (filed.invalid_filed h t (lawful.invalid_read h net.storage t f)) filed
      from_pools-IsFound none none net e f filed =
          with_answer-IsFound (kind.ask net.requests h) (record net { requests = suc net.requests })
            filed

      from_closed-IsFound :
          (initial : Bool) (closed : Option Transaction) (net : Net)
          → read_closed_tx h net.storage ≡ closed
          → IsFiled net.storage
          → IsFound (h ∷ hs) room (from_closed hash kind initial h closed net next)
      from_closed-IsFound true (some t) net e filed =
          assert_kind-IsFound t (kind.cast t) net refl (filed.closed_filed h t e) filed
      from_closed-IsFound false (some t) net e filed = tt
      from_closed-IsFound true none net e filed =
          from_pools-IsFound (read_open_tx h net.storage) (kind.invalid_too h net.storage) net refl
            refl filed
      from_closed-IsFound false none net e filed =
          from_pools-IsFound (read_open_tx h net.storage) (kind.invalid_too h net.storage) net refl
            refl filed

    either :
        (h : Hash) (hs : List Hash) (noted later : Bool) (o : Option T) (os : List (Option T))
        → (noted ≡ true) ⊎ Named h o
        → (later ≡ true) ⊎ Names hs os
        → ((noted || later) ≡ true) ⊎ (Named h o × Names hs os)
    either h hs true later o os e f = inl refl
    either h hs false true o os e f = inl refl
    either h hs false false o os (inl e) f = absurd (cc)
    either h hs false false o os (inr e) (inl f) = absurd (cc)
    either h hs false false o os (inr e) (inr f) = inr (e, f)

    then_rest-IsFound :
        (h : Hash) (hs : List Hash) (room : ℕ) (o : Option T) (noted : Bool) (rest : Loop T)
        → (noted ≡ true) ⊎ Named h o
        → IsFound hs room rest
        → IsFound (h ∷ hs) (suc room) (then_rest o noted rest)
    then_rest-IsFound h hs room o noted (finished os later net) e (f, len, filed) =
        (either h hs noted later o os e f, omega (arith, len), filed)
    then_rest-IsFound h hs room o noted (stopped net) e f = tt
    then_rest-IsFound h hs room o noted crashed e f = tt

    -- A loop of one of the five functions that ends without an error has filled its slice, as long as
    -- the block's count, with the transactions that have the hashes of the block, in order, on a
    -- storage where transactions stand under their hashes, which stays so.
    pub fetch_data-IsFound :
        IsLawful kind
        → (initial : Bool) (room : ℕ) (hs : List Hash) (net : Net) → IsFiled net.storage
        → IsFound hs room (fetch_data hash kind initial room hs net)
    unfolding fetch_data
    fetch_data-IsFound lawful initial room [] net filed =
        let nil : Option T = none in
        let len = length-replicate room nil in
        (inr (ap (λ (n : ℕ). replicate n none) (sym len)), len, filed)
    fetch_data-IsFound lawful initial zero (h ∷ hs) net filed =
        from_closed-IsFound lawful h hs zero (λ o noted net'. crashed) (λ o noted net' f e. tt)
          initial (read_closed_tx h net.storage) net refl filed
    fetch_data-IsFound lawful initial (suc room) (h ∷ hs) net filed =
        from_closed-IsFound lawful h hs (suc room)
          (λ o noted net'. then_rest o noted (fetch_data hash kind initial room hs net'))
          (λ o noted net' f e.
            then_rest-IsFound h hs room o noted (fetch_data hash kind initial room hs net') e
              (fetch_data-IsFound lawful initial room hs net' f))
          initial (read_closed_tx h net.storage) net refl filed
