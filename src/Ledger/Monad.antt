-- ===== src/Ledger/Monad.antt =====
-- A call that reads and writes the miner's globals. It returns, returns an error, or panics on a
-- nil pointer; the globals come back in each case, since what was written stays written.
use bazo_miner.Prelude.{Option, none, some, List, [], ◌∷◌, ◌++◌, ◌≡◌, refl, ap, sym, ◌∙◌}
use mathlib.Core.Path.{fun_ext}
use bazo_miner.Ledger.Types.{World}

-- The errors of state.go, one for each message.
pub data Error : Type 0 where
  account_missing address_exists root_overflow tx_cnt_mismatch insufficient_funds : Error
  staking_minimum_violated receiver_overflow already_set miner_overflow : Error

pub data Outcome (A : Type 0) : Type 0 where
  ok : A → Outcome A
  err : Error → Outcome A
  panic : Outcome A

abbrev pub Action : Type 0 → Type 0
Action A = World → Outcome A × World

abbrev pub Done : Type 0
Done = Unit {0}

module _ {A : Type 0} where
  abbrev pub pure : A → Action A
  pure a w = (ok a, w)

  abbrev pub raise : Error → Action A
  raise e w = (err e, w)

  abbrev pub gets : (World → A) → Action A
  gets f w = (ok (f w), w)

  -- The read of a pointer that may be nil.
  abbrev pub deref : Option A → Action A
  deref none w = (panic, w)
  deref (some a) w = (ok a, w)

abbrev pub modify : (World → World) → Action Done
modify f w = (ok tt, f w)

-- What follows a call: nothing, once it failed.
abbrev pub after : {A B : Type 0} → Outcome A × World → (A → Action B) → Outcome B × World
after (ok a, w) f = f a w
after (err e, w) f = (err e, w)
after (panic, w) f = (panic, w)

infixl 5 ◌>>=◌ ◌>>◌
abbrev pub ◌>>=◌ : {A B : Type 0} → Action A → (A → Action B) → Action B
◌>>=◌ m f w = after (m w) f

abbrev pub ◌>>◌ : {B : Type 0} → Action Done → Action B → Action B
m >> k = m >>= λ _. k

-- `if err != nil { return err }`
abbrev pub raise_some : Option Error → Action Done
raise_some none w = (ok tt, w)
raise_some (some e) w = (err e, w)

module _ {A B : Type 0} (m : Action A) (f : A → Action B) (w : World) {w' : World} where
  pub >>=-ok : {a : A} → m w ≡ (ok a, w') → (m >>= f) w ≡ f a w'
  >>=-ok h = ap (λ x. after x f) h

  pub >>=-err : {e : Error} → m w ≡ (err e, w') → (m >>= f) w ≡ (err e, w')
  >>=-err h = ap (λ x. after x f) h

  pub >>=-panic : m w ≡ (panic, w') → (m >>= f) w ≡ (panic, w')
  >>=-panic h = ap (λ x. after x f) h

-- What holds after a call that returned, after one that raised; nothing is said after a panic.
abbrev pub Post : (World → Type 0) → (World → Type 0) → Outcome Done × World → Type 0
Post P Q (ok _, w) = P w
Post P Q (err _, w) = Q w
Post P Q (panic, w) = Unit

pub Post-map :
    (P Q R S : World → Type 0) (x : Outcome Done × World)
    → Post P Q x
    → ((w : World) → P w → R w)
    → ((w : World) → Q w → S w)
    → Post R S x
Post-map P Q R S (ok _, w) h f g = f w h
Post-map P Q R S (err _, w) h f g = g w h
Post-map P Q R S (panic, w) h f g = tt

Post-rest :
    (P Q R S : World → Type 0) (x : Outcome Done × World) (k : Action Done)
    → Post P Q x
    → ((w : World) → P w → Post R S (k w))
    → ((w : World) → Q w → S w)
    → Post R S (after x (λ _. k))
Post-rest P Q R S (ok _, w) k h f g = f w h
Post-rest P Q R S (err _, w) k h f g = g w h
Post-rest P Q R S (panic, w) k h f g = tt

pub Post-then :
    (P Q R S : World → Type 0) (m k : Action Done) (w : World)
    → Post P Q (m w)
    → ((w' : World) → P w' → Post R S (k w'))
    → ((w' : World) → Q w' → S w')
    → Post R S ((m >> k) w)
Post-then P Q R S m k w h f g = Post-rest P Q R S (m w) k h f g

after-eq-ok :
    (x : Outcome Done × World) (k : Action Done) {w' : World}
    → after x (λ _. k) ≡ (ok tt, w')
    → (w₁ : World) × (x ≡ (ok tt, w₁)) × (k w₁ ≡ (ok tt, w'))
after-eq-ok (ok u, w) k h = (w, refl, h)
after-eq-ok (err e, w) k h = cc
after-eq-ok (panic, w) k h = cc

pub >>-eq-ok :
    (m k : Action Done) (w : World) {w' : World}
    → (m >> k) w ≡ (ok tt, w')
    → (w₁ : World) × (m w ≡ (ok tt, w₁)) × (k w₁ ≡ (ok tt, w'))
>>-eq-ok m k w h = after-eq-ok (m w) k h

-- `for _, tx := range txSlice`, where a `return err` in the body ends the loop.
abbrev pub for_each : {A : Type 0} → (A → Action Done) → List A → Action Done
for_each f [] w = (ok tt, w)
for_each f (x ∷ xs) w = (f x >> for_each f xs) w

after_assoc :
    (x : Outcome Done × World) (k l : Action Done)
    → after (after x (λ _. k)) (λ _. l) ≡ after x (λ _ w. after (k w) (λ _. l))
after_assoc (ok u, w) k l = refl
after_assoc (err e, w) k l = refl
after_assoc (panic, w) k l = refl

pub for_each-append :
    {A : Type 0} (f : A → Action Done) (xs ys : List A) (w : World)
    → for_each f (xs ++ ys) w ≡ (for_each f xs >> for_each f ys) w
for_each-append f [] ys w = refl
for_each-append f (x ∷ xs) ys w =
    ap (λ k. after (f x w) (λ _. k)) (fun_ext (for_each-append f xs ys))
    ∙ sym (after_assoc (f x w) (for_each f xs) (for_each f ys))
