-- ===== src/Blocks/Steps.antt =====
-- Sequences of steps, of which one may fail.
use bazo_miner.Prelude.{List, ◌∷◌, ◌≡◌, ap, ◌∙◌, ◌⊎◌}
use bazo_miner.Ledger.Monad.{ok, err, Error}
use bazo_miner.Blocks.{ChainState, Result, Step, next_step, failing, undo_error, or_undo, run_all}

-- A state change that fails leaves everything as it was.
abbrev pub IsAtomic : Result → ChainState → Type 0
IsAtomic r s = ((e : Error) × (r ≡ (err e, s))) ⊎ ((s' : ChainState) × (r ≡ (ok tt, s')))

pub run_ok :
    (m : Step) (ms : List Step) (s s' : ChainState)
    → m s ≡ (ok tt, s')
    → run_all (m ∷ ms) s ≡ run_all ms s'
run_ok m ms s s' h = ap (λ r. next_step r (run_all ms)) h

pub run_err :
    (m : Step) (ms : List Step) (s s' : ChainState) (e : Error)
    → m s ≡ (err e, s')
    → run_all (m ∷ ms) s ≡ (err e, s')
run_err m ms s s' e h = ap (λ r. next_step r (run_all ms)) h

pub undone :
    (m u : Step) (s s₁ s₂ : ChainState) (e : Error)
    → m s ≡ (err e, s₁)
    → u s₁ ≡ (ok tt, s₂)
    → or_undo m u s ≡ (err e, s₂)
undone m u s s₁ s₂ e h k = ap (λ r. undo_error r u) h ∙ ap (failing e) k

pub not_undone : (m u : Step) (s s₁ : ChainState) → m s ≡ (ok tt, s₁) → or_undo m u s ≡ (ok tt, s₁)
not_undone m u s s₁ h = ap (λ r. undo_error r u) h
