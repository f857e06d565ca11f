-- ===== src/Fetch/Aggregated.antt =====
-- fetchAggTxData (miner/block_aggregatetx.go) and fetchFundsTxRecursively (miner/block_fundstx.go):
-- the aggregations of a block and the fund transactions that they aggregate.
use bazo_miner.Prelude.{
  ℕ, zero, suc, Bool, true, false, not, ◌&&◌, ◌||◌, Option, none, some, List, [], ◌∷◌, ◌++◌,
  replicate, ◌==◌, if◌then◌else◌,
}
use bazo_miner.Ledger.Types.{Hash, FundsTx, AggTx}
use bazo_miner.Storage.{
  Storage, Transaction, funds, agg, read_closed_tx, read_open_tx, read_invalid_open_tx,
  write_open_tx, first_found,
}
use bazo_miner.Chain.{Net}
use bazo_miner.Fetch.Kinds.{Network, no_request, received, timed_out}

-- The collected fund transactions, with whether an error was sent on the way.
pub data Gathered : Type 0 where
  gathered : List FundsTx → (noted : Bool) → Net → Gathered
  gather_failed : Net → Gathered
  gather_crashed : Gathered
  gather_hung : Gathered

abbrev pub asked : Net → Net
asked net = record net { requests = suc net.requests }

-- The slice of aggregations, and the fund transactions for the channel.
pub data AggLoop : Type 0 where
  agg_finished : List (Option AggTx) → List FundsTx → (noted : Bool) → Net → AggLoop
  agg_stopped : Net → AggLoop
  agg_crashed : AggLoop
  agg_hung : AggLoop

abbrev pub then_aggs : AggTx → (noted : Bool) → AggLoop → AggLoop
then_aggs x noted (agg_finished os xs later net) =
    agg_finished (some x ∷ os) xs (noted || later) net
then_aggs x noted (agg_stopped net) = agg_stopped net
then_aggs x noted agg_crashed = agg_crashed
then_aggs x noted agg_hung = agg_hung

module _ (hash : Transaction → Hash) (network : Network) where
  abbrev pub store : Transaction → Net → Net
  store t net = record net { storage = write_open_tx hash t net.storage }

  abbrev pub find_tx : Hash → List Transaction → Option Transaction
  find_tx h [] = none
  find_tx h (t ∷ ts) = if hash t == h then some t else find_tx h ts

  abbrev pub find_agg : Hash → List AggTx → Option AggTx
  find_agg h [] = none
  find_agg h (x ∷ xs) = if hash (agg x) == h then some x else find_agg h xs

  abbrev pub find_in_funds : Hash → List Transaction → Option Transaction
  find_in_funds h [] = none
  find_in_funds h (funds x ∷ ts) =
      if hash (funds x) == h then some (funds x) else find_in_funds h ts
  find_in_funds h (t ∷ ts) = find_in_funds h ts

  abbrev pub and_funds : List FundsTx → Gathered → Gathered
  and_funds xs (gathered ys noted net) = gathered (xs ++ ys) noted net
  and_funds xs (gather_failed net) = gather_failed net
  and_funds xs gather_crashed = gather_crashed
  and_funds xs gather_hung = gather_hung

  abbrev pub note_if : Bool → Gathered → Gathered
  note_if noted (gathered ys later net) = gathered ys (noted || later) net
  note_if noted (gather_failed net) = gather_failed net
  note_if noted gather_crashed = gather_crashed
  note_if noted gather_hung = gather_hung

  -- The three tries of a request: `goto NEXTTRY` when the hash is in no stash after the timeout. The
  -- stash of the answer has the aggregations first, as the code searches them.
  unfoldable pub try_unknown :
      (tries : ℕ) → Hash → (Net → Gathered) → (Transaction → Net → Gathered) → Net → Gathered
  try_unknown zero h failed next net = failed net
  try_unknown (suc tries) h failed next net = elim (network.ask_unknown net.requests h) [
    | no_request ↦ failed (asked net)
    | received t ↦ note_if (not (hash t == h)) (next t (store t (asked net)))
    | timed_out ts ↦ elim (find_tx h ts) [
      | some t ↦ next t (store t (asked net))
      | none ↦ try_unknown tries h failed next (asked net)
    ]
  ]

  -- A fund transaction is collected; an aggregation was validated in an older block.
  abbrev pub collect : Transaction → (Net → Gathered) → Net → Gathered
  collect (funds x) rest net = and_funds (x ∷ []) (rest net)
  collect (agg x) rest net = rest net
  collect _ rest net = gather_crashed

  -- "Only the new ones": what is not closed. The invalid pool is never asked, since its branch
  -- stands under a test that has just failed.
  unfoldable pub gather_new : List Hash → Net → Gathered
  gather_new [] net = gathered [] false net
  gather_new (h ∷ hs) net = elim (read_closed_tx h net.storage) [
    | some t ↦ gather_new hs net
    | none ↦ elim (read_open_tx h net.storage) [
      | some t ↦ collect t (gather_new hs) net
      | none ↦
          try_unknown 3 h (λ net'. gather_failed net') (λ t net'. collect t (gather_new hs) net')
            net
    ]
  ]

  -- The search of fetchFundsTxRecursively: closed, open, invalid.
  abbrev pub in_pools : Hash → Storage → Option Transaction
  in_pools h s =
      first_found (read_closed_tx h s) (first_found (read_open_tx h s) (read_invalid_open_tx h s))

  -- An aggregation in the stash is looked up in the stash of fund transactions: the pointer stays nil.
  abbrev pub from_stashes :
      Hash → List Transaction → (Transaction → Net → Gathered) → Net → Gathered
  from_stashes h ts next net = elim (find_in_funds h ts) [
    | some t ↦ next t (store t net)
    | none ↦ elim (find_tx h ts) [ some t ↦ gather_crashed | none ↦ gather_failed net ]
  ]

  -- What is collected before an error of a nested call is dropped with it, unless a later
  -- aggregation replaces the error; `failed` says whether the last nested call failed.
  unfoldable pub fetch_funds_tx_recursively :
      (fuel : ℕ) → List Hash → (failed : Bool) → List FundsTx → Net → Gathered
  fetch_funds_tx_recursively zero hs failed xs net = gather_hung
  fetch_funds_tx_recursively (suc fuel) [] failed xs net =
      if failed then gather_failed net else gathered xs false net
  fetch_funds_tx_recursively (suc fuel) (h ∷ hs) failed xs net =
      let next : Transaction → Net → Gathered = λ t net'. elim t [
        | funds x ↦ fetch_funds_tx_recursively fuel hs failed (xs ++ x ∷ []) net'
        | agg x ↦ elim (fetch_funds_tx_recursively fuel x.aggregated_tx_slice false [] net') [
          | gathered ys noted net'' ↦ fetch_funds_tx_recursively fuel hs false (xs ++ ys) net''
          | gather_failed net'' ↦ fetch_funds_tx_recursively fuel hs true xs net''
          | gather_crashed ↦ gather_crashed
          | gather_hung ↦ gather_hung
        ]
        | _ ↦ fetch_funds_tx_recursively fuel hs failed xs net'
      ] in
      elim (in_pools h net.storage) [
        | some t ↦ next t net
        | none ↦ elim (network.ask_unknown net.requests h) [
          | no_request ↦ gather_failed (asked net)
          | received t ↦
              if hash t == h then next t (store t (asked net)) else gather_failed (asked net)
          | timed_out ts ↦ from_stashes h ts next (asked net)
        ]
      ]

  -- The aggregation itself: three tries to fetch it.
  unfoldable pub try_agg :
      (tries : ℕ) → Hash → (AggTx → (noted : Bool) → Net → AggLoop) → Net → AggLoop
  try_agg zero h next net = agg_stopped net
  try_agg (suc tries) h next net = elim (network.ask_agg net.requests h) [
    | no_request ↦ agg_stopped (asked net)
    | received x ↦ next x (not (hash (agg x) == h)) (store (agg x) (asked net))
    | timed_out xs ↦ elim (find_agg h xs) [
      | some x ↦ next x false (asked net)
      | none ↦ try_agg tries h next (asked net)
    ]
  ]

  -- After the initial setup the fund transactions that are not closed are gathered; on it all of them
  -- are, unless the aggregation is aggregated itself, and the last aggregation's replace the others.
  abbrev pub with_funds : (fuel : ℕ) (initial : Bool) → AggTx → List FundsTx → Net → Gathered
  with_funds fuel true x xs net =
      if x.aggregated
      then gathered xs false net
      else fetch_funds_tx_recursively fuel x.aggregated_tx_slice false [] net
  with_funds fuel false x xs net = and_funds xs (gather_new x.aggregated_tx_slice net)

  abbrev pub with_agg :
      (fuel : ℕ) (initial noted : Bool)
      → AggTx
      → List FundsTx
      → Net
      → (List FundsTx → Net → AggLoop)
      → AggLoop
  with_agg fuel initial noted x xs net rest = elim (with_funds fuel initial x xs net) [
    | gathered ys later net' ↦ then_aggs x (noted || later) (rest ys net')
    | gather_failed net' ↦ agg_stopped net'
    | gather_crashed ↦ agg_crashed
    | gather_hung ↦ agg_hung
  ]

  -- `aggTx.(*protocol.AggTx)`, and an aggregation of an older block, unless it is aggregated.
  abbrev pub closed_agg : (initial : Bool) → Transaction → Net → (AggTx → Net → AggLoop) → AggLoop
  closed_agg initial (agg x) net next =
      if not initial && not x.aggregated then agg_stopped net else next x net
  closed_agg initial _ net next = agg_crashed

  abbrev pub assert_agg : Transaction → Net → (AggTx → Net → AggLoop) → AggLoop
  assert_agg (agg x) net next = next x net
  assert_agg _ net next = agg_crashed

  -- `room` is the count of aggregations in the block.
  unfoldable pub fetch_agg_tx_data :
      (fuel : ℕ) (initial : Bool) → (room : ℕ) → List Hash → List FundsTx → Net → AggLoop
  fetch_agg_tx_data fuel initial room [] xs net = agg_finished (replicate room none) xs false net
  fetch_agg_tx_data fuel initial room (h ∷ hs) xs net =
      let next : Bool → AggTx → Net → AggLoop = λ noted x net'. elim room [
        | zero ↦ agg_crashed
        | suc room' ↦
            with_agg fuel initial noted x xs net'
              (λ ys net''. fetch_agg_tx_data fuel initial room' hs ys net'')
      ] in
      elim (read_closed_tx h net.storage) [
        | some t ↦ closed_agg initial t net (next false)
        | none ↦
            elim (first_found (read_open_tx h net.storage) (read_invalid_open_tx h net.storage)) [
              | some t ↦ assert_agg t net (next false)
              | none ↦ try_agg 3 h (λ x noted net'. next noted x net') net
            ]
      ]
