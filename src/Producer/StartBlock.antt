-- ===== src/Producer/StartBlock.antt =====
-- `getStartBlock` and `checkIfBlocksSynced` of internal/block_producers/block_producer.ts. The remote
-- node is an argument: what `blockGetter.getBlock` and `getLatestBlockNumber` give.
use chain_indexer_framework.Prelude.{
  ℕ, zero, suc, Bool, true, false, String, Option, none, some, if◌then◌else◌, or_default,
}
use chain_indexer_framework.Prelude.Int.{ℤ, pos, ◌+ℤ◌, ◌-ℤ◌, eq_ℤ, leb_ℤ}
use chain_indexer_framework.Prelude.Text.{str_eq, ◌++ˢ◌}
use chain_indexer_framework.Errors.Codes
use chain_indexer_framework.Errors.Value.{
  is_block_producer_class, cause_of, JsObject, JsValue, object, is_error_instance, print_number,
}
use chain_indexer_framework.Errors.Classes.{new_block_producer_error}
use chain_indexer_framework.Store.{Outcome, done, failed, ProducedBlock, Collection, get}

-- The part of web3's block that is read here.
pub record RemoteBlock : Type 0 where
  pub number : ℤ
  pub hash : String

pub data Start : Type 0 where
  start_at : ℤ → Start
  -- Handed to `onError`, then thrown.
  reported : JsObject → Start
  -- A query of MongoDB failed: thrown.
  thrown : JsValue → Start

-- `${blockNumber}`
abbrev pub print_optional : Option ℤ → String
print_optional none = "undefined"
print_optional (some n) = print_number n

abbrev pub fetch_error : (JsValue → String) → Option ℤ → JsValue → JsObject
fetch_error stringify block_number error = new_block_producer_error (record {
  name = some "Remote block fetch error";
  code = some Codes.rpc_err;
  is_fatal = some true;
  message = some (
      "Error fetching block "
      ++ˢ print_optional block_number
      ++ˢ " in getStartBlock: "
      ++ˢ cause_of stringify error);
  origin = some "remote";
  stack = none;
})

-- The `catch` around the fetch.
unfoldable pub wrap_fetch_error : (JsValue → String) → Option ℤ → JsValue → JsObject
unfolding new_block_producer_error is_error_instance print_number
wrap_fetch_error stringify block_number (object o) =
    if is_block_producer_class o.class then o else fetch_error stringify block_number (object o)
wrap_fetch_error stringify block_number error = fetch_error stringify block_number error

-- `if (blockNumber) return blockNumber; return this.startBlock;`, and `blockNumber || this.startBlock`.
abbrev pub number_or : Option ℤ → ℤ → ℤ
number_or none start_block = start_block
number_or (some n) start_block = if eq_ℤ n (pos 0) then start_block else n

-- What one round of the loop decides: to return, or to look at another block number.
pub data Round : Type 0 where
  return_with : Start → Round
  next_number : ℤ → Round

module _ (m : Collection) (stringify : JsValue → String) (fetch : ℤ → Outcome RemoteBlock)
    (start_block : ℤ) (s : m.State) where
  abbrev pub compare_remote : Option ℤ → ProducedBlock → Outcome RemoteBlock → Round
  compare_remote block_number block (done remote) =
      if str_eq remote.hash block.hash
      then return_with (start_at (remote.number +ℤ pos 1))
      else next_number (remote.number -ℤ pos 1)
  compare_remote block_number block (failed e) =
      return_with (reported (wrap_fetch_error stringify block_number e))

  abbrev pub examine : Option ℤ → Outcome (Option ProducedBlock) → Round
  examine block_number (failed e) = return_with (thrown e)
  examine block_number (done none) = return_with (start_at (number_or block_number start_block))
  examine block_number (done (some block)) = compare_remote block_number block (fetch block.number)

  abbrev pub round : Option ℤ → Round
  round block_number = examine block_number (get m block_number s)

  -- The rounds left stand for `maxReOrgDepth - depth`.
  unfoldable pub start_loop : ℕ → Option ℤ → Start
  start_loop zero block_number = start_at (number_or block_number start_block)
  start_loop (suc rounds) block_number = elim (round block_number) [
    | return_with r ↦ r
    | next_number n ↦ start_loop rounds (some n)
  ]

  abbrev pub from_latest : ℕ → Outcome (Option ProducedBlock) → Start
  from_latest depth (failed e) = thrown e
  from_latest depth (done none) = start_loop depth none
  from_latest depth (done (some b)) = start_loop depth (some b.number)

  unfoldable pub get_start_block : ℕ → Start
  unfolding start_loop
  get_start_block max_re_org_depth = from_latest max_re_org_depth (get m none s)

  -- `this.blockSubscription.isBackFillingInProgress?.()` is `none` where there is no such method.
  abbrev pub behind_latest : ℤ → ℤ → Outcome ℤ → Bool
  behind_latest block_range number (failed e) = false
  behind_latest block_range number (done latest) = leb_ℤ (latest -ℤ number) block_range

  abbrev pub synced_from : ℤ → Outcome ℤ → Outcome (Option ProducedBlock) → Bool
  synced_from block_range latest (failed e) = false
  synced_from block_range latest (done none) = false
  synced_from block_range latest (done (some b)) =
      if eq_ℤ b.number (pos 0) then false else behind_latest block_range b.number latest

  unfoldable pub check_if_blocks_synced : Option Bool → ℤ → Outcome ℤ → Bool
  check_if_blocks_synced back_filling block_range latest =
      if or_default back_filling false then true else synced_from block_range latest (get m none s)
