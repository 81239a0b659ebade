-- ===== src/Formatter/Laws.antt =====
-- What the formatter of internal/formatters relies on: the documented behaviour of Long and web3-utils, and
-- the objects whose numbers a Long and a JavaScript number hold exactly.
use chain_indexer_framework.Prelude.{ℕ, ◌<◌, ◌≡◌, false, String, Option, none, some, All}
use chain_indexer_framework.Prelude.Text.{str_eq}
use chain_indexer_framework.Formatter.Types.{
  Amount, number, text, Web3Log, Web3Receipt, Web3Transaction, Libraries,
}

-- `Number.MAX_SAFE_INTEGER + 1`, 2^53.
abbrev safe_limit : ℕ
safe_limit = 9007199254740992

-- The documented behaviour of Long and web3-utils: a safe integer goes through a Long unchanged, and the
-- hexadecimal form has the value of the amount, whether that is a number or a text.
pub record Documented (lib : Libraries) : Type 0 where
  pub meaning : Amount → ℕ
  pub hex_value : String → ℕ
  pub number_means : (n : ℕ) → meaning (number n) ≡ n
  pub long_number : (n : ℕ) → n < safe_limit → lib.to_number (lib.from_value (number n)) ≡ n
  pub hex_means : (a : Amount) → hex_value (lib.to_hex a) ≡ meaning a

abbrev pub map_option {ℓ κ} : {A : Type ℓ} {B : Type κ} → (A → B) → Option A → Option B
map_option f none = none
map_option f (some a) = some (f a)

abbrev pub IsSafe : Option ℕ → Type 0
IsSafe none = Unit
IsSafe (some n) = n < safe_limit

-- Not the empty text, which the formatter takes for a missing amount.
abbrev pub IsAmount : Option Amount → Type 0
IsAmount none = Unit
IsAmount (some (number n)) = Unit
IsAmount (some (text t)) = str_eq t "" ≡ false

pub record IsSafeLog (log : Web3Log) : Type 0 where
  pub log_index : log.log_index < safe_limit
  pub transaction_index : log.transaction_index < safe_limit
  pub block_number : log.block_number < safe_limit

pub record IsSafeReceipt (receipt : Web3Receipt) : Type 0 where
  pub transaction_index : receipt.transaction_index < safe_limit
  pub block_number : receipt.block_number < safe_limit
  pub gas_used : receipt.gas_used < safe_limit
  pub cumulative_gas_used : receipt.cumulative_gas_used < safe_limit
  pub logs : All IsSafeLog receipt.logs
  pub effective_gas_price : IsAmount receipt.effective_gas_price

pub record IsSafeTransaction (t : Web3Transaction) : Type 0 where
  pub nonce : t.nonce < safe_limit
  pub gas : t.gas < safe_limit
  pub block_number : IsSafe t.block_number
  pub transaction_index : IsSafe t.transaction_index
  pub max_fee_per_gas : IsAmount t.max_fee_per_gas
  pub max_priority_fee_per_gas : IsAmount t.max_priority_fee_per_gas
