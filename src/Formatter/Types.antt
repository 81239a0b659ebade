-- ===== src/Formatter/Types.antt =====
-- The shapes of blocks, transactions and receipts: internal/interfaces, and those of web3, which the
-- formatter reads. `Amount` is a JavaScript `number | string`; a number is whole and not negative. web3,
-- its formatters and Long are an argument, `Libraries`.
use chain_indexer_framework.Prelude.{ℕ, Bool, String, Option, List}

pub data Amount : Type 0 where
  number : ℕ → Amount
  text : String → Amount

-- A log with its three numbers, in the form that `N` says.
pub record EventLog (N : Type 0) : Type 0 where
  pub address : String
  pub contents : String
  pub log_index : N
  pub topics : List String
  pub transaction_hash : String
  pub transaction_index : N
  pub block_hash : String
  pub block_number : N
  pub removed : Option Bool

-- A receipt: `N` is the form of its numbers, `P` of its price, `L` of its logs.
pub record Receipt (N P L : Type 0) : Type 0 where
  pub transaction_hash : String
  pub transaction_index : N
  pub from_address : String
  pub to_address : String
  pub block_number : N
  pub block_hash : String
  pub contract_address : Option String
  pub gas_used : N
  pub cumulative_gas_used : N
  pub logs : List L
  pub logs_bloom : String
  pub status : Bool
  pub effective_gas_price : Option P

-- `IRawReceipt`, whose numbers are texts; a status that is missing or null is `none`.
pub record RawReceipt : Type 0 where
  pub base : Receipt String Amount (EventLog String)
  pub raw_status : Option String

-- A transaction: `N` is the form of its numbers, `P` of its prices, `V` of its value.
pub record Transaction (N P V : Type 0) : Type 0 where
  pub hash : String
  pub nonce : N
  pub block_hash : Option String
  pub block_number : Option N
  pub transaction_index : Option N
  pub from_address : String
  pub to_address : Option String
  pub value : V
  pub gas_price : V
  pub gas : N
  pub input : String
  pub max_fee_per_gas : Option P
  pub max_priority_fee_per_gas : Option P
  pub chain_id : String
  pub v : String
  pub r : String
  pub s : String
  pub kind : ℕ

-- `IRawTransaction`: the fields are texts.
pub record RawTransaction : Type 0 where
  pub hash : String
  pub nonce : String
  pub block_hash : Option String
  pub block_number : String
  pub transaction_index : Option String
  pub from_address : String
  pub to_address : Option String
  pub value : String
  pub gas_price : String
  pub gas : String
  pub input : String
  pub max_fee_per_gas : Option String
  pub max_priority_fee_per_gas : Option String

-- What the formatter leaves as it is in a block.
pub record BlockParts : Type 0 where
  pub logs_bloom : String
  pub hash : String
  pub parent_hash : String
  pub receipts_root : String
  pub sha3_uncles : String
  pub state_root : String
  pub transactions_root : String
  pub miner : String
  pub extra_data : String

-- web3's block with its transactions.
pub record Web3Block : Type 0 where
  pub parts : BlockParts
  pub nonce : String
  pub difficulty : Amount
  pub total_difficulty : Amount
  pub timestamp : ℕ
  pub number : ℕ
  pub base_fee_per_gas : Option Amount
  pub size : Amount
  pub gas_limit : ℕ
  pub gas_used : ℕ
  pub transactions : List (Transaction ℕ Amount Amount)

-- `IRawBlock`: its own fields are texts.
pub record RawBlock : Type 0 where
  pub difficulty : String
  pub total_difficulty : String
  pub number : String
  pub gas_limit : String
  pub base_fee_per_gas : Option String
  pub gas_used : String
  pub size : String
  pub timestamp : String
  pub nonce : String
  pub parts : BlockParts
  pub uncles : Option (List String)
  pub transactions : List RawTransaction

abbrev pub Web3Log : Type 0
Web3Log = EventLog ℕ

abbrev pub Web3Receipt : Type 0
Web3Receipt = Receipt ℕ Amount Web3Log

abbrev pub Web3Transaction : Type 0
Web3Transaction = Transaction ℕ Amount Amount

-- The functions of Long, web3-utils and web3-core-helpers that are called.
pub record Libraries : Type 1 where
  pub Long : Type 0
  -- `Long.fromValue(value, true)`, and `toNumber`.
  pub from_value : Amount → Long
  pub to_number : Long → ℕ
  pub to_hex : Amount → String
  pub hex_to_number : String → ℕ
  pub hex_to_number_string : String → String
  pub parse_int : String → ℕ
  pub output_log_formatter : EventLog String → Web3Log
  pub output_transaction_formatter : RawTransaction → Web3Transaction
  pub output_block_formatter : RawBlock → Web3Block

-- The library's own shapes: `IEventLog`, `ITransactionReceipt`, `ITransaction`, `IBlock`.
module _ (lib : Libraries) where
  abbrev pub OwnLog : Type 0
  OwnLog = EventLog lib.Long

  abbrev pub OwnReceipt : Type 0
  OwnReceipt = Receipt lib.Long String OwnLog

  pub record OwnTransaction : Type 0 where
    pub fields : Transaction lib.Long String String
    pub receipt : OwnReceipt

  pub record OwnBlock : Type 0 where
    pub parts : BlockParts
    pub nonce : lib.Long
    pub difficulty : String
    pub total_difficulty : String
    pub timestamp : lib.Long
    pub number : lib.Long
    pub base_fee_per_gas : Option String
    pub size : String
    pub transactions : List OwnTransaction
    pub gas_limit : lib.Long
    pub gas_used : lib.Long
