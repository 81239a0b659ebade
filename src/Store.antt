-- ===== src/Store.antt =====
-- internal/block_producers/produced_blocks_model.ts: the collection of produced blocks and its two
-- statics. MongoDB and Mongoose are an argument, `Collection`, with their documented behaviour.
pub mod Window
pub mod Memory
pub mod Tests
use chain_indexer_framework.Prelude.{
  ℕ, ◌≡◌, ◌≢◌, ◌↔◌, ◌⊎◌, Bool, true, false, ◌||◌, String, Option, none, some, if◌then◌else◌,
}
use chain_indexer_framework.Prelude.Int.{ℤ, pos, ◌-ℤ◌, ◌≤ℤ◌, ltb_ℤ, eq_ℤ}
use chain_indexer_framework.Errors.Value.{JsValue}

-- What an awaited promise gives.
pub data Outcome {ℓ} (A : Type ℓ) : Type ℓ where
  done : A → Outcome A
  failed : JsValue → Outcome A

pub record ProducedBlock : Type 0 where
  pub number : ℤ
  pub hash : String

-- `{}`, `{ number: n }`, and `{ $or: [{ number: { $lt: low } }, { number: { $gt: high } }] }`.
pub data Filter : Type 0 where
  every : Filter
  number_is : ℤ → Filter
  outside : (low high : ℤ) → Filter

abbrev pub matches : Filter → ProducedBlock → Bool
matches every b = true
matches (number_is n) b = eq_ℤ b.number n
matches (outside low high) b = ltb_ℤ b.number low || ltb_ℤ high b.number

-- The model's methods. The state may hold more than the documents, such as faults to come, so a
-- method that fails may change it. `find_highest` is `find(f).sort({number: -1}).limit(1)` at 0.
pub record Collection : Type 1 where
  pub State : Type 0
  pub Stored : State → ProducedBlock → Type 0
  pub find_highest : Filter → State → Outcome (Option ProducedBlock)
  pub create : ProducedBlock → State → Outcome (Unit {0}) × State
  pub delete_many : Filter → State → Outcome (Unit {0}) × State

-- What is taken of MongoDB, with the unique index on `number`: a query finds what is stored, a document
-- is written whole or not at all, and a deletion that fails half-way has deleted only documents that
-- match. Beyond what MongoDB documents, a `create` that gives an error is taken not to have written: after
-- an error of the network or of the write concern the document may be there all the same.
pub record Documented (m : Collection) : Type 0 where
  pub find_none :
      (f : Filter) (s : m.State)
      → m.find_highest f s ≡ done none
      → (c : ProducedBlock) → m.Stored s c
      → matches f c ≡ false
  pub find_some :
      (f : Filter) (s : m.State) (b : ProducedBlock)
      → m.find_highest f s ≡ done (some b)
      → m.Stored s b × (matches f b ≡ true)
  pub find_greatest :
      (f : Filter) (s : m.State) (b : ProducedBlock)
      → m.find_highest f s ≡ done (some b)
      → (c : ProducedBlock) → m.Stored s c
      → matches f c ≡ true
      → c.number ≤ℤ b.number
  pub created :
      (b : ProducedBlock) (s : m.State)
      → (m.create b s).0 ≡ done tt
      → (c : ProducedBlock) → m.Stored (m.create b s).1 c ↔ (m.Stored s c ⊎ (c ≡ b))
  pub created_fresh :
      (b : ProducedBlock) (s : m.State)
      → (m.create b s).0 ≡ done tt
      → (c : ProducedBlock) → m.Stored s c
      → c.number ≢ b.number
  pub not_created :
      (b : ProducedBlock) (s : m.State) (e : JsValue)
      → (m.create b s).0 ≡ failed e
      → (c : ProducedBlock) → m.Stored (m.create b s).1 c ↔ m.Stored s c
  pub deleted :
      (f : Filter) (s : m.State)
      → (m.delete_many f s).0 ≡ done tt
      → (c : ProducedBlock)
      → m.Stored (m.delete_many f s).1 c ↔ (m.Stored s c × (matches f c ≡ false))
  pub deleted_some :
      (f : Filter) (s : m.State) (c : ProducedBlock)
      → m.Stored (m.delete_many f s).1 c
      → m.Stored s c
  pub deleted_only :
      (f : Filter) (s : m.State) (c : ProducedBlock)
      → m.Stored s c
      → matches f c ≡ false
      → m.Stored (m.delete_many f s).1 c

-- `blockNumber ? { number: blockNumber } : {}`
abbrev pub query_of : Option ℤ → Filter
query_of none = every
query_of (some n) = if eq_ℤ n (pos 0) then every else number_is n

module _ (m : Collection) where
  unfoldable pub get : Option ℤ → m.State → Outcome (Option ProducedBlock)
  get block_number s = m.find_highest (query_of block_number) s

  -- The deletion is made only after `create` has succeeded.
  abbrev pub prune : ℤ → ℕ → Outcome (Unit {0}) × m.State → Outcome (Unit {0}) × m.State
  prune number depth (done _, s) = m.delete_many (outside (number -ℤ pos depth) number) s
  prune number depth (failed e, s) = (failed e, s)

  unfoldable pub add : ProducedBlock → ℕ → m.State → Outcome (Unit {0}) × m.State
  add block max_re_org_depth s = prune block.number max_re_org_depth (m.create block s)
