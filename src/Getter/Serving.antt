-- ===== src/Getter/Serving.antt =====
-- The answer of a worker of internal/block_getters at the call of `getBlockFromWorker` in
-- internal/block_subscription/block_subscription.ts that it is for.
use chain_indexer_framework.Prelude.{
  ℕ, ◌+◌, ◌≡◌, refl, sym, ap, ◌∙◌, true, false, ◌==◌, String, Option, none, some, List, [], ◌∷◌,
  ◌++◌, arith, All, Bool-cases, inl, inr, subst,
}
use chain_indexer_framework.Errors.Value.{JsValue}
use chain_indexer_framework.Store.{Outcome, done, failed}
use chain_indexer_framework.Formatter.Types.{number, Libraries, OwnBlock}
use chain_indexer_framework.Getter.Node.{Node, QuickNodeResponse}
use chain_indexer_framework.Formatter.Types.{Amount}
use chain_indexer_framework.Getter.Base.{get_block_with_transaction_receipts}
use chain_indexer_framework.Getter.Erigon.{get_erigon_block}
use chain_indexer_framework.Getter.QuickNode.{get_quicknode_block}
use chain_indexer_framework.Subscription.State.{Block, WorkerResult, given}
use chain_indexer_framework.Subscription.Worker.{WorkerCall, get_block_from_worker, on_message}
use chain_indexer_framework.Getter.Worker.{
  WorkerMessage, reply_to, as_block, result_of, receive, receive_all, serve, serve_erigon,
  serve_erigon_http, serve_quicknode,
}

module _ (lib : Libraries) where
  -- Messages that answer other calls.
  abbrev pub OfOthers : ℕ → List (WorkerMessage lib) → Type 0
  OfOthers call_back_id = All (λ m. (m.call_back_id == call_back_id) ≡ false)

  other_ignored :
      (call_back_id : ℕ) (r : WorkerResult) (c : WorkerCall)
      → (call_back_id == c.call_back_id) ≡ false
      → on_message call_back_id r c ≡ c
  unfolding on_message
  other_ignored call_back_id r c h = elim (Bool-cases c.listens) [
    | inl y ↦ ground (arith, h, y)
    | inr n ↦ ground (arith, n)
  ]

  closed_ignored :
      (call_back_id : ℕ) (r : WorkerResult) (c : WorkerCall)
      → c.listens ≡ false
      → on_message call_back_id r c ≡ c
  unfolding on_message
  closed_ignored call_back_id r c h = ground (arith, h)

  others_ignored :
      (absent : Block) (ms rest : List (WorkerMessage lib)) (c : WorkerCall)
      → OfOthers c.call_back_id ms
      → receive_all lib absent (ms ++ rest) c ≡ receive_all lib absent rest c
  unfolding receive_all
  others_ignored absent [] rest c h = refl
  others_ignored absent (m ∷ ms) rest c h =
      ap (receive_all lib absent (ms ++ rest))
        (other_ignored m.call_back_id (result_of lib absent m) c h.0)
      ∙ others_ignored absent ms rest c h.1

  later_ignored :
      (absent : Block) (ms : List (WorkerMessage lib)) (c : WorkerCall)
      → c.listens ≡ false
      → receive_all lib absent ms c ≡ c
  unfolding receive_all
  later_ignored absent [] c h = refl
  later_ignored absent (m ∷ ms) c h =
      ap (receive_all lib absent ms) (closed_ignored m.call_back_id (result_of lib absent m) c h)
      ∙ later_ignored absent ms c h

  -- What `onMessage` resolves with.
  abbrev resolved : (absent : Block) → WorkerMessage lib → WorkerResult
  resolved absent own = record (result_of lib absent own) { error = given own.error }

  own_settles :
      (absent : Block) (own : WorkerMessage lib)
      → (own.call_back_id == own.call_back_id) ≡ true
      → receive lib absent own (get_block_from_worker own.call_back_id) ≡ record {
        call_back_id = own.call_back_id;
        listens = false;
        settled = some (resolved absent own);
      }
  unfolding on_message get_block_from_worker
  own_settles absent own h = rw h refl

  -- The answer to a request, among those to other requests.
  settles_own :
      (absent : Block) (before after : List (WorkerMessage lib)) (own : WorkerMessage lib)
      → OfOthers own.call_back_id before
      → (receive_all lib absent
          (before ++ (own ∷ after))
          (get_block_from_worker own.call_back_id)).settled
        ≡ some (resolved absent own)
  unfolding receive_all get_block_from_worker
  settles_own absent before after own h =
      let call = get_block_from_worker own.call_back_id in
      ap (λ c. c.settled)
        (others_ignored absent before (own ∷ after) call h
          ∙ ap (receive_all lib absent after) (own_settles absent own (ground arith))
          ∙ later_ignored absent after _ refl)

  module _ (node : Node) (stringify : JsValue → String) (clone : JsValue → JsValue)
      (max_retries : ℕ) (trace : String)
      (alternate : Option
        (Amount → node.State → Option (Outcome (Option QuickNodeResponse)) × node.State)) where
    -- What a worker answers.
    pub data Serves (block_number call_back_id : ℕ)
        : Outcome (OwnBlock lib) → WorkerMessage lib → Type 0 where
      by_default :
          (s : node.State)
          → Serves block_number call_back_id
              (get_block_with_transaction_receipts lib node stringify max_retries
                (number block_number)
                (max_retries + 1)
                s).0
              (serve lib node stringify clone max_retries trace block_number call_back_id s).0
      by_erigon :
          (s : node.State)
          → Serves block_number call_back_id
              (get_erigon_block lib node stringify max_retries trace
                (number block_number)
                max_retries
                s).0
              (serve_erigon lib node stringify clone max_retries trace block_number call_back_id
                s).0
      by_erigon_http :
          (s : node.State)
          → Serves block_number call_back_id
              (get_erigon_block lib node stringify max_retries trace
                (number block_number)
                max_retries
                s).0
              (serve_erigon_http lib node stringify clone max_retries trace block_number
                call_back_id s).0
      by_quicknode :
          (s : node.State)
          → Serves block_number call_back_id
              (get_quicknode_block lib node stringify max_retries trace alternate
                (number block_number)
                max_retries
                s).0
              (serve_quicknode lib node stringify clone max_retries trace alternate block_number
                call_back_id s).0

    abbrev pub promised : (absent : Block) → Outcome (OwnBlock lib) → WorkerResult
    promised absent (done own) = record { block = as_block lib absent (some own); error = none }
    promised absent (failed e) = record { block = absent; error = given (some (clone e)) }

    replied :
        (absent : Block) (call_back_id : ℕ) (o : Outcome (OwnBlock lib))
        → (resolved absent (reply_to lib clone call_back_id o) ≡ promised absent o)
          × ((reply_to lib clone call_back_id o).call_back_id ≡ call_back_id)
    unfolding given
    replied absent call_back_id (done own) = (refl, refl)
    replied absent call_back_id (failed e) = (refl, refl)

    served :
        (block_number call_back_id : ℕ) (absent : Block) (o : Outcome (OwnBlock lib))
        (own : WorkerMessage lib)
        → Serves block_number call_back_id o own
        → (resolved absent own ≡ promised absent o) × (own.call_back_id ≡ call_back_id)
    unfolding serve serve_erigon serve_erigon_http serve_quicknode
    served n id absent _ _ (by_default s) = replied absent id _
    served n id absent _ _ (by_erigon s) = replied absent id _
    served n id absent _ _ (by_erigon_http s) = replied absent id _
    served n id absent _ _ (by_quicknode s) = replied absent id _

    -- Let a worker of any of the four kinds answer the request of one `getBlockFromWorker`, and let its
    -- answer come after answers to calls with other identifiers, and before any others. Then the call
    -- is settled with what the getter gave for the requested block: that block without an error, or, when
    -- the getter failed, what the structured clone makes of its error, if `if (value.error)` finds it.
    pub get_block_from_worker-Serves :
        (block_number call_back_id : ℕ) (absent : Block) (o : Outcome (OwnBlock lib))
        (own : WorkerMessage lib) (before after : List (WorkerMessage lib))
        → Serves block_number call_back_id o own
        → OfOthers call_back_id before
        → (receive_all lib absent
            (before ++ (own ∷ after))
            (get_block_from_worker call_back_id)).settled
          ≡ some (promised absent o)
    get_block_from_worker-Serves n id absent o own before after h others =
        let (result, same) = served n id absent o own h in
        subst
          (λ id.
            (receive_all lib absent (before ++ (own ∷ after)) (get_block_from_worker id)).settled
            ≡ some (promised absent o))
          same
          (settles_own absent before after own (subst (λ id. OfOthers id before) (sym same) others)
            ∙ ap some result)
