-- ===== src/Subscription/FalseReorg.antt =====
-- What `lastEmittedBlock` of internal/block_subscription/abstract_block_subscription.ts makes of the
-- first block after a backfill.
use chain_indexer_framework.Prelude.{
  ℕ, ◌≡◌, ◌≢◌, refl, ap, ◌∙◌, inl, inr, true, false, String, some, List, [], ◌∷◌, arith, Bool-cases,
}
use chain_indexer_framework.Prelude.Int.{ℤ, ◌<ℤ◌, pos, ◌+ℤ◌}
use chain_indexer_framework.Prelude.Text.{str_eq, str_eq_iff}
use chain_indexer_framework.Errors.Value.{object}
use chain_indexer_framework.Errors.Classes.{new_block_producer_error}
use chain_indexer_framework.Subscription.State.{Block, reports, Subscription}
use chain_indexer_framework.Subscription.Live.{
  breaks, is_re_orged_missed, fail_block, on_block, chain_reorg, begin_subscription,
  subscribe_to_logs,
}
use chain_indexer_framework.Subscription.BackFill.{back_fill_blocks, on_filled}
use chain_indexer_framework.Subscription.Keeping.{
  settle_filled-Keeps, back_fill_blocks-Keeps, next_job-Keeps,
}
use chain_indexer_framework.Subscription.Filling.{Event, fills, finishes_job, on_event, run}

run_keeps_last :
    (trace : String) (es : List Event) (s : Subscription)
    → (run trace es s).last_emitted_block ≡ s.last_emitted_block
unfolding on_filled
run_keeps_last trace [] s = refl
run_keeps_last trace (fills result ∷ es) s =
    run_keeps_last trace es (on_filled trace result s)
    ∙ (settle_filled-Keeps trace s.back_fill_awaited result s).same_last
run_keeps_last trace (finishes_job id ∷ es) s =
    run_keeps_last trace es (on_event trace (finishes_job id) s) ∙ (next_job-Keeps id s).same_last

apart : (s t : String) → s ≢ t → str_eq s t ≡ false
apart s t h = elim (Bool-cases (str_eq s t)) [
  | inl y ↦ absurd (h ((str_eq_iff s t).0 y))
  | inr n ↦ n
]

breaks_from :
    (last next : Block)
    → last.number <ℤ next.number
    → last.hash ≢ next.parent_hash
    → breaks (some last) next ≡ true
breaks_from last next up h = ground (arith, up, apart last.hash next.parent_hash h)

reported_as_it_is :
    (trace : String) (s : Subscription)
    → (fail_block trace (object chain_reorg) s).log ≡ reports chain_reorg ∷ s.log
unfolding fail_block chain_reorg new_block_producer_error
reported_as_it_is trace s = refl

broken_chain :
    (trace : String) (last next : Block) (s : Subscription)
    → s.last_emitted_block ≡ some last
    → last.number <ℤ next.number
    → last.hash ≢ next.parent_hash
    → ((on_block trace next s).fatal_error ≡ true)
      × ((on_block trace next s).log ≡ reports chain_reorg ∷ s.log)
unfolding on_block is_re_orged_missed fail_block
broken_chain trace last next s e up h =
    let broken : breaks s.last_emitted_block next ≡ true =
      ap (λ l. breaks l next) e ∙ breaks_from last next up h in
    rw broken (refl, reported_as_it_is trace (record s { next_block = next.number +ℤ pos 1 }))

-- A backfill does not touch `lastEmittedBlock`: after one, whatever blocks it has handed on, the first
-- higher block that is not the child of the block emitted before the backfill is reported as a
-- re-organised chain and stops the subscription, also if it is the child of the last block handed on.
pub back_fill_then_reorg :
    (trace : String) (now workers : ℕ) (es : List Event) (finalized start_block : ℤ)
    (last next : Block) (s : Subscription)
    → s.last_emitted_block ≡ some last
    → last.number <ℤ next.number
    → last.hash ≢ next.parent_hash
    → let live = subscribe_to_logs (
        begin_subscription finalized start_block (run trace es (back_fill_blocks now workers s))) in
      ((on_block trace next live).fatal_error ≡ true)
      × ((on_block trace next live).log ≡ reports chain_reorg ∷ live.log)
unfolding begin_subscription subscribe_to_logs
back_fill_then_reorg trace now workers es finalized start_block last next s e up h =
    broken_chain trace last next _
      (run_keeps_last trace es (back_fill_blocks now workers s)
        ∙ (back_fill_blocks-Keeps now workers s).same_last
        ∙ e)
      up h
