-- ===== src/Producer/Telling.antt =====
-- The order of the actions of internal/block_producers/block_producer.ts on errors, and what the calls of
-- `onError` that wait for a restart add to them.
use chain_indexer_framework.Prelude.{
  ◌≡◌, ap, sym, ◌∙◌, Bool, true, false, List, [], ◌∷◌, ◌++◌, append-nil, append_assoc,
}
use chain_indexer_framework.Errors.Value.{JsObject}
use chain_indexer_framework.Producer.Overlap.{
  Phase, idle, stopping, starting, Waiter, waits, waits_to_tell, ErrorAction, stops, starts, tells,
  tells_failure, tell_end, resolve_all, reject_all,
}

-- Whether the last call of `stop` and `start` was one of `stop`.
abbrev pub stop_last : List ErrorAction → Bool
stop_last [] = false
stop_last (stops ∷ log) = true
stop_last (starts ∷ log) = false
stop_last (tells e ∷ log) = stop_last log
stop_last (tells_failure e ∷ log) = stop_last log

-- `start` is called only after a `stop`, once for each.
abbrev pub InTurn : List ErrorAction → Type 0
InTurn [] = Unit
InTurn (stops ∷ log) = InTurn log
InTurn (starts ∷ log) = (stop_last log ≡ true) × InTurn log
InTurn (tells e ∷ log) = InTurn log
InTurn (tells_failure e ∷ log) = InTurn log

-- The errors that `onError` has told of, and those of which it is going to tell, oldest first.
abbrev pub told : List ErrorAction → List JsObject
told [] = []
told (stops ∷ log) = told log
told (starts ∷ log) = told log
told (tells e ∷ log) = told log ++ e ∷ []
told (tells_failure e ∷ log) = told log

abbrev pub to_tell : List Waiter → List JsObject
to_tell [] = []
to_tell (waits ∷ ws) = to_tell ws
to_tell (waits_to_tell e ∷ ws) = to_tell ws ++ e ∷ []

abbrev pub is_running : Phase → Bool
is_running idle = false
is_running stopping = true
is_running starting = true

-- While `stop` runs it was called last.
abbrev pub Stopped : Phase → List ErrorAction → Type 0
Stopped idle log = Unit
Stopped stopping log = stop_last log ≡ true
Stopped starting log = Unit

-- The waiters only tell.
pub record OnlyTells (errors : List JsObject) (log log' : List ErrorAction) : Type 0 where
  pub in_turn : InTurn log → InTurn log'
  pub more : told log' ≡ told log ++ errors

tell_end-OnlyTells :
    (w : Waiter) (ws : List Waiter) (log log' : List ErrorAction)
    → OnlyTells (to_tell ws) log log'
    → OnlyTells (to_tell (w ∷ ws)) log (tell_end w log')
tell_end-OnlyTells waits ws log log' o = record { in_turn = o.in_turn; more = o.more }
tell_end-OnlyTells (waits_to_tell e) ws log log' o = record {
  in_turn = o.in_turn;
  more = ap (λ l. l ++ e ∷ []) o.more ∙ append_assoc (told log) (to_tell ws) (e ∷ []);
}

pub resolve_all-OnlyTells :
    (ws : List Waiter) (log : List ErrorAction) → OnlyTells (to_tell ws) log (resolve_all ws log)
resolve_all-OnlyTells [] log = record { in_turn = λ t. t; more = sym (append-nil (told log)) }
resolve_all-OnlyTells (w ∷ ws) log =
    tell_end-OnlyTells w ws log (resolve_all ws log) (resolve_all-OnlyTells ws log)

pub reject_all-OnlyTells :
    (x : JsObject) (ws : List Waiter) (log : List ErrorAction)
    → OnlyTells (to_tell ws) log (reject_all x ws log)
reject_all-OnlyTells x [] log = record { in_turn = λ t. t; more = sym (append-nil (told log)) }
reject_all-OnlyTells x (w ∷ ws) log =
    let o = reject_all-OnlyTells x ws log in
    tell_end-OnlyTells w ws log (tells_failure x ∷ reject_all x ws log)
      (record { in_turn = o.in_turn; more = o.more })
