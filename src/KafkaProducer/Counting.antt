-- ===== src/KafkaProducer/Counting.antt =====
-- How often overlapping calls of `start` of internal/kafka/producer/abstract_producer.ts connect, and what
-- becomes of them.
use chain_indexer_framework.Prelude.{
  ℕ, suc, ◌+◌, ◌≤◌, ◌≡◌, refl, sym, ap, ◌∙◌, inl, false, not, ◌&&◌, String, Option, none, some,
  List, [], ◌∷◌, ◌++◌, map, length, length-append, if◌then◌else◌, arith,
}
use chain_indexer_framework.Prelude.{either_way}
use chain_indexer_framework.Errors.Value.{JsValue}
use chain_indexer_framework.Store.{Outcome, done}
use chain_indexer_framework.KafkaProducer.Connecting.{
  Promised, absent, pending, fulfilled, rejected, Connecting, new_connecting, ends_with,
  await_promise, refusal, call_start, connect_answered, on_connect_answer, on_connection_lost,
  ConnectionEvent, calls_start, calls_back, loses_connection, connection_event, run_connection,
}
use chain_indexer_framework.KafkaProducer.Sharing.{is_pending, Shares, event-Shares}

-- How many events of a run are calls of `start`, and how many are answers of the client.
abbrev pub starts : {trace : String} → List (ConnectionEvent trace) → ℕ
starts [] = 0
starts (calls_start call ∷ es) = suc (starts es)
starts (calls_back answer ∷ es) = starts es
starts (loses_connection ∷ es) = starts es

abbrev pub answers : {trace : String} → List (ConnectionEvent trace) → ℕ
answers [] = 0
answers (calls_start call ∷ es) = answers es
answers (calls_back answer ∷ es) = suc (answers es)
answers (loses_connection ∷ es) = answers es

-- The connection that is under way, as a number.
abbrev pub under_way : Connecting → ℕ
under_way c = if c.producer_connecting then 1 else 0

length-map : {A B : Type 0} (f : A → B) (xs : List A) → length (map f xs) ≡ length xs
length-map f [] = refl
length-map f (x ∷ xs) = ap suc (length-map f xs)

module _ (trace : String) where
  -- The calls of `start`, waiting and ended.
  abbrev calls : Connecting → ℕ
  calls c = length c.waiting + length c.ended

  await-calls :
      (call : ℕ) (p : Promised) (c : Connecting)
      → calls (await_promise trace call p c) ≡ suc (calls c)
  await-calls call absent c = omega arith
  await-calls call pending c = omega arith
  await-calls call fulfilled c = omega arith
  await-calls call (rejected x) c = omega arith

  start-calls : (call : ℕ) (c : Connecting) → calls (call_start trace call c) ≡ suc (calls c)
  unfolding call_start
  start-calls call c =
      either_way (λ x. calls x ≡ suc (calls c))
        (not c.producer_connecting && not c.producer_connected) _ _ (λ free. omega arith)
        (λ busy. await-calls call c.promise c)

  handed_on :
      (o : Outcome (Unit {0})) (waiting : List ℕ) (ended : List (ℕ × Outcome (Unit {0})))
      → length (map (ends_with o) waiting ++ ended) ≡ length waiting + length ended
  handed_on o waiting ended =
      omega
        (arith, length-append (map (ends_with o) waiting) ended, length-map (ends_with o) waiting)

  connect_answered-calls :
      (answer : Option JsValue) (c : Connecting) → calls (connect_answered trace answer c) ≡ calls c
  connect_answered-calls none c = omega (arith, handed_on (done tt) c.waiting c.ended)
  connect_answered-calls (some e) c = omega (arith, handed_on (refusal trace e) c.waiting c.ended)

  answer-calls :
      (answer : Option JsValue) (c : Connecting)
      → calls (on_connect_answer trace answer c) ≡ calls c
  unfolding on_connect_answer
  answer-calls answer c =
      either_way (λ x. calls x ≡ calls c) c.producer_connecting (connect_answered trace answer c) c
        (λ y. connect_answered-calls answer c) (λ n. refl)

  event-calls :
      (e : ConnectionEvent trace) (c : Connecting)
      → calls (connection_event trace e c) ≡ starts (e ∷ []) + calls c
  unfolding on_connection_lost
  event-calls (calls_start call) c = omega (arith, start-calls call c)
  event-calls (calls_back answer) c = omega (arith, answer-calls answer c)
  event-calls loses_connection c = omega arith

  await_connects :
      (call : ℕ) (p : Promised) (c : Connecting) (a : ℕ)
      → c.promise ≡ p
      → is_pending c.promise ≡ c.producer_connecting
      → c.connects ≤ a + under_way c
      → (await_promise trace call p c).connects ≤ a + under_way (await_promise trace call p c)
  await_connects call absent c a e same h = h
  await_connects call pending c a e same h = h
  await_connects call fulfilled c a e same h = h
  await_connects call (rejected x) c a e same h =
      let idle : c.producer_connecting ≡ false = sym same ∙ ap is_pending e in
      ground (arith, h, idle)

  answered_connects :
      (answer : Option JsValue) (c : Connecting) (a : ℕ)
      → c.connects ≤ a + under_way c
      → (on_connect_answer trace answer c).connects
        ≤ a + 1 + under_way (on_connect_answer trace answer c)
  unfolding on_connect_answer
  answered_connects none c a h = ground (arith, h)
  answered_connects (some e) c a h = ground (arith, h)

  started_connects :
      (call : ℕ) (c : Connecting) (a : ℕ)
      → Shares c
      → c.connects ≤ a + under_way c
      → (call_start trace call c).connects ≤ a + under_way (call_start trace call c)
  unfolding call_start
  started_connects call c a s h =
      either_way (λ x. x.connects ≤ a + under_way x)
        (not c.producer_connecting && not c.producer_connected) _ _
        (λ free. ground (arith, h, free)) (λ busy. await_connects call c.promise c a refl s.same h)

  -- After some events: the invariant, the calls and how often the client was told to connect.
  record After (started answered : ℕ) (c : Connecting) : Type 0 where
    shares : Shares c
    counted : calls c ≡ started
    connected : c.connects ≤ answered + under_way c

  event-After :
      (e : ConnectionEvent trace) (n a : ℕ) (c : Connecting)
      → After n a c
      → After (starts (e ∷ []) + n) (answers (e ∷ []) + a) (connection_event trace e c)
  unfolding on_connection_lost
  event-After (calls_start call) n a c h = record {
    shares = event-Shares trace (calls_start call) c h.shares;
    counted = omega (arith, event-calls (calls_start call) c, h.counted);
    connected = omega (arith, started_connects call c a h.shares h.connected);
  }
  event-After (calls_back answer) n a c h = record {
    shares = event-Shares trace (calls_back answer) c h.shares;
    counted = omega (arith, event-calls (calls_back answer) c, h.counted);
    connected = omega (arith, answered_connects answer c a h.connected);
  }
  event-After loses_connection n a c h = record {
    shares = event-Shares trace loses_connection c h.shares;
    counted = omega (arith, h.counted);
    connected = omega (arith, h.connected);
  }

  one_more :
      (e : ConnectionEvent trace) (es : List (ConnectionEvent trace))
      → (starts (e ∷ es) ≡ starts es + starts (e ∷ []))
        × (answers (e ∷ es) ≡ answers es + answers (e ∷ []))
  one_more (calls_start call) es = (omega arith, omega arith)
  one_more (calls_back answer) es = (omega arith, omega arith)
  one_more loses_connection es = (omega arith, omega arith)

  run-After :
      (es : List (ConnectionEvent trace)) (n a : ℕ) (c : Connecting)
      → After n a c
      → After (starts es + n) (answers es + a) (run_connection trace es c)
  run-After [] n a c h = record {
    shares = h.shares;
    counted = omega (arith, h.counted);
    connected = omega (arith, h.connected);
  }
  run-After (e ∷ es) n a c h =
      let r = run-After es _ _ (connection_event trace e c) (event-After e n a c h) in
      let (more, back) = one_more e es in
      record {
        shares = r.shares;
        counted = omega (arith, r.counted, more);
        connected = omega (arith, r.connected, back);
      }

  -- Whatever the order in which `start` is called, the client calls back and the connection is lost: no
  -- call is lost, each has ended or waits; calls wait only for a connection that is under way; and the
  -- client is told to connect again only after it has called back for the time before.
  pub connection-Shares :
      (es : List (ConnectionEvent trace))
      → let c = run_connection trace es new_connecting in
        Shares c
        × (length c.waiting + length c.ended ≡ starts es)
        × (c.connects ≤ answers es + under_way c)
  unfolding new_connecting
  connection-Shares es =
      let first : After 0 0 new_connecting = record {
        shares = record { same = refl; exclusive = refl; waited_for = inl refl };
        counted = omega arith;
        connected = omega arith;
      } in
      let r = run-After es 0 0 new_connecting first in
      (r.shares, omega (arith, r.counted), omega (arith, r.connected))
