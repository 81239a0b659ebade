-- ===== src/Public/Topics.antt =====
-- Which coder a consumer of several topics, made by public/kafka/consumer, finds for each of them.
use chain_indexer_framework.Prelude.{
  ◌≤◌, ◌≡◌, refl, ◌∙◌, false, String, none, some, List, [], ◌∷◌, All, length, arith,
}
use chain_indexer_framework.Prelude.Text.{str_eq, str_eq_refl}
use chain_indexer_framework.Store.{done}
use chain_indexer_framework.Public.Coders.{
  CoderConfig, coder_of, TopicCoders, topics, coder_list, assign_coders, consumer_coders,
  find_coder,
}

-- No topic twice.
abbrev pub Distinct : List String → Type 0
Distinct [] = Unit
Distinct (t ∷ ts) = All (λ u. str_eq u t ≡ false) ts × Distinct ts

-- Each topic with the configuration at its index.
abbrev pub paired : List String → List CoderConfig → List (String × CoderConfig)
paired [] cs = []
paired (t ∷ ts) [] = []
paired (t ∷ ts) (c ∷ cs) = (t, c) ∷ paired ts cs

abbrev assigned : List String → List CoderConfig → TopicCoders → TopicCoders
assigned [] cs coders = coders
assigned (t ∷ ts) [] coders = coders
assigned (t ∷ ts) (c ∷ cs) coders = assigned ts cs ((t, coder_of c none) ∷ coders)

assign_coders-assigned :
    (trace : String) (ts : List String) (cs : List CoderConfig) (coders : TopicCoders)
    → length ts ≤ length cs
    → assign_coders trace ts cs coders ≡ done (assigned ts cs coders)
unfolding assign_coders
assign_coders-assigned trace [] cs coders h = refl
assign_coders-assigned trace (t ∷ ts) [] coders h = absurd (omega (arith, h))
assign_coders-assigned trace (t ∷ ts) (c ∷ cs) coders h =
    assign_coders-assigned trace ts cs ((t, coder_of c none) ∷ coders) (omega (arith, h))

others_kept :
    (topic : String) (ts : List String) (cs : List CoderConfig) (coders : TopicCoders)
    → All (λ u. str_eq u topic ≡ false) ts
    → find_coder topic (assigned ts cs coders) ≡ find_coder topic coders
unfolding find_coder
others_kept topic [] cs coders h = refl
others_kept topic (t ∷ ts) [] coders h = refl
others_kept topic (t ∷ ts) (c ∷ cs) coders h =
    others_kept topic ts cs ((t, coder_of c none) ∷ coders) h.1 ∙ rw h.0 refl

assigned-found :
    (ts : List String) (cs : List CoderConfig) (coders : TopicCoders)
    → Distinct ts
    → All (λ p. find_coder p.0 (assigned ts cs coders) ≡ some (coder_of p.1 none)) (paired ts cs)
unfolding find_coder
assigned-found [] cs coders h = tt
assigned-found (t ∷ ts) [] coders h = tt
assigned-found (t ∷ ts) (c ∷ cs) coders h = (
  others_kept t ts cs ((t, coder_of c none) ∷ coders) h.0 ∙ rw (str_eq_refl t) refl,
  assigned-found ts cs ((t, coder_of c none) ∷ coders) h.1,
)

-- A consumer of distinct topics, with at least as many coder configurations, is constructed without an
-- error, and finds for each topic the coder of the configuration at the topic's index, which reads its
-- schema from the default directory, whatever directory the configuration names.
pub consumer_coders-found :
    (trace : String) (ts : List String) (cs : List CoderConfig)
    → length ts ≤ length cs
    → Distinct ts
    → (coders : TopicCoders) × (consumer_coders trace (some (topics ts)) (some (coder_list cs))
        ≡ done coders)
      × All (λ p. find_coder p.0 coders ≡ some (coder_of p.1 none)) (paired ts cs)
unfolding consumer_coders
consumer_coders-found trace ts cs h distinct =
    (assigned ts cs [], assign_coders-assigned trace ts cs [] h, assigned-found ts cs [] distinct)
