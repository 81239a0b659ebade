-- ===== src/Store/Memory.antt =====
-- A collection in memory that behaves as `Documented` asks, so that the theorems' hypotheses can be
-- met. It stands for no code of the repository.
use chain_indexer_framework.Prelude.{
  ◌≡◌, ◌≢◌, ◌↔◌, ◌⊎◌, refl, sym, ap, subst, ◌∙◌, inl, inr, Bool, true, false, not, ◌||◌, List, [],
  ◌∷◌, Option, none, some, arith, if◌then◌else◌, keep_if, Bool-cases,
}
use chain_indexer_framework.Prelude.Int.{ℤ, ◌≤ℤ◌, ltb_ℤ, eq_ℤ, eq_ℤ_iff}
use chain_indexer_framework.Errors.Value.{JsValue, text}
use chain_indexer_framework.Store.{
  Outcome, done, failed, ProducedBlock, Filter, matches, Collection, Documented,
}

abbrev pub Contains : List ProducedBlock → ProducedBlock → Type 0
Contains [] c = ⊥
Contains (x ∷ xs) c = (c ≡ x) ⊎ Contains xs c

abbrev higher : ProducedBlock → Option ProducedBlock → ProducedBlock
higher x none = x
higher x (some y) = if ltb_ℤ x.number y.number then y else x

abbrev highest : Filter → List ProducedBlock → Option ProducedBlock
highest f [] = none
highest f (x ∷ xs) = if matches f x then some (higher x (highest f xs)) else highest f xs

abbrev has_number : ℤ → List ProducedBlock → Bool
has_number n [] = false
has_number n (x ∷ xs) = eq_ℤ x.number n || has_number n xs

abbrev duplicate_key : JsValue
duplicate_key = text "E11000 duplicate key error"

abbrev insert : ProducedBlock → List ProducedBlock → Outcome (Unit {0}) × List ProducedBlock
insert b docs =
    if has_number b.number docs then (failed duplicate_key, docs) else (done tt, b ∷ docs)

abbrev remove : Filter → List ProducedBlock → List ProducedBlock
remove f docs = keep_if (λ b. not (matches f b)) docs

abbrev pub memory : Collection
memory = record {
  State = List ProducedBlock;
  Stored = Contains;
  find_highest = λ f docs. done (highest f docs);
  create = insert;
  delete_many = λ f docs. (done tt, remove f docs);
}

abbrev Greatest : Filter → List ProducedBlock → Option ProducedBlock → Type 0
Greatest f docs none = (c : ProducedBlock) → Contains docs c → matches f c ≡ false
Greatest f docs (some b) =
    Contains docs b
    × (matches f b ≡ true)
    × ((c : ProducedBlock) → Contains docs c → matches f c ≡ true → c.number ≤ℤ b.number)

-- A document that matches competes with the best of the others; one that does not is passed over.
hit_Greatest :
    (f : Filter) (x : ProducedBlock) (xs : List ProducedBlock) (o : Option ProducedBlock)
    → matches f x ≡ true
    → Greatest f xs o
    → Greatest f (x ∷ xs) (some (higher x o))
hit_Greatest f x xs none hit g = (
  inl refl,
  hit,
  λ c h k. (elim h [
    | inl same ↦ subst (λ y. c.number ≤ℤ y.number) same (omega arith)
    | inr later ↦ absurd (cc (k, g c later))
  ]),
)
hit_Greatest f x xs (some y) hit g = elim (Bool-cases (ltb_ℤ x.number y.number)) [
  | inl less ↦ rw less (
    inr g.0,
    g.1,
    λ c h k. (elim h [
      | inl same ↦ subst (λ z. z.number ≤ℤ y.number) (sym same) (ground arith)
      | inr later ↦ g.2 c later k
    ]),
  )
  | inr more ↦ rw more (
    inl refl,
    hit,
    λ c h k. (elim h [
      | inl same ↦ subst (λ z. z.number ≤ℤ x.number) (sym same) (omega arith)
      | inr later ↦ ground (arith, g.2 c later k)
    ]),
  )
]

miss_Greatest :
    (f : Filter) (x : ProducedBlock) (xs : List ProducedBlock) (o : Option ProducedBlock)
    → matches f x ≡ false
    → Greatest f xs o
    → Greatest f (x ∷ xs) o
miss_Greatest f x xs none miss g = λ c h. (elim h [
  | inl same ↦ subst (λ y. matches f y ≡ false) (sym same) miss
  | inr later ↦ g c later
])
miss_Greatest f x xs (some y) miss g = (
  inr g.0,
  g.1,
  λ c h k. (elim h [
    | inl same ↦ absurd (cc (k, subst (λ z. matches f z ≡ false) (sym same) miss))
    | inr later ↦ g.2 c later k
  ]),
)

highest-Greatest : (f : Filter) (docs : List ProducedBlock) → Greatest f docs (highest f docs)
highest-Greatest f [] = λ c h. absurd h
highest-Greatest f (x ∷ xs) = elim (Bool-cases (matches f x)) [
  | inl hit ↦ rw hit (hit_Greatest f x xs (highest f xs) hit (highest-Greatest f xs))
  | inr miss ↦ rw miss (miss_Greatest f x xs (highest f xs) miss (highest-Greatest f xs))
]

answered :
    (f : Filter) (docs : List ProducedBlock) (o : Option ProducedBlock)
    → done (highest f docs) ≡ done o
    → Greatest f docs o
answered f docs o e = subst (Greatest f docs) (cc e) (highest-Greatest f docs)

fresh :
    (n : ℤ) (docs : List ProducedBlock) (c : ProducedBlock)
    → has_number n docs ≡ false
    → Contains docs c
    → c.number ≢ n
fresh n [] c e h = absurd h
fresh n (x ∷ xs) c e (inl same) =
    λ k. cc (e, (eq_ℤ_iff x.number n).1 (ap (λ y. y.number) (sym same) ∙ k))
fresh n (x ∷ xs) c e (inr later) = fresh n xs c (ground (arith, e)) later

Contains-remove :
    (f : Filter) (docs : List ProducedBlock) (c : ProducedBlock)
    → Contains (remove f docs) c ↔ (Contains docs c × (matches f c ≡ false))
Contains-remove f [] c = (λ h. absurd h, λ h. h.0)
Contains-remove f (x ∷ xs) c =
    let ih = Contains-remove f xs c in
    elim (Bool-cases (matches f x)) [
      | inl hit ↦ rw hit (
        (λ h. (inr (ih.0 h).0, (ih.0 h).1)),
        (λ h. (elim h.0 [
          | inl same ↦ absurd (cc (hit, subst (λ y. matches f y ≡ false) same h.1))
          | inr later ↦ ih.1 (later, h.1)
        ])),
      )
      | inr miss ↦ rw miss (
        (λ h. (elim h [
          | inl same ↦ (inl same, subst (λ y. matches f y ≡ false) (sym same) miss)
          | inr later ↦ (inr (ih.0 later).0, (ih.0 later).1)
        ])),
        (λ h. (elim h.0 [ inl same ↦ inl same | inr later ↦ inr (ih.1 (later, h.1)) ])),
      )
    ]

insert_cases :
    (b : ProducedBlock) (docs : List ProducedBlock)
    → ((has_number b.number docs ≡ true) × ((e : JsValue) × (insert b docs ≡ (failed e, docs))))
      ⊎ ((has_number b.number docs ≡ false) × (insert b docs ≡ (done tt, b ∷ docs)))
insert_cases b docs = elim (Bool-cases (has_number b.number docs)) [
  | inl e ↦ inl (e, (duplicate_key, rw e refl))
  | inr e ↦ inr (e, rw e refl)
]

created_one :
    (b : ProducedBlock) (docs : List ProducedBlock)
    → (insert b docs).0 ≡ done tt
    → (has_number b.number docs ≡ false) × ((insert b docs).1 ≡ b ∷ docs)
created_one b docs h = elim (insert_cases b docs) [
  | inl (e, (x, same)) ↦ absurd (cc (h, ap (λ r. r.0) same))
  | inr (e, same) ↦ (e, ap (λ r. r.1) same)
]

refused_one :
    (b : ProducedBlock) (docs : List ProducedBlock) (e : JsValue)
    → (insert b docs).0 ≡ failed e
    → (insert b docs).1 ≡ docs
refused_one b docs e h = elim (insert_cases b docs) [
  | inl (_, (x, same)) ↦ ap (λ r. r.1) same
  | inr (_, same) ↦ absurd (cc (h, ap (λ r. r.0) same))
]

pub memory-Documented : Documented memory
memory-Documented = record {
  find_none = λ f s e c. answered f s none e c;
  find_some = λ f s b e. ((answered f s (some b) e).0, (answered f s (some b) e).1);
  find_greatest = λ f s b e c. (answered f s (some b) e).2 c;
  created = λ b s e c.
      subst (λ docs. Contains docs c ↔ (Contains s c ⊎ (c ≡ b))) (sym (created_one b s e).1)
        (
          (λ h. (elim h [ inl x ↦ inr x | inr y ↦ inl y ])),
          (λ h. (elim h [ inl x ↦ inr x | inr y ↦ inl y ])),
        );
  created_fresh = λ b s e c h. fresh b.number s c (created_one b s e).0 h;
  not_created = λ b s x e c.
      subst (λ docs. Contains docs c ↔ Contains s c) (sym (refused_one b s x e)) (λ h. h, λ h. h);
  deleted = λ f s _ c. Contains-remove f s c;
  deleted_some = λ f s c h. ((Contains-remove f s c).0 h).0;
  deleted_only = λ f s c h k. (Contains-remove f s c).1 (h, k);
}
