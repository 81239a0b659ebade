-- ===== src/Store/Window.antt =====
-- What `get` and `add` do to the stored blocks, from the documented behaviour of the collection.
use chain_indexer_framework.Prelude.{
  ℕ, ◌≡◌, ◌↔◌, ◌⊎◌, refl, sym, ap, subst, ◌∙◌, inl, inr, false, Option, none, some, arith,
}
use chain_indexer_framework.Prelude.Int.{ℤ, pos, ◌-ℤ◌, ◌≤ℤ◌, -ℤ_parts, eq_of_parts}
use chain_indexer_framework.Errors.Value.{JsValue}
use chain_indexer_framework.Store.{
  Outcome, done, failed, ProducedBlock, every, outside, matches, Collection, Documented, get, add,
}

pub Outcome-cases {ℓ} :
    {A : Type ℓ} (o : Outcome A) → ((a : A) × (o ≡ done a)) ⊎ ((e : JsValue) × (o ≡ failed e))
Outcome-cases (done a) = inl (a, refl)
Outcome-cases (failed e) = inr (e, refl)

-- The numbers that `add` keeps: not below `number - depth`, not above `number`.
abbrev pub InWindow : ℤ → ℕ → ProducedBlock → Type 0
InWindow number depth c = (number -ℤ pos depth ≤ℤ c.number) × (c.number ≤ℤ number)

not_outside :
    (number : ℤ) (depth : ℕ) (c : ProducedBlock)
    → (matches (outside (number -ℤ pos depth) number) c ≡ false) ↔ InWindow number depth c
not_outside number depth c = (λ h. (ground arith, ground arith), λ h. ground arith)

self_InWindow : (b : ProducedBlock) (depth : ℕ) → InWindow b.number depth b
self_InWindow b depth = (omega (arith, -ℤ_parts b.number (pos depth)), omega arith)

module _ (m : Collection) (doc : Documented m) (b : ProducedBlock) (depth : ℕ) (s : m.State) where
  abbrev after : m.State
  after = (add m b depth s).1

  -- The two ways in which `add` can go: the new document was refused, or it was written and the
  -- deletion ran.
  pub add_cases :
      ((e : JsValue) × ((m.create b s).0 ≡ failed e)
        × (add m b depth s ≡ (failed e, (m.create b s).1)))
      ⊎ (((m.create b s).0 ≡ done tt)
          × (add m b depth s
              ≡ m.delete_many (outside (b.number -ℤ pos depth) b.number) (m.create b s).1))
  unfolding add
  add_cases = elim (Outcome-cases (m.create b s).0) [
    | inl (u, e) ↦ inr (e, ground (arith, e))
    | inr (x, e) ↦ inl (x, e, ground (arith, e))
  ]

  -- A successful `add` leaves the new block, and of the others exactly those whose number lies
  -- between the new number less the depth and the new number.
  pub add-Stored :
      (add m b depth s).0 ≡ done tt
      → (c : ProducedBlock)
      → m.Stored after c ↔ ((c ≡ b) ⊎ (m.Stored s c × InWindow b.number depth c))
  add-Stored h c = elim add_cases [
    | inl (e, refused, same) ↦ absurd (cc (h, same))
    | inr (written, same) ↦
        let made = (m.create b s).1 in
        let f = outside (b.number -ℤ pos depth) b.number in
        let now = doc.created b s written c in
        let kept : m.Stored after c ↔ (m.Stored made c × (matches f c ≡ false)) =
          subst (λ r. m.Stored r.1 c ↔ (m.Stored made c × (matches f c ≡ false))) (sym same)
            (doc.deleted f made (ap (λ r. r.0) (sym same) ∙ h) c) in
        (
          (λ stored.
              let (old, inside) = kept.0 stored in
              (elim (now.0 old) [
                | inl was ↦ inr (was, (not_outside b.number depth c).0 inside)
                | inr is_new ↦ inl is_new
              ])),
          (λ either. (elim either [
            | inl is_new ↦ kept.1 (
              now.1 (inr is_new),
              (not_outside b.number depth c).1
                  (subst (InWindow b.number depth) (sym is_new) (self_InWindow b depth)),
            )
            | inr (was, window) ↦ kept.1 (now.1 (inl was), (not_outside b.number depth c).1 window)
          ])),
        )
  ]

  -- A block whose number is stored already is refused, and the stored blocks stay as they are. So the
  -- new hash of a re-organised block is not recorded while the old one is stored.
  pub add_again :
      (c : ProducedBlock)
      → m.Stored s c
      → c.number ≡ b.number
      → ((e : JsValue) × ((add m b depth s).0 ≡ failed e))
        × ((d : ProducedBlock) → m.Stored after d ↔ m.Stored s d)
  add_again c stored same_number = elim add_cases [
    | inl (e, refused, same) ↦ (
      (e, ap (λ r. r.0) same),
      λ d. subst (λ r. m.Stored r.1 d ↔ m.Stored s d) (sym same) (doc.not_created b s e refused d),
    )
    | inr (written, same) ↦ absurd (doc.created_fresh b s written c stored same_number)
  ]

  -- Whatever `add` returns, it leaves no block but the new one and those that were stored, so that
  -- numbers that were distinct stay distinct.
  add_subset :
      (c : ProducedBlock)
      → m.Stored after c
      → (m.Stored s c) ⊎ ((c ≡ b) × ((m.create b s).0 ≡ done tt))
  add_subset c stored = elim add_cases [
    | inl (e, refused, same) ↦
        inl ((doc.not_created b s e refused c).0 (subst (λ r. m.Stored r.1 c) same stored))
    | inr (written, same) ↦
        elim ((doc.created b s written c).0
          (doc.deleted_some _ _ c (subst (λ r. m.Stored r.1 c) same stored))) [
            | inl was ↦ inl was
            | inr is_new ↦ inr (is_new, written)
          ]
  ]

-- No two stored blocks share a number.
abbrev pub HasDistinctNumbers : (m : Collection) → m.State → Type 0
HasDistinctNumbers m s =
    (c d : ProducedBlock) → m.Stored s c → m.Stored s d → c.number ≡ d.number → c ≡ d

-- Whatever `add` returns, distinct numbers stay distinct.
pub add-HasDistinctNumbers :
    (m : Collection) (doc : Documented m) (b : ProducedBlock) (depth : ℕ) (s : m.State)
    → HasDistinctNumbers m s
    → HasDistinctNumbers m (add m b depth s).1
add-HasDistinctNumbers m doc b depth s distinct c d hc hd e =
    elim (add_subset m doc b depth s c hc) [
      | inl was_c ↦ elim (add_subset m doc b depth s d hd) [
        | inl was_d ↦ distinct c d was_c was_d e
        | inr (is_d, written) ↦
            absurd (doc.created_fresh b s written c was_c (e ∙ ap (λ x. x.number) is_d))
      ]
      | inr (is_c, written) ↦ elim (add_subset m doc b depth s d hd) [
        | inl was_d ↦
            absurd (doc.created_fresh b s written d was_d (sym e ∙ ap (λ x. x.number) is_c))
        | inr (is_d, _) ↦ is_c ∙ sym is_d
      ]
    ]

-- `get(0)` is `get()`: it returns the highest block, whatever its number, instead of block 0.
get_zero : (m : Collection) (s : m.State) → get m (some (pos 0)) s ≡ get m none s
unfolding get
get_zero m s = refl

created_of_add :
    (m : Collection) (doc : Documented m) (b : ProducedBlock) (depth : ℕ) (s : m.State)
    → (add m b depth s).0 ≡ done tt
    → (m.create b s).0 ≡ done tt
created_of_add m doc b depth s h = elim (add_cases m doc b depth s) [
  | inl (e, refused, same) ↦ absurd (cc (h, same))
  | inr (written, same) ↦ written
]

-- After a successful `add`, a `get()` that is answered returns the new block.
get-add :
    (m : Collection) (doc : Documented m) (b : ProducedBlock) (depth : ℕ) (s : m.State)
    (answer : Option ProducedBlock)
    → (add m b depth s).0 ≡ done tt
    → get m none (add m b depth s).1 ≡ done answer
    → answer ≡ some b
unfolding get
get-add m doc b depth s none h found =
    absurd (cc (doc.find_none every _ found b ((add-Stored m doc b depth s h b).1 (inl refl))))
get-add m doc b depth s (some head) h found =
    let s' = (add m b depth s).1 in
    let stored = (doc.find_some every s' head found).0 in
    let above =
      doc.find_greatest every s' head found b ((add-Stored m doc b depth s h b).1 (inl refl))
        refl in
    elim ((add-Stored m doc b depth s h head).0 stored) [
      | inl is_new ↦ ap some is_new
      | inr (was, window) ↦ absurd (
          doc.created_fresh b s (created_of_add m doc b depth s h) head was
            (eq_of_parts head.number b.number (omega arith)))
    ]
