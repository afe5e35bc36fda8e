-- ===== src/Config/Table/Rows.antt =====
-- What every statement keeps of a table.
use opencode_multi_agents.Prelude.{
  ℕ, suc, ◌≤◌, ◌≡◌, ◌≢◌, ◌∙◌, refl, sym, ap, subst, false, some, List, [], ◌∷◌, ◌++◌, ◌==◌, arith,
  All, All-append, Bool-cases, inl, inr,
}
use opencode_multi_agents.Prelude.Bytes.{same_bytes, same_bytes_comm}
use opencode_multi_agents.Config.Table.{
  Columns, Table, insert_row, find_row, update_row, delete_row, taken, taken_elsewhere, replaced,
  without_row, is_found,
}

module _ {A : Type 0} (columns : Columns A) where
  open columns use {key, label, keyed, key-keyed, label-keyed}

  -- Two rows differ in their keys and in their labels.
  abbrev pub Differs : A → A → Type 0
  Differs a b = (key a ≢ key b) × (same_bytes (label a) (label b) ≡ false)

  -- No two rows share a key or a label.
  abbrev pub AreApart : List A → Type 0
  AreApart [] = Unit {0}
  AreApart (row ∷ rows) = All (Differs row) rows × AreApart rows

  -- The table is as the database keeps it.
  abbrev pub IsTable : Table A → Type 0
  IsTable t = All (λ row. key row ≤ t.last) t.rows × AreApart t.rows

  AreApart-snoc :
      (rows : List A) (new : A)
      → All (λ row. Differs row new) rows
      → AreApart rows
      → AreApart (rows ++ new ∷ [])
  AreApart-snoc [] new h k = (tt, tt)
  AreApart-snoc (row ∷ rows) new h k =
      (All-append (Differs row) rows (new ∷ []) k.0 (h.0, tt), AreApart-snoc rows new h.1 k.1)

  -- A new row differs from those whose labels it was compared with.
  new-Differs :
      (last : ℕ) (rows : List A) (row : A)
      → All (λ old. key old ≤ last) rows
      → taken columns (label row) rows ≡ false
      → All (λ old. Differs old (keyed (suc last) row)) rows
  unfolding taken
  new-Differs last [] row h e = tt
  new-Differs last (old ∷ rows) row h e = (
    (
      (λ (same : key old ≡ key (keyed (suc last) row)).
          absurd (omega (arith, same ∙ key-keyed (suc last) row, h.0))),
      ap (same_bytes (label old)) (label-keyed (suc last) row) ∙ ground (arith, e),
    ),
    new-Differs last rows row h.1 (ground (arith, e)),
  )

  keys_grow :
      (last : ℕ) (rows : List A)
      → All (λ row. key row ≤ last) rows
      → All (λ row. key row ≤ suc last) rows
  keys_grow last [] h = tt
  keys_grow last (row ∷ rows) h = (omega (arith, h.0), keys_grow last rows h.1)

  pub insert_row-IsTable :
      (row : A) (t : Table A) {r : A × Table A}
      → insert_row columns row t ≡ some r
      → IsTable t
      → IsTable r.1
  unfolding insert_row
  insert_row-IsTable row t {r = r} e v = elim (Bool-cases (taken columns (label row) t.rows)) [
    | inl known ↦ ground (arith, e, known)
    | inr free ↦
        let new = keyed (suc t.last) row in
        let made : r ≡ (new, record { rows = t.rows ++ new ∷ []; last = suc t.last }) =
          ground (arith, e, free) in
        subst (λ (p : A × Table A). IsTable p.1) (sym made)
          (
            All-append (λ x. key x ≤ suc t.last) t.rows (new ∷ []) (keys_grow t.last t.rows v.0)
                (omega (arith, key-keyed (suc t.last) row), tt),
            AreApart-snoc t.rows new (new-Differs t.last t.rows row v.0 free) v.1,
          )
  ]

  without_row-All :
      (P : A → Type 0) (id : ℕ) (rows : List A) → All P rows → All P (without_row columns id rows)
  unfolding without_row
  without_row-All P id [] h = tt
  without_row-All P id (row ∷ rows) h = elim (Bool-cases (key row == id)) [
    | inl e ↦ rw e (without_row-All P id rows h.1)
    | inr e ↦ rw e (h.0, without_row-All P id rows h.1)
  ]

  without_row-AreApart :
      (id : ℕ) (rows : List A) → AreApart rows → AreApart (without_row columns id rows)
  unfolding without_row
  without_row-AreApart id [] h = tt
  without_row-AreApart id (row ∷ rows) h = elim (Bool-cases (key row == id)) [
    | inl e ↦ rw e (without_row-AreApart id rows h.1)
    | inr e ↦ rw e (without_row-All (Differs row) id rows h.0, without_row-AreApart id rows h.1)
  ]

  pub delete_row-IsTable : (id : ℕ) (t : Table A) → IsTable t → IsTable (delete_row columns id t)
  unfolding delete_row
  delete_row-IsTable id t v =
      (without_row-All (λ row. key row ≤ t.last) id t.rows v.0, without_row-AreApart id t.rows v.1)

  replaced-keys :
      (last : ℕ) (new : A) (rows : List A)
      → All (λ row. key row ≤ last) rows
      → All (λ row. key row ≤ last) (replaced columns new rows)
  unfolding replaced
  replaced-keys last new [] h = tt
  replaced-keys last new (row ∷ rows) h = elim (Bool-cases (key row == key new)) [
    | inl e ↦ rw e (ground (arith, e, h.0), replaced-keys last new rows h.1)
    | inr e ↦ rw e (h.0, replaced-keys last new rows h.1)
  ]

  -- Where no row has the key, nothing is replaced.
  replaced_missing :
      (new : A) (rows : List A)
      → is_found columns (find_row columns (key new) rows) ≡ false
      → replaced columns new rows ≡ rows
  unfolding replaced find_row
  replaced_missing new [] h = refl
  replaced_missing new (row ∷ rows) h = elim (Bool-cases (key row == key new)) [
    | inl e ↦ ground (arith, e, h)
    | inr e ↦ ground (arith, e, h, replaced_missing new rows)
  ]

  -- A row with another key keeps its difference from all rows, the new one included.
  replaced_apart :
      (new row : A) (rows : List A)
      → (key row == key new) ≡ false
      → same_bytes (label row) (label new) ≡ false
      → All (Differs row) rows
      → All (Differs row) (replaced columns new rows)
  unfolding replaced
  replaced_apart new row [] k l h = tt
  replaced_apart new row (x ∷ rows) k l h = elim (Bool-cases (key x == key new)) [
    | inl e ↦ rw e (((ground (arith, k)), l), replaced_apart new row rows k l h.1)
    | inr e ↦ rw e (h.0, replaced_apart new row rows k l h.1)
  ]

  -- The new row differs from the rows after the one in whose place it stands.
  replacing :
      (new row : A) (rows : List A)
      → key row ≡ key new
      → All (Differs row) rows
      → taken_elsewhere columns (key new) (label new) rows ≡ false
      → All (Differs new) (replaced columns new rows)
  unfolding replaced taken_elsewhere
  replacing new row [] k h e = tt
  replacing new row (x ∷ rows) k h e =
      let other : (key x == key new) ≡ false = ground (arith, k, h.0.0) in
      rw other (
        (ground (arith, other), same_bytes_comm (label new) (label x) ∙ ground (arith, e, other)),
        replacing new row rows k h.1 (ground (arith, e)),
      )

  replaced-AreApart :
      (new : A) (rows : List A)
      → taken_elsewhere columns (key new) (label new) rows ≡ false
      → AreApart rows
      → AreApart (replaced columns new rows)
  unfolding replaced taken_elsewhere
  replaced-AreApart new [] e h = tt
  replaced-AreApart new (row ∷ rows) e h = elim (Bool-cases (key row == key new)) [
    | inl k ↦ rw k (
      replacing new row rows (ground (arith, k)) h.0 (ground (arith, e)),
      replaced-AreApart new rows (ground (arith, e)) h.1,
    )
    | inr k ↦ rw k (
      replaced_apart new row rows k (ground (arith, e, k)) h.0,
      replaced-AreApart new rows (ground (arith, e)) h.1,
    )
  ]

  pub update_row-IsTable :
      (new : A) (t : Table A) {t' : Table A}
      → update_row columns new t ≡ some t'
      → IsTable t
      → IsTable t'
  unfolding update_row
  update_row-IsTable new t {t' = t'} e v =
      let done : Table A = record t { rows = replaced columns new t.rows } in
      let keys = replaced-keys t.last new t.rows v.0 in
      elim (Bool-cases (is_found columns (find_row columns (key new) t.rows))) [
        | inr missing ↦
            let made : t' ≡ done = ground (arith, e, missing) in
            subst IsTable (sym made)
              (keys, subst AreApart (sym (replaced_missing new t.rows missing)) v.1)
        | inl found ↦ elim (Bool-cases (taken_elsewhere columns (key new) (label new) t.rows)) [
          | inl known ↦ ground (arith, e, found, known)
          | inr free ↦
              let made : t' ≡ done = ground (arith, e, found, free) in
              subst IsTable (sym made) (keys, replaced-AreApart new t.rows free v.1)
        ]
      ]
