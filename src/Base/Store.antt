-- ===== src/Base/Store.antt =====
-- A collection of the database: its rows in some order, each with its own id.
use Prim.Native.Nat.{ℕ, ◌+◌, ◌-◌, ◌≤◌}
use mathlib.Core.Path.{◌≡◌, refl, ap, subst}
use mathlib.Core.Logic.{◌≢◌, inl, inr}
use mathlib.Core.Bool.{Bool, true}
use mathlib.Core.Option.{Option, none, some}
use mathlib.Core.List.{List, [], ◌∷◌}
use native.Mathlib.Omega.{arith}
use roadassistapp_be.Base.Tests.{◌==◌, leb, ==_iff, if◌then◌else◌, Bool-cases}
use roadassistapp_be.Base.Lists.{select, find, find-passes, All, All-map}

module _ {A : Type 0} (id_of : A → ℕ) where
  -- `doc(id).get()`
  abbrev pub get_row : ℕ → List A → Option A
  get_row id rows = find (λ r. id_of r == id) rows

  -- `doc(id).update(...)`
  abbrev pub update_row : ℕ → (A → A) → List A → List A
  update_row id f [] = []
  update_row id f (r ∷ rows) =
      let rest = update_row id f rows in if id_of r == id then f r ∷ rest else r ∷ rest

  -- `doc(id).delete()`
  abbrev pub delete_row : ℕ → List A → List A
  delete_row id [] = []
  delete_row id (r ∷ rows) =
      let rest = delete_row id rows in if id_of r == id then rest else r ∷ rest

  pub get_row-id : (id : ℕ) (rows : List A) {a : A} → get_row id rows ≡ some a → id_of a ≡ id
  get_row-id id rows h = (==_iff _ _).0 (find-passes (λ r. id_of r == id) rows h)

  pub get_row-update_row :
      (id : ℕ) (f : A → A) (rows : List A) {a : A}
      → ((b : A) → id_of (f b) ≡ id_of b)
      → get_row id rows ≡ some a
      → get_row id (update_row id f rows) ≡ some (f a)
  get_row-update_row id f [] k h = cc
  get_row-update_row id f (r ∷ rows) {a} k h = elim (Bool-cases (id_of r == id)) [
    | inl e ↦
        let s : some r ≡ some a = rw e at h in
        let t : (id_of (f r) == id) ≡ true = rw (k r) e in rw (e, t) (cc s)
    | inr d ↦
        let s : get_row id rows ≡ some a = rw d at h in rw (d, d) (get_row-update_row id f rows k s)
  ]

  pub get_row-update_row_ne :
      (id other : ℕ) (f : A → A) (rows : List A)
      → ((a : A) → id_of (f a) ≡ id_of a)
      → other ≢ id
      → get_row other (update_row id f rows) ≡ get_row other rows
  get_row-update_row_ne id other f [] k ne = refl
  get_row-update_row_ne id other f (r ∷ rows) k ne =
      ground (arith, k r, get_row-update_row_ne id other f rows k ne)

  -- An update turns what holds of every row into what holds of the row that it changes, and of
  -- each other row.
  pub All-update_row_to {κ μ} :
      (P : A → Type κ) (Q : A → Type μ) (id : ℕ) (f : A → A) (rows : List A)
      → ((a : A) → id_of a ≡ id → P a → Q (f a))
      → ((a : A) → id_of a ≢ id → P a → Q a)
      → All P rows
      → All Q (update_row id f rows)
  All-update_row_to P Q id f [] k m h = tt
  All-update_row_to P Q id f (r ∷ rows) k m h = elim (Bool-cases (id_of r == id)) [
    | inl e ↦ rw e (k r ((==_iff _ _).0 e) h.0, All-update_row_to P Q id f rows k m h.1)
    | inr d ↦
        rw d (m r (λ e. cc (d, (==_iff _ _).1 e)) h.0, All-update_row_to P Q id f rows k m h.1)
  ]

  pub All-update_row {κ} :
      (P : A → Type κ) (id : ℕ) (f : A → A) (rows : List A)
      → ((a : A) → P a → P (f a))
      → All P rows
      → All P (update_row id f rows)
  All-update_row P id f rows k h = All-update_row_to P P id f rows (λ a _ p. k a p) (λ a _ p. p) h

  pub All-delete_row {κ} :
      (P : A → Type κ) (id : ℕ) (rows : List A) → All P rows → All P (delete_row id rows)
  All-delete_row P id [] h = tt
  All-delete_row P id (r ∷ rows) h = elim (Bool-cases (id_of r == id)) [
    | inl e ↦ rw e (All-delete_row P id rows h.1)
    | inr d ↦ rw d (h.0, All-delete_row P id rows h.1)
  ]

  pub get_row-delete_row_ne :
      (id other : ℕ) (rows : List A)
      → other ≢ id
      → get_row other (delete_row id rows) ≡ get_row other rows
  get_row-delete_row_ne id other [] ne = refl
  get_row-delete_row_ne id other (r ∷ rows) ne =
      ground (arith, get_row-delete_row_ne id other rows ne)

  pub update_row_fresh :
      (id other : ℕ) (f : A → A) (rows : List A)
      → ((a : A) → id_of (f a) ≡ id_of a)
      → get_row other rows ≡ none
      → get_row other (update_row id f rows) ≡ none
  update_row_fresh id other f [] k h = refl
  update_row_fresh id other f (r ∷ rows) k h =
      ground (arith, k r, update_row_fresh id other f rows k)

  -- No two rows have the same id.
  unfoldable pub IsKeyed : List A → Type 0
  IsKeyed [] = Unit
  IsKeyed (r ∷ rows) = (get_row (id_of r) rows ≡ none) × IsKeyed rows

  pub update_row-IsKeyed :
      (id : ℕ) (f : A → A) (rows : List A)
      → ((a : A) → id_of (f a) ≡ id_of a)
      → IsKeyed rows
      → IsKeyed (update_row id f rows)
  unfolding IsKeyed
  update_row-IsKeyed id f [] k h = tt
  update_row-IsKeyed id f (r ∷ rows) k h =
      let rest = update_row-IsKeyed id f rows k h.1 in
      let fresh = update_row_fresh id (id_of r) f rows k h.0 in
      elim (Bool-cases (id_of r == id)) [
        | inl e ↦ rw (e, k r) (fresh, rest)
        | inr d ↦ rw d (fresh, rest)
      ]

  -- Every row is the one that its id finds.
  pub IsKeyed-All : (rows : List A) → IsKeyed rows → All (λ r. get_row (id_of r) rows ≡ some r) rows
  unfolding IsKeyed
  IsKeyed-All [] h = tt
  IsKeyed-All (r ∷ rows) h = (
    rw ((==_iff (id_of r) (id_of r)).1 refl) refl,
    All-map (λ q. get_row (id_of q) rows ≡ some q) (λ q. get_row (id_of q) (r ∷ rows) ≡ some q)
        (λ q e. elim (Bool-cases (id_of r == id_of q)) [
          | inl s ↦ let same : get_row (id_of r) rows ≡ none = h.0 in cc (e, same, (==_iff _ _).0 s)
          | inr d ↦ rw d e
        ])
        rows (IsKeyed-All rows h.1),
  )

  -- The sum of a number over the rows.
  unfoldable pub total : (A → ℕ) → List A → ℕ
  total w [] = 0
  total w (r ∷ rows) = w r + total w rows

  pub total-update_row_fresh :
      (w : A → ℕ) (id : ℕ) (f : A → A) (rows : List A)
      → get_row id rows ≡ none
      → total w (update_row id f rows) ≡ total w rows
  unfolding total
  total-update_row_fresh w id f [] h = refl
  total-update_row_fresh w id f (r ∷ rows) h = elim (Bool-cases (id_of r == id)) [
    | inl e ↦ let no : some r ≡ none = rw e at h in cc no
    | inr d ↦
        let rest : get_row id rows ≡ none = rw d at h in
        rw (d, total-update_row_fresh w id f rows rest) refl
  ]

  -- An update changes the sum by what the one row's number changes.
  pub total-update_row :
      (w : A → ℕ) (id : ℕ) (f : A → A) (rows : List A) {a : A}
      → IsKeyed rows
      → get_row id rows ≡ some a
      → total w (update_row id f rows) + w a ≡ total w rows + w (f a)
  unfolding total IsKeyed
  total-update_row w id f [] k h = cc h
  total-update_row w id f (r ∷ rows) {a} k h = elim (Bool-cases (id_of r == id)) [
    | inl e ↦
        let same : some r ≡ some a = rw e at h in
        let eq : r ≡ a = cc same in
        let fresh : get_row id rows ≡ none =
          subst (λ x. get_row x rows ≡ none) ((==_iff _ _).0 e) k.0 in
        let kept = total-update_row_fresh w id f rows fresh in
        let wa : w r ≡ w a = ap w eq in
        let wf : w (f r) ≡ w (f a) = ap (λ x. w (f x)) eq in rw (e, kept, wa, wf) (omega arith)
    | inr d ↦
        let rest : get_row id rows ≡ some a = rw d at h in
        let ih = total-update_row w id f rows k.1 rest in rw d (omega (arith, ih))
  ]

  pub total_ge :
      (w : A → ℕ) (id : ℕ) (rows : List A) {a : A} → get_row id rows ≡ some a → w a ≤ total w rows
  unfolding total
  total_ge w id [] h = cc h
  total_ge w id (r ∷ rows) {a} h = elim (Bool-cases (id_of r == id)) [
    | inl e ↦
        let same : some r ≡ some a = rw e at h in let wa : w r ≡ w a = ap w (cc same) in omega arith
    | inr d ↦ let ih = total_ge w id rows (rw d at h) in omega arith
  ]

  -- No row has an id that finds none.
  pub fresh-All : (id : ℕ) (rows : List A) → get_row id rows ≡ none → All (λ r. id_of r ≢ id) rows
  fresh-All id [] h = tt
  fresh-All id (r ∷ rows) h = elim (Bool-cases (id_of r == id)) [
    | inl e ↦ let no : some r ≡ none = rw e at h in cc no
    | inr d ↦ (λ e. cc (d, (==_iff _ _).1 e), fresh-All id rows (rw d at h))
  ]

  select_fresh :
      (p : A → Bool) (limit id : ℕ) (rows : List A)
      → get_row id rows ≡ none
      → get_row id (select p limit rows) ≡ none
  unfolding select
  select_fresh p limit id [] h = refl
  select_fresh p limit id (r ∷ rows) h =
      ground (arith, select_fresh p limit id rows, select_fresh p (limit - 1) id rows)

  pub select-IsKeyed :
      (p : A → Bool) (limit : ℕ) (rows : List A) → IsKeyed rows → IsKeyed (select p limit rows)
  unfolding IsKeyed select
  select-IsKeyed p limit [] h = tt
  select-IsKeyed p limit (r ∷ rows) h = elim (Bool-cases (p r)) [
    | inr d ↦ rw d (select-IsKeyed p limit rows h.1)
    | inl e ↦ elim (Bool-cases (leb limit 0)) [
      | inl z ↦ rw (e, z) tt
      | inr z ↦
          rw (e, z)
            (select_fresh p (limit - 1) (id_of r) rows h.0, select-IsKeyed p (limit - 1) rows h.1)
    ]
  ]
