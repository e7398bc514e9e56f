-- ===== src/Storage/Window.antt =====
-- The SQL windows of internal/storage/retention.go: `ROW_NUMBER() OVER (PARTITION BY … ORDER BY …)`
-- and `SUM(w) OVER (ORDER BY … ROWS UNBOUNDED PRECEDING)`. Over an order without ties, which a
-- primary key or the row number at its end gives, both add up a weight (1, or w) over the rows of
-- the partition that do not come after the row, itself among them.
use mathlib.Core.Path.{subst}
use native.Mathlib.Nat.{le_trans}
use mcp_grand_lyon.Base.{
  ℕ, ◌+◌, ◌≡◌, ◌≤◌, Bool, true, false, not, ◌&&◌, List, [], ◌∷◌, arith, All, All-map,
  All-filter_of_test, filter, leb, if◌then◌else◌, refl, sym, inl, inr, Bool-cases, ◌⊎◌, All-zip,
  length,
}
use mcp_grand_lyon.Base.Sort.{IsStrictWeak}

module _ {ℓ} {A : Type ℓ} where
  -- The weights of the rows that pass the test, added up.
  unfoldable pub total_if : (A → Bool) → (A → ℕ) → List A → ℕ
  total_if p w [] = 0
  total_if p w (x ∷ xs) = (if p x then w x else 0) + total_if p w xs

  -- `same q r`: q is in r's partition. `ahead q r`: q comes before r in the window's order.
  module _ (same ahead : A → A → Bool) (w : A → ℕ) where
    abbrev pub in_window : A → A → Bool
    in_window r q = same q r && not (ahead r q)

    unfoldable pub running : List A → A → ℕ
    unfolding total_if
    running rows r = total_if (in_window r) w rows

module _ {ℓ} {A : Type ℓ} where
  total_if_mono :
      (p q : A → Bool) (w : A → ℕ) (xs : List A)
      → All (λ x. q x ≡ true) (filter p xs)
      → total_if p w xs ≤ total_if q w xs
  unfolding total_if
  total_if_mono p q w [] h = omega arith
  total_if_mono p q w (x ∷ xs) h = elim (Bool-cases (p x)) [
    | inl t ↦
        let (now, later) = rw t at h in
        let rest = total_if_mono p q w xs later in rw (t, now) (omega (arith, rest))
    | inr f ↦ let rest = total_if_mono p q w xs (rw f at h) in rw f (omega (arith, rest))
  ]

  total_if-false : (w : A → ℕ) (xs : List A) → total_if (λ x. false) w xs ≡ 0
  unfolding total_if
  total_if-false w [] = refl
  total_if-false w (x ∷ xs) = omega (arith, total_if-false w xs)

  last_of {κ} :
      (P : A → Type κ) (ahead : A → A → Bool)
      → IsStrictWeak ahead
      → (x : A) (xs : List A) → All P (x ∷ xs)
      → (l : A) × P l × All (λ q. ahead l q ≡ false) (x ∷ xs)
  last_of P ahead o x [] (p, h) = (x, p, (ground (arith, o.asymm x x), tt))
  last_of P ahead o x (y ∷ ys) (p, h) =
      let (l, pl, all_l) = last_of P ahead o y ys h in
      elim (Bool-cases (ahead l x)) [
        | inl t ↦ (
          x,
          p,
          (
            ground (arith, o.asymm x x),
            All-map (λ q. ahead l q ≡ false) (λ q. ahead x q ≡ false)
                (λ q k. o.le_trans q l x k (o.asymm l x t)) (y ∷ ys) all_l,
          ),
        )
        | inr f ↦ (l, pl, (f, all_l))
      ]

  List-cases : (xs : List A) → (xs ≡ []) ⊎ ((y : A) × (ys : List A) × (xs ≡ y ∷ ys))
  List-cases [] = inl refl
  List-cases (y ∷ ys) = inr (y, ys, refl)

module _ {ℓ} {A : Type ℓ} (same ahead : A → A → Bool) (w : A → ℕ) (o : IsStrictWeak ahead) where
  -- The rows of one partition that the window bounds by m weigh at most m together.
  pub running_bound :
      (part : A → Bool)
      → ((q r : A) → part q ≡ true → part r ≡ true → same q r ≡ true)
      → (m : ℕ) (rows : List A)
      → total_if (λ r. part r && leb (running same ahead w rows r) m) w rows ≤ m
  unfolding running
  running_bound part one m rows = elim (List-cases (filter kept rows)) [
    | inl e ↦ omega (
      arith,
      total_if-false w rows,
      total_if_mono kept (λ x. false) w rows (subst (All (λ x. false ≡ true)) (sym e) tt),
    )
    | inr (y, ys, e) ↦
        let (l, (part_l, bound), all_l) = last_of P ahead o y ys (subst (All P) e good) in
        le_trans
          (total_if_mono kept (in_window same ahead w l) w rows
            (inside l part_l (subst (All (λ q. ahead l q ≡ false)) (sym e) all_l)))
          bound
  ]
    where
      kept : A → Bool
      kept r = part r && leb (running same ahead w rows r) m

      P : A → Type 0
      P r = (part r ≡ true) × (running same ahead w rows r ≤ m)

      good : All P (filter kept rows)
      good = All-filter_of_test P kept (λ r h. (ground arith, ground arith)) rows

      inside :
          (l : A)
          → part l ≡ true
          → All (λ q. ahead l q ≡ false) (filter kept rows)
          → All (λ q. in_window same ahead w l q ≡ true) (filter kept rows)
      inside l part_l h =
          All-zip P _ _ (λ q p a. ground (arith, one q l p.0 part_l, a)) (filter kept rows) good h

  -- A row that does not come after r in r's partition has a window no heavier than r's.
  pub running_mono :
      ((z q r : A) → same z q ≡ true → same q r ≡ true → same z r ≡ true)
      → (rows : List A) (q r : A) → same q r ≡ true
      → ahead r q ≡ false
      → running same ahead w rows q ≤ running same ahead w rows r
  unfolding running
  running_mono trans rows q r s a =
      total_if_mono (in_window same ahead w q) (in_window same ahead w r) w rows (
        All-filter_of_test (λ z. in_window same ahead w r z ≡ true) (in_window same ahead w q)
          (λ z h. ground (arith, trans z q r, o.le_trans z q r)) rows)

  -- A window is no heavier than its partition.
  pub running-le :
      (rows : List A) (r : A) → running same ahead w rows r ≤ total_if (λ q. same q r) w rows
  unfolding running
  running-le rows r =
      total_if_mono (in_window same ahead w r) (λ q. same q r) w rows
        (All-filter_of_test (λ z. same z r ≡ true) (in_window same ahead w r) (λ z h. ground arith)
          rows)

module _ {ℓ} {A : Type ℓ} where
  pub total_if-filter :
      (p k : A → Bool) (w : A → ℕ) (xs : List A)
      → total_if p w (filter k xs) ≡ total_if (λ x. p x && k x) w xs
  unfolding total_if
  total_if-filter p k w [] = refl
  total_if-filter p k w (x ∷ xs) = ground (arith, total_if-filter p k w xs)

  pub length-filter_total :
      (p : A → Bool) (xs : List A) → length (filter p xs) ≡ total_if p (λ y. 1) xs
  unfolding total_if
  length-filter_total p [] = refl
  length-filter_total p (x ∷ xs) = ground (arith, length-filter_total p xs)

  pub length_total : (xs : List A) → length xs ≡ total_if (λ x. true) (λ y. 1) xs
  unfolding total_if
  length_total [] = refl
  length_total (x ∷ xs) = ground (arith, length_total xs)

  pub total_if_of_test :
      (p q : A → Bool) (w : A → ℕ)
      → ((x : A) → p x ≡ true → q x ≡ true)
      → (xs : List A) → total_if p w xs ≤ total_if q w xs
  total_if_of_test p q w h xs = total_if_mono p q w xs (All-filter_of_test (λ x. q x ≡ true) p h xs)
