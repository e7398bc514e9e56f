-- ===== src/Base/Sort.antt =====
-- `sort.SliceStable` and its contract. The result of a stable sort by a strict weak order is unique,
-- so insertion stands for the library's algorithm.
use Prim.Native.Nat.{ℕ, zero, suc}
use mathlib.Core.Path.{◌≡◌, refl, ap, ◌∙◌}
use mathlib.Core.Logic.{inl, inr}
use mathlib.Core.Bool.{Bool, true, false, ◌||◌}
use mathlib.Core.List.{List, [], ◌∷◌, Perm}
use mathlib.Core.List.Perm
use native.Mathlib.Omega.{arith}
use mcp_grand_lyon.Base.Tests.{if◌then◌else◌, Bool-cases}
use mcp_grand_lyon.Base.Lists.{All, All-map, filter, any, Pairwise, take, All-take}

module _ {ℓ} {A : Type ℓ} (less : A → A → Bool) where
  -- x stands before the elements of the list in the input, so it passes those below it alone.
  pub insert : A → List A → List A
  insert x [] = x ∷ []
  insert x (y ∷ ys) = if less y x then y ∷ insert x ys else x ∷ y ∷ ys

  unfoldable pub sort_stable : List A → List A
  unfolding insert
  sort_stable [] = []
  sort_stable (x ∷ xs) = insert x (sort_stable xs)

  -- No element is below an earlier one.
  abbrev pub IsSorted : List A → Type ℓ
  IsSorted [] = Unit
  IsSorted (x ∷ xs) = All (λ y. less y x ≡ false) xs × IsSorted xs

  pub IsSorted-take : (n : ℕ) (xs : List A) → IsSorted xs → IsSorted (take n xs)
  IsSorted-take zero xs h = tt
  IsSorted-take (suc n) [] h = tt
  IsSorted-take (suc n) (x ∷ xs) (a, h) = (All-take _ n xs a, IsSorted-take n xs h)

-- A strict weak order: what `SliceStable` asks of its comparison.
pub record IsStrictWeak {ℓ} {A : Type ℓ} (less : A → A → Bool) : Type ℓ where
  pub asymm : (a b : A) → less a b ≡ true → less b a ≡ false
  pub le_trans : (a b c : A) → less b a ≡ false → less c b ≡ false → less c a ≡ false

module _ {ℓ} {A : Type ℓ} (less : A → A → Bool) where
  All-insert {κ} :
      (P : A → Type κ) (x : A) (ys : List A) → P x → All P ys → All P (insert less x ys)
  unfolding insert
  All-insert P x [] p h = (p, tt)
  All-insert P x (y ∷ ys) p (q, h) = elim (Bool-cases (less y x)) [
    | inl t ↦ rw t (q, All-insert P x ys p h)
    | inr f ↦ rw f (p, (q, h))
  ]

  pub All-sort_stable {κ} : (P : A → Type κ) (xs : List A) → All P xs → All P (sort_stable less xs)
  unfolding sort_stable
  All-sort_stable P [] h = tt
  All-sort_stable P (x ∷ xs) (p, h) =
      All-insert P x (sort_stable less xs) p (All-sort_stable P xs h)

  Pairwise-insert {κ} :
      (R : A → A → Type κ)
      → ((x y : A) → R x y → R y x)
      → (x : A) (ys : List A) → All (R x) ys
      → Pairwise R ys
      → Pairwise R (insert less x ys)
  unfolding insert
  Pairwise-insert R c x [] a h = (tt, tt)
  Pairwise-insert R c x (y ∷ ys) (r, a) (b, h) = elim (Bool-cases (less y x)) [
    | inl t ↦ rw t (All-insert (R y) x ys (c x y r) b, Pairwise-insert R c x ys a h)
    | inr f ↦ rw f ((r, a), (b, h))
  ]

  -- What holds of every two elements, in either order, holds of every two of the sorted slice.
  pub Pairwise-sort_stable {κ} :
      (R : A → A → Type κ)
      → ((x y : A) → R x y → R y x)
      → (xs : List A) → Pairwise R xs
      → Pairwise R (sort_stable less xs)
  unfolding sort_stable
  Pairwise-sort_stable R c [] h = tt
  Pairwise-sort_stable R c (x ∷ xs) (a, h) =
      Pairwise-insert R c x (sort_stable less xs) (All-sort_stable (R x) xs a)
        (Pairwise-sort_stable R c xs h)

  -- Where the order puts what passes the test first, so does the sort, whatever else the order does.
  module _ (p : A → Bool) (up : (x y : A) → less y x ≡ true → p x ≡ true → p y ≡ true)
      (down : (x y : A) → less y x ≡ false → p y ≡ true → p x ≡ true) where
    abbrev pub Leads : A → A → Type 0
    Leads x y = p y ≡ true → p x ≡ true

    Leads-insert : (x : A) (ys : List A) → Pairwise Leads ys → Pairwise Leads (insert less x ys)
    unfolding insert
    Leads-insert x [] h = (tt, tt)
    Leads-insert x (y ∷ ys) (a, h) = elim (Bool-cases (less y x)) [
      | inl t ↦ rw t (All-insert (Leads y) x ys (up x y t) a, Leads-insert x ys h)
      | inr f ↦
          rw f ((down x y f, All-map (Leads y) (Leads x) (λ z k q. down x y f (k q)) ys a), (a, h))
    ]

    pub Leads-sort_stable : (xs : List A) → Pairwise Leads (sort_stable less xs)
    unfolding sort_stable
    Leads-sort_stable [] = tt
    Leads-sort_stable (x ∷ xs) = Leads-insert x (sort_stable less xs) (Leads-sort_stable xs)

  insert-perm : (x : A) (ys : List A) → Perm (insert less x ys) (x ∷ ys)
  unfolding insert
  insert-perm x [] = Perm.refl (x ∷ [])
  insert-perm x (y ∷ ys) = elim (Bool-cases (less y x)) [
    | inl t ↦ rw t (Perm.trans (Perm.cons y (insert-perm x ys)) (Perm.swap x y ys))
    | inr f ↦ rw f (Perm.refl (x ∷ y ∷ ys))
  ]

  -- The sorted slice holds the same elements.
  pub sort_stable-perm : (xs : List A) → Perm (sort_stable less xs) xs
  unfolding sort_stable
  sort_stable-perm [] = Perm.refl []
  sort_stable-perm (x ∷ xs) =
      Perm.trans (insert-perm x (sort_stable less xs)) (Perm.cons x (sort_stable-perm xs))

  any-insert : (p : A → Bool) (x : A) (ys : List A) → any p (insert less x ys) ≡ any p (x ∷ ys)
  unfolding insert
  any-insert p x [] = refl
  any-insert p x (y ∷ ys) = ground (arith, any-insert p x ys)

  -- What occurs in the slice occurs in the sorted one.
  pub any-sort_stable : (p : A → Bool) (xs : List A) → any p (sort_stable less xs) ≡ any p xs
  unfolding sort_stable
  any-sort_stable p [] = refl
  any-sort_stable p (x ∷ xs) =
      any-insert p x (sort_stable less xs) ∙ ap (λ b. p x || b) (any-sort_stable p xs)

  insert-filter_out :
      (p : A → Bool) (x : A) (ys : List A) → p x ≡ false → filter p (insert less x ys) ≡ filter p ys
  unfolding insert
  insert-filter_out p x [] h = rw h
  insert-filter_out p x (y ∷ ys) h = ground (arith, insert-filter_out p x ys h)

  insert-filter_in :
      (p : A → Bool) (x : A) (ys : List A)
      → p x ≡ true
      → ((y : A) → p y ≡ true → less y x ≡ false)
      → filter p (insert less x ys) ≡ x ∷ filter p ys
  unfolding insert
  insert-filter_in p x [] h k = rw h
  insert-filter_in p x (y ∷ ys) h k = ground (arith, insert-filter_in p x ys h k, k y)

  -- Elements that the order does not tell apart keep their order: for each class p of such.
  pub sort_stable-filter :
      (p : A → Bool)
      → ((x y : A) → p x ≡ true → p y ≡ true → less y x ≡ false)
      → (xs : List A) → filter p (sort_stable less xs) ≡ filter p xs
  unfolding sort_stable
  sort_stable-filter p k [] = refl
  sort_stable-filter p k (x ∷ xs) = elim (Bool-cases (p x)) [
    | inl t ↦
        rw (t, ← sort_stable-filter p k xs)
          (insert-filter_in p x (sort_stable less xs) t (λ y q. k x y t q))
    | inr f ↦ rw f (insert-filter_out p x (sort_stable less xs) f ∙ sort_stable-filter p k xs)
  ]

  module _ (o : IsStrictWeak less) where
    insert-IsSorted : (x : A) (ys : List A) → IsSorted less ys → IsSorted less (insert less x ys)
    unfolding insert
    insert-IsSorted x [] h = (tt, tt)
    insert-IsSorted x (y ∷ ys) (b, s) = elim (Bool-cases (less y x)) [
      | inl t ↦
          rw t (All-insert (λ z. less z y ≡ false) x ys (o.asymm y x t) b, insert-IsSorted x ys s)
      | inr f ↦ rw f ((f, All-map _ _ (λ z h. o.le_trans x y z f h) ys b), (b, s))
    ]

    -- The sorted slice is in order.
    pub sort_stable-IsSorted : (xs : List A) → IsSorted less (sort_stable less xs)
    unfolding sort_stable
    sort_stable-IsSorted [] = tt
    sort_stable-IsSorted (x ∷ xs) =
        insert-IsSorted x (sort_stable less xs) (sort_stable-IsSorted xs)
