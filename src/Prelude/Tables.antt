-- ===== src/Prelude/Tables.antt =====
-- A database table as the list of its rows, and the statements that the program runs on one:
-- SELECT .. WHERE, COUNT, UPDATE .. WHERE, DELETE .. WHERE and ORDER BY on a numeric key.
use mathlib.Core.Logic.{◌⊎◌, inl, inr, ◌≢◌}
use Prim.Native.Nat.{◌≤◌, ℕ, suc, ◌+◌}
use mathlib.Core.Path.{◌≡◌, refl, ap, sym, subst}
use mathlib.Core.Bool.{Bool, true, false, ◌||◌}
use mathlib.Core.List.{List, [], ◌∷◌}
use mathlib.Core.Option.{Option, none, some}
use native.Mathlib.Omega.{arith}
use murlog.Prelude.Tests.{leb, if◌then◌else◌, Bool-cases}
use murlog.Prelude.Lists.{All, length}

module _ {ℓ} {A : Type ℓ} where
  -- SELECT * FROM rows WHERE p
  abbrev pub select : (A → Bool) → List A → List A
  select p [] = []
  select p (r ∷ rs) = let rest = select p rs in if p r then r ∷ rest else rest

  -- SELECT COUNT(*) FROM rows WHERE p
  abbrev pub count_where : (A → Bool) → List A → ℕ
  count_where p [] = 0
  count_where p (r ∷ rs) = let n = count_where p rs in if p r then suc n else n

  -- the first row with p, or sql.ErrNoRows
  abbrev pub find_row : (A → Bool) → List A → Option A
  find_row p [] = none
  find_row p (r ∷ rs) = let rest = find_row p rs in if p r then some r else rest

  -- UPDATE rows SET f WHERE p
  abbrev pub update_where : (A → Bool) → (A → A) → List A → List A
  update_where p f [] = []
  update_where p f (r ∷ rs) = (if p r then f r else r) ∷ update_where p f rs

  -- DELETE FROM rows WHERE p
  abbrev pub delete_where : (A → Bool) → List A → List A
  delete_where p [] = []
  delete_where p (r ∷ rs) = let rest = delete_where p rs in if p r then rest else r ∷ rest

  abbrev pub any_row : (A → Bool) → List A → Bool
  any_row p [] = false
  any_row p (r ∷ rs) = p r || any_row p rs

  -- ORDER BY key ASC
  abbrev pub insert_by : (A → ℕ) → A → List A → List A
  insert_by key r [] = r ∷ []
  insert_by key r (x ∷ xs) =
      let rest = insert_by key r xs in if leb (key r) (key x) then r ∷ x ∷ xs else x ∷ rest

  abbrev pub order_by : (A → ℕ) → List A → List A
  order_by key [] = []
  order_by key (r ∷ rs) = insert_by key r (order_by key rs)

  pub length-update_where :
      (p : A → Bool) (f : A → A) (rs : List A) → length (update_where p f rs) ≡ length rs
  length-update_where p f [] = refl
  length-update_where p f (r ∷ rs) = ap suc (length-update_where p f rs)

  pub count_where-length-select :
      (p : A → Bool) (rs : List A) → count_where p rs ≡ length (select p rs)
  count_where-length-select p [] = refl
  count_where-length-select p (r ∷ rs) = ground (arith, count_where-length-select p rs)

  pub length-delete_where :
      (p : A → Bool) (rs : List A) → length (delete_where p rs) + count_where p rs ≡ length rs
  length-delete_where p [] = omega arith
  length-delete_where p (r ∷ rs) = ground (arith, length-delete_where p rs)

  -- a DELETE leaves no row that its condition holds of
  pub delete_where-none : (p : A → Bool) (rs : List A) → All (λ r. p r ≡ false) (delete_where p rs)
  delete_where-none p [] = tt
  delete_where-none p (r ∷ rs) = ground (arith, delete_where-none p rs)

  pub find_row-none : (p : A → Bool) (rs : List A) → find_row p rs ≡ none → count_where p rs ≡ 0
  find_row-none p [] h = refl
  find_row-none p (r ∷ rs) h = ground (arith, find_row-none p rs)

  pub find_row-some : (p : A → Bool) (rs : List A) (r : A) → find_row p rs ≡ some r → p r ≡ true
  find_row-some p [] r h = cc
  find_row-some p (x ∷ rs) r h = ground (arith, find_row-some p rs r)

  -- a DELETE of rows that are not counted leaves the count
  pub count_where-delete_where :
      (p q : A → Bool) (rs : List A)
      → All (λ r. p r ≡ true → q r ≡ false) rs
      → count_where q (delete_where p rs) ≡ count_where q rs
  count_where-delete_where p q [] all = refl
  count_where-delete_where p q (r ∷ rs) all =
      ground (arith, all.0, count_where-delete_where p q rs all.1)

  pub count_where-none :
      (p : A → Bool) (rs : List A) → All (λ r. p r ≡ false) rs → count_where p rs ≡ 0
  count_where-none p [] all = refl
  count_where-none p (r ∷ rs) all = ground (arith, all.0, count_where-none p rs all.1)

  pub count_where-delete_le :
      (p q : A → Bool) (rs : List A) → count_where q (delete_where p rs) ≤ count_where q rs
  count_where-delete_le p q [] = omega arith
  count_where-delete_le p q (r ∷ rs) = ground (arith, count_where-delete_le p q rs)

  -- a DELETE of a counted row lowers the count
  pub count_where-delete_found :
      (p q : A → Bool) (rs : List A) (a : A)
      → find_row q rs ≡ some a
      → p a ≡ true
      → suc (count_where q (delete_where p rs)) ≤ count_where q rs
  count_where-delete_found p q [] a h pa = cc
  count_where-delete_found p q (r ∷ rs) a h pa =
      ground (arith, count_where-delete_le p q rs, count_where-delete_found p q rs a)

  -- a DELETE or UPDATE of rows that are not selected leaves the selection
  pub select-delete_where :
      (p q : A → Bool) (rs : List A)
      → All (λ r. p r ≡ true → q r ≡ false) rs
      → select q (delete_where p rs) ≡ select q rs
  select-delete_where p q [] all = refl
  select-delete_where p q (r ∷ rs) all = ground (arith, all.0, select-delete_where p q rs all.1)

  pub select-update_where :
      (p q : A → Bool) (f : A → A)
      → ((r : A) → q (f r) ≡ q r)
      → (rs : List A) → All (λ r. p r ≡ true → q r ≡ false) rs
      → select q (update_where p f rs) ≡ select q rs
  select-update_where p q f keep [] all = refl
  select-update_where p q f keep (r ∷ rs) all =
      ground (arith, all.0, keep r, select-update_where p q f keep rs all.1)

  pub All-delete_where {κ} :
      (P : A → Type κ) (p : A → Bool) (rs : List A) → All P rs → All P (delete_where p rs)
  All-delete_where P p [] all = tt
  All-delete_where P p (r ∷ rs) all = elim (Bool-cases (p r)) [
    | inl e ↦ rw e (All-delete_where P p rs all.1)
    | inr e ↦ rw e (all.0, All-delete_where P p rs all.1)
  ]

  pub All-update_where {κ} :
      (P : A → Type κ) (p : A → Bool) (f : A → A)
      → ((r : A) → P r → P (f r))
      → (rs : List A) → All P rs
      → All P (update_where p f rs)
  All-update_where P p f keep [] all = tt
  All-update_where P p f keep (r ∷ rs) all = elim (Bool-cases (p r)) [
    | inl e ↦ rw e (keep r all.0, All-update_where P p f keep rs all.1)
    | inr e ↦ rw e (all.0, All-update_where P p f keep rs all.1)
  ]

  pub count_where-update_where :
      (p q : A → Bool) (f : A → A) (rs : List A)
      → All (λ r. p r ≡ true → q (f r) ≡ q r) rs
      → count_where q (update_where p f rs) ≡ count_where q rs
  count_where-update_where p q f [] all = refl
  count_where-update_where p q f (r ∷ rs) all =
      ground (arith, all.0, count_where-update_where p q f rs all.1)

-- Membership of a row, as a sum that the tactics take apart.
module _ {A : Type 0} where
  abbrev pub In : A → List A → Type 0
  In a [] = ⊥
  In a (r ∷ rs) = (a ≡ r) ⊎ In a rs

  pub find_row-In : (p : A → Bool) (rs : List A) (a : A) → find_row p rs ≡ some a → In a rs
  find_row-In p [] a h = cc
  find_row-In p (r ∷ rs) a h = ground (arith, find_row-In p rs a)

  pub In-select : (p : A → Bool) (a : A) (rs : List A) → In a (select p rs) → In a rs × (p a ≡ true)
  In-select p a [] h = absurd h
  In-select p a (r ∷ rs) h = ground (arith, In-select p a rs)

  pub All-In {κ} : (P : A → Type κ) (a : A) (rs : List A) → All P rs → In a rs → P a
  All-In P a [] all h = absurd h
  All-In P a (r ∷ rs) all (inl e) = rw e all.0
  All-In P a (r ∷ rs) all (inr h) = All-In P a rs all.1 h

  pub All-from_In {κ} : (P : A → Type κ) (rs : List A) → ((a : A) → In a rs → P a) → All P rs
  All-from_In P [] f = tt
  All-from_In P (r ∷ rs) f = (f r (inl refl), All-from_In P rs (λ a m. f a (inr m)))

  pub All-select :
      (P : A → Type 0) (p : A → Bool) (rs : List A)
      → All P (select p rs)
      → All (λ r. p r ≡ true → P r) rs
  All-select P p [] all = tt
  All-select P p (r ∷ rs) all = elim (Bool-cases (p r)) [
    | inl e ↦
        let all' : All P (r ∷ select p rs) = rw e at all in
        ((λ _. all'.0), All-select P p rs all'.1)
    | inr e ↦ let all' : All P (select p rs) = rw e at all in ((λ e'. cc), All-select P p rs all')
  ]

  All-le_trans :
      (key : A → ℕ) (a b : A) (rs : List A)
      → key a ≤ key b
      → All (λ x. key b ≤ key x) rs
      → All (λ x. key a ≤ key x) rs
  All-le_trans key a b [] h all = tt
  All-le_trans key a b (r ∷ rs) h all = (omega arith, All-le_trans key a b rs h all.1)

  insert_by-ne-nil : (key : A → ℕ) (x : A) (xs : List A) → insert_by key x xs ≢ []
  insert_by-ne-nil key x [] = λ e. cc
  insert_by-ne-nil key x (y ∷ ys) = ground arith

  pub order_by-nil : (key : A → ℕ) (xs : List A) → order_by key xs ≡ [] → xs ≡ []
  order_by-nil key [] h = refl
  order_by-nil key (x ∷ xs) h = absurd (insert_by-ne-nil key x (order_by key xs) h)

  insert_by-head :
      (key : A → ℕ) (x y : A) (ys : List A) (r : A) (rest : List A)
      → insert_by key x (y ∷ ys) ≡ r ∷ rest
      → ((r ≡ x) × (key x ≤ key y)) ⊎ ((r ≡ y) × (key y ≤ key x))
  insert_by-head key x y ys r rest h = ground arith

  -- the first row of a sorted table is a row of the table with the least key
  pub order_by-head :
      (key : A → ℕ) (xs : List A) (r : A) (rest : List A)
      → order_by key xs ≡ r ∷ rest
      → In r xs × All (λ x. key r ≤ key x) xs
  order_by-head key [] r rest h = cc
  order_by-head key (x ∷ xs) r rest h = go (order_by key xs) refl (order_by-head key xs)
    where
      from_cases :
          (y : A)
          → In y xs × All (λ z. key y ≤ key z) xs
          → ((r ≡ x) × (key x ≤ key y)) ⊎ ((r ≡ y) × (key y ≤ key x))
          → In r (x ∷ xs) × All (λ z. key r ≤ key z) (x ∷ xs)
      from_cases y ih (inl (e, le)) =
          subst (λ z. In z (x ∷ xs) × All (λ w. key z ≤ key w) (x ∷ xs)) (sym e)
            (inl refl, (omega arith, All-le_trans key x y xs le ih.1))
      from_cases y ih (inr (e, le)) =
          subst (λ z. In z (x ∷ xs) × All (λ w. key z ≤ key w) (x ∷ xs)) (sym e)
            (inr ih.0, (le, ih.1))

      go :
          (ys : List A)
          → order_by key xs ≡ ys
          → ((y : A) (ys' : List A)
              → order_by key xs ≡ y ∷ ys'
              → In y xs × All (λ z. key y ≤ key z) xs)
          → In r (x ∷ xs) × All (λ y. key r ≤ key y) (x ∷ xs)
      go [] e ih =
          let only : x ∷ [] ≡ r ∷ rest = rw e at h in
          let same : r ≡ x = cc in
          subst (λ zs. In r (x ∷ zs) × All (λ w. key r ≤ key w) (x ∷ zs))
            (sym (order_by-nil key xs e)) (inl same, (omega (arith, ap key same), tt))
      go (y ∷ ys) e ih =
          let sorted : insert_by key x (y ∷ ys) ≡ r ∷ rest = rw e at h in
          from_cases y (ih y ys e) (insert_by-head key x y ys r rest sorted)
