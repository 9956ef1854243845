-- ===== src/Prelude/Keys.antt =====
-- Tables with a primary key: uniqueness of the key, lookups by it, and what the statements keep.
use mathlib.Core.Option
use murlog.Prelude.Tables.{any_row, count_where, find_row, update_where, delete_where, In}
use murlog.Prelude.Tests.{◌==◌, if◌then◌else◌, Bool-cases, ==_iff}
use murlog.Prelude.Lists.{All}
use Prim.Native.Nat.{ℕ, suc}
use mathlib.Core.Path.{◌≡◌, refl, ap, sym, subst}
use mathlib.Core.Logic.{inl, inr}
use mathlib.Core.Bool.{Bool, true, false}
use mathlib.Core.List.{List, [], ◌∷◌}
use mathlib.Core.Option.{Option, none, some}
use native.Mathlib.Omega.{arith}

module _ {A : Type 0} (key : A → ℕ) where
  -- no two rows share a key
  abbrev pub IdsUnique : List A → Type 0
  IdsUnique [] = Unit {0}
  IdsUnique (r ∷ rs) = (any_row (λ x. key x == key r) rs ≡ false) × IdsUnique rs

  pub any_row_of_In : (a : A) (rs : List A) → In a rs → any_row (λ x. key x == key a) rs ≡ true
  any_row_of_In a [] h = absurd h
  any_row_of_In a (r ∷ rs) (inl e) = ground (arith, ap key e)
  any_row_of_In a (r ∷ rs) (inr h) = ground (arith, any_row_of_In a rs h)

  pub find_row_of_In :
      (a : A) (rs : List A) → IdsUnique rs → In a rs → find_row (λ x. key x == key a) rs ≡ some a
  find_row_of_In a [] u h = absurd h
  find_row_of_In a (r ∷ rs) u (inl e) = ground (arith, ap key e)
  find_row_of_In a (r ∷ rs) u (inr h) =
      ground (arith, find_row_of_In a rs u.1 h, any_row_of_In a rs h)

  -- the keys of a table stay when rows are updated in their other columns
  module _ (p : A → Bool) (f : A → A) (keep : (a : A) → key (f a) ≡ key a) where
    pub any_row-update_where :
        (k : ℕ) (rs : List A)
        → any_row (λ x. key x == k) (update_where p f rs) ≡ any_row (λ x. key x == k) rs
    any_row-update_where k [] = refl
    any_row-update_where k (r ∷ rs) = ground (arith, keep r, any_row-update_where k rs)

    pub update_where-IdsUnique : (rs : List A) → IdsUnique rs → IdsUnique (update_where p f rs)
    update_where-IdsUnique [] u = tt
    update_where-IdsUnique (r ∷ rs) u =
        ground (arith, keep r, any_row-update_where (key r) rs, update_where-IdsUnique rs u.1)

    -- a lookup after an UPDATE finds the same row, updated if the condition holds of it
    pub find_row-update_where :
        (k : ℕ) (rs : List A)
        → find_row (λ x. key x == k) (update_where p f rs)
          ≡ Option.map (λ x. if p x then f x else x) (find_row (λ x. key x == k) rs)
    find_row-update_where k [] = refl
    find_row-update_where k (r ∷ rs) = ground (arith, keep r, find_row-update_where k rs)

  any_row-delete_where :
      (k : ℕ) (p : A → Bool) (rs : List A)
      → any_row (λ x. key x == k) rs ≡ false
      → any_row (λ x. key x == k) (delete_where p rs) ≡ false
  any_row-delete_where k p [] h = refl
  any_row-delete_where k p (r ∷ rs) h = ground (arith, any_row-delete_where k p rs)

  pub delete_where-IdsUnique :
      (p : A → Bool) (rs : List A) → IdsUnique rs → IdsUnique (delete_where p rs)
  delete_where-IdsUnique p [] u = tt
  delete_where-IdsUnique p (r ∷ rs) u =
      ground (arith, any_row-delete_where (key r) p rs u.0, delete_where-IdsUnique p rs u.1)

  -- the lookup after an UPDATE of the row with one key
  pub find_row-update_key :
      (k id : ℕ) (f : A → A)
      → ((a : A) → key (f a) ≡ key a)
      → (rs : List A)
      → find_row (λ x. key x == k) (update_where (λ x. key x == id) f rs) ≡ (
          if k == id
          then Option.map f (find_row (λ x. key x == k) rs)
          else find_row (λ x. key x == k) rs)
  find_row-update_key k id f keep [] = ground arith
  find_row-update_key k id f keep (r ∷ rs) =
      ground (arith, keep r, find_row-update_key k id f keep rs)

  -- a DELETE or UPDATE by a key that no row has changes nothing
  pub delete_key-none :
      (k : ℕ) (rs : List A)
      → find_row (λ a. key a == k) rs ≡ none
      → delete_where (λ a. key a == k) rs ≡ rs
  delete_key-none k [] h = refl
  delete_key-none k (r ∷ rs) h = ground (arith, delete_key-none k rs)

  pub update_key-none :
      (k : ℕ) (f : A → A) (rs : List A)
      → find_row (λ a. key a == k) rs ≡ none
      → update_where (λ a. key a == k) f rs ≡ rs
  update_key-none k f [] h = refl
  update_key-none k f (r ∷ rs) h = ground (arith, update_key-none k f rs)

  absent :
      (P : A → Type 0) (k : ℕ) (rs : List A)
      → any_row (λ x. key x == k) rs ≡ false
      → All (λ a. (key a == k) ≡ true → P a) rs
  absent P k [] h = tt
  absent P k (r ∷ rs) h = ((λ e. cc (clash e)), absent P k rs (ground arith))
    where
      clash : (key r == k) ≡ true → false ≡ true
      clash e = ground arith

  -- what holds of the row with a key holds of every row with that key
  pub All-find_row :
      (P : A → Type 0) (k : ℕ) (a : A) (rs : List A)
      → IdsUnique rs
      → find_row (λ x. key x == k) rs ≡ some a
      → P a
      → All (λ x. (key x == k) ≡ true → P x) rs
  All-find_row P k a [] u h pa = tt
  All-find_row P k a (r ∷ rs) u h pa = elim (Bool-cases (key r == k)) [
    | inl e ↦
        let same : r ≡ a = ground arith in
        ((λ _. rw same pa), absent P k rs (rw ((==_iff (key r) k).0 e) at u.0))
    | inr e ↦ ((λ e'. cc), All-find_row P k a rs u.1 (ground arith) pa)
  ]

  -- what holds of one row holds of every row with its key
  pub All-key :
      (P : A → Type 0) (a : A) (rs : List A)
      → IdsUnique rs
      → In a rs
      → P a
      → All (λ x. (key x == key a) ≡ true → P x) rs
  All-key P a rs u h = All-find_row P (key a) a rs u (find_row_of_In a rs u h)

  -- an UPDATE by a key that no row has changes nothing
  pub update_absent :
      (k : ℕ) (f : A → A) (rs : List A)
      → any_row (λ x. key x == k) rs ≡ false
      → update_where (λ x. key x == k) f rs ≡ rs
  update_absent k f [] h = refl
  update_absent k f (r ∷ rs) h = ground (arith, update_absent k f rs)

  -- an UPDATE of one row that takes it out of a count lowers the count by one
  pub count_where-update_key :
      (p : A → Bool) (f : A → A) (a : A) (rs : List A)
      → IdsUnique rs
      → In a rs
      → p a ≡ true
      → p (f a) ≡ false
      → suc (count_where p (update_where (λ x. key x == key a) f rs)) ≡ count_where p rs
  count_where-update_key p f a [] u m h h' = absurd m
  count_where-update_key p f a (r ∷ rs) u (inl e) h h' =
      subst
        (λ z.
          p z ≡ true
          → p (f z) ≡ false
          → suc (count_where p (update_where (λ x. key x == key z) f (r ∷ rs)))
            ≡ count_where p (r ∷ rs))
        (sym e) (λ h h'. ground (arith, update_absent (key r) f rs u.0)) h h'
  count_where-update_key p f a (r ∷ rs) u (inr m) h h' =
      ground (arith, any_row_of_In a rs m, count_where-update_key p f a rs u.1 m h h')
