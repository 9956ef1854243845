-- ===== src/Prelude/Paging.antt =====
-- A table with a numeric primary key that is read in the order of the key, a page at a time: each
-- page starts behind the last key of the page before (keyset pagination).
use Prim.Native.Nat.{ℕ, zero, suc, ◌<◌, ◌≤◌}
use mathlib.Core.Path.{ap, sym, ◌∙◌, subst, ◌≡◌, refl}
use mathlib.Core.Logic.{◌≢◌}
use mathlib.Core.Bool.{◌||◌, Bool, true, false}
use mathlib.Core.List.{List, [], ◌∷◌}
use native.Mathlib.Omega.{arith}
use murlog.Prelude.Tests.{◌==◌, ltb, if◌then◌else◌}
use murlog.Prelude.Lists.{All, All-mono, take, drop, length}
use murlog.Prelude.Tables.{any_row, select, insert_by, order_by}
use murlog.Prelude.Keys.{IdsUnique}

module _ {A : Type 0} where
  pub select-select :
      (p q : A → Bool) (xs : List A)
      → ((x : A) → p x ≡ true → q x ≡ true)
      → select p (select q xs) ≡ select p xs
  select-select p q [] h = refl
  select-select p q (x ∷ xs) h = ground (arith, h x, select-select p q xs h)

  pub select-ext :
      (p q : A → Bool) (xs : List A) → ((x : A) → p x ≡ q x) → select p xs ≡ select q xs
  select-ext p q [] h = refl
  select-ext p q (x ∷ xs) h = ground (arith, h x, select-ext p q xs h)

  pub length-select : (p : A → Bool) (xs : List A) → length (select p xs) ≤ length xs
  length-select p [] = omega arith
  length-select p (x ∷ xs) = ground (arith, length-select p xs)

module _ {A : Type 0} (key : A → ℕ) where
  abbrev pub Ascending : List A → Type 0
  Ascending [] = Unit {0}
  Ascending (x ∷ xs) = All (λ y. key x < key y) xs × Ascending xs

  -- the key of the last row of a page, or `c` where it is empty
  abbrev pub last_key : ℕ → List A → ℕ
  last_key c [] = c
  last_key c (x ∷ xs) = last_key (key x) xs

  any_row-select :
      (p : A → Bool) (k : ℕ) (xs : List A)
      → any_row (λ x. key x == k) xs ≡ false
      → any_row (λ x. key x == k) (select p xs) ≡ false
  any_row-select p k [] h = refl
  any_row-select p k (x ∷ xs) h = ground (arith, any_row-select p k xs)

  pub select-IdsUnique :
      (p : A → Bool) (xs : List A) → IdsUnique key xs → IdsUnique key (select p xs)
  select-IdsUnique p [] u = tt
  select-IdsUnique p (x ∷ xs) u =
      ground (arith, any_row-select p (key x) xs u.0, select-IdsUnique p xs u.1)

  insert_by-All :
      (P : A → Type 0) (x : A) (xs : List A) → P x → All P xs → All P (insert_by key x xs)
  insert_by-All P x [] px h = (px, tt)
  insert_by-All P x (y ∷ ys) px h = ground (arith, insert_by-All P x ys px h.1)

  order_by-All : (P : A → Type 0) (xs : List A) → All P xs → All P (order_by key xs)
  order_by-All P [] h = tt
  order_by-All P (x ∷ xs) h = insert_by-All P x (order_by key xs) h.0 (order_by-All P xs h.1)

  insert_by-Ascending :
      (x : A) (xs : List A)
      → Ascending xs
      → All (λ y. key x ≢ key y) xs
      → Ascending (insert_by key x xs)
  insert_by-Ascending x [] s h = (tt, tt)
  insert_by-Ascending x (y ∷ ys) s h =
      let above : key x < key y → All (λ z. key x < key z) ys =
        λ lt. All-mono (λ z (k : key y < key z). omega arith) ys s.0 in
      let below : key y < key x → All (λ z. key y < key z) (insert_by key x ys) =
        λ lt. insert_by-All (λ z. key y < key z) x ys lt s.0 in
      ground (arith, h.0, above, below, insert_by-Ascending x ys s.1 h.1)

  away : (k : ℕ) (xs : List A) → any_row (λ x. key x == k) xs ≡ false → All (λ y. k ≢ key y) xs
  away k [] h = tt
  away k (x ∷ xs) h = ground (arith, away k xs)

  pub order_by-Ascending : (xs : List A) → IdsUnique key xs → Ascending (order_by key xs)
  order_by-Ascending [] u = tt
  order_by-Ascending (x ∷ xs) u =
      insert_by-Ascending x (order_by key xs) (order_by-Ascending xs u.1)
        (order_by-All (λ y. key x ≢ key y) xs (away (key x) xs u.0))

  select-everything : (p : A → Bool) (xs : List A) → All (λ y. p y ≡ true) xs → select p xs ≡ xs
  select-everything p [] h = refl
  select-everything p (x ∷ xs) h = ground (arith, h.0, select-everything p xs h.1)

  last_key_le :
      (n c : ℕ) (xs : List A) → Ascending xs → All (λ x. c < key x) xs → c ≤ last_key c (take n xs)
  last_key_le zero c xs s h = omega arith
  last_key_le (suc n) c [] s h = omega arith
  last_key_le (suc n) c (x ∷ xs) s h = omega (arith, h.0, last_key_le n (key x) xs s.1 s.0)

  -- a page and what lies behind it
  pub select-behind :
      (n c : ℕ) (xs : List A)
      → Ascending xs
      → All (λ x. c < key x) xs
      → select (λ x. ltb (last_key c (take n xs)) (key x)) xs ≡ drop n xs
  select-behind zero c xs s h = select-everything _ xs (All-mono (λ x e. ground arith) xs h)
  select-behind (suc n) c [] s h = refl
  select-behind (suc n) c (x ∷ xs) s h =
      ground (arith, select-behind n (key x) xs s.1 s.0, last_key_le n (key x) xs s.1 s.0)

  select-All : (P : A → Type 0) (p : A → Bool) (xs : List A) → All P xs → All P (select p xs)
  select-All P p [] h = tt
  select-All P p (x ∷ xs) h = ground (arith, select-All P p xs h.1)

  pub select-Ascending : (p : A → Bool) (xs : List A) → Ascending xs → Ascending (select p xs)
  select-Ascending p [] s = tt
  select-Ascending p (x ∷ xs) s =
      ground (arith, select-All (λ y. key x < key y) p xs s.0, select-Ascending p xs s.1)

  select-holds : (p : A → Bool) (xs : List A) → All (λ y. p y ≡ true) (select p xs)
  select-holds p [] = tt
  select-holds p (x ∷ xs) = ground (arith, select-holds p xs)

  -- a row whose key lies below all the others comes first
  insert_by-first :
      (x : A) (xs : List A) → All (λ y. key x < key y) xs → insert_by key x xs ≡ x ∷ xs
  insert_by-first x [] h = refl
  insert_by-first x (y ∷ ys) h = ground (arith, h.0)

  select-insert_by :
      (p : A → Bool) (x : A) (xs : List A)
      → Ascending xs
      → All (λ y. key x ≢ key y) xs
      → select p (insert_by key x xs) ≡ (if p x then insert_by key x (select p xs) else select p xs)
  select-insert_by p x [] s h = refl
  select-insert_by p x (y ∷ ys) s h =
      let first : key x < key y → insert_by key x (select p ys) ≡ x ∷ select p ys = λ lt.
        insert_by-first x (select p ys) (
          select-All (λ z. key x < key z) p ys
            (All-mono (λ z (k : key y < key z). omega arith) ys s.0)) in
      ground (arith, h.0, first, select-insert_by p x ys s.1 h.1)

  -- WHERE and ORDER BY commute
  pub select-order_by :
      (p : A → Bool) (xs : List A)
      → IdsUnique key xs
      → select p (order_by key xs) ≡ order_by key (select p xs)
  select-order_by p [] u = refl
  select-order_by p (x ∷ xs) u = ground (
    arith,
    select-insert_by p x (order_by key xs) (order_by-Ascending xs u.1)
        (order_by-All (λ y. key x ≢ key y) xs (away (key x) xs u.0)),
    select-order_by p xs u.1,
  )

  pub length-insert_by : (x : A) (xs : List A) → length (insert_by key x xs) ≡ suc (length xs)
  length-insert_by x [] = refl
  length-insert_by x (y ∷ ys) = ground (arith, length-insert_by x ys)

  pub length-order_by : (xs : List A) → length (order_by key xs) ≡ length xs
  length-order_by [] = refl
  length-order_by (x ∷ xs) = omega (arith, length-insert_by x (order_by key xs), length-order_by xs)

  -- the condition of a page on the key, with 0 for no cursor
  abbrev pub beyond : ℕ → A → Bool
  beyond c x = c == 0 || ltb c (key x)

  -- where the rows behind a cursor fill a page, those behind the page's last key are the rest
  pub next_page :
      (n c : ℕ) (all rest : List A)
      → Ascending all
      → select (beyond c) all ≡ rest
      → suc (suc n) ≤ length rest
      → select (beyond (last_key 0 (take (suc (suc n)) rest))) all ≡ drop (suc (suc n)) rest
  next_page n c all [] s h long = absurd (omega arith)
  next_page n c all (x ∷ []) s h long = absurd (omega arith)
  next_page n c all (x ∷ y ∷ rest) s h long =
      let sorted : Ascending (x ∷ y ∷ rest) =
        subst Ascending h (select-Ascending (beyond c) all s) in
      let held : All (λ z. beyond c z ≡ true) (x ∷ y ∷ rest) =
        subst (All (λ z. beyond c z ≡ true)) h (select-holds (beyond c) all) in
      let c' = last_key (key y) (take n rest) in
      let le : key y ≤ c' = last_key_le n (key y) rest sorted.1.1 sorted.1.0 in
      let lt : key x < key y = sorted.0.0 in
      let later : (z : A) → ltb c' (key z) ≡ true → beyond c z ≡ true =
        λ z e. ground (arith, held.0) in
      select-ext (beyond c') (λ z. ltb c' (key z)) all (λ z. ground arith)
      ∙ sym (select-select (λ z. ltb c' (key z)) (beyond c) all later)
      ∙ ap (select (λ z. ltb c' (key z))) h
      ∙ ground (arith, select-behind n (key y) rest sorted.1.1 sorted.1.0)
