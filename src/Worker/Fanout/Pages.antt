-- ===== src/Worker/Fanout/Pages.antt =====
-- store/sqlite/follow.go: a page of ListFollowersPaged as a part of the persona's whole audience.
use murlog.Prelude.{
  length, ◌≤◌, ℕ, Bool, ◌&&◌, ◌≡◌, refl, ap, ◌∙◌, sym, ◌==◌, arith, List, [], ◌∷◌, take,
}
use murlog.Prelude.Tables.{select, order_by}
use murlog.Prelude.Keys.{IdsUnique}
use murlog.Prelude.Paging.{
  length-order_by, length-select, Ascending, beyond, select-order_by, select-IdsUnique,
  order_by-Ascending,
}
use murlog.Domain.Social.{Follower}
use murlog.Worker.Fanout.{follower_id, list_followers_paged}

abbrev follows_persona : ℕ → Follower → Bool
follows_persona persona f = f.persona_id == persona && f.approved

-- the approved followers of a persona, by id
abbrev pub audience : ℕ → List Follower → List Follower
audience persona fs = order_by follower_id (select (follows_persona persona) fs)

pub audience-Ascending :
    (persona : ℕ) (fs : List Follower)
    → IdsUnique follower_id fs
    → Ascending follower_id (audience persona fs)
audience-Ascending persona fs u =
    order_by-Ascending follower_id (select (follows_persona persona) fs)
      (select-IdsUnique follower_id (follows_persona persona) fs u)

module _ {A : Type 0} (p q r : A → Bool) (split : (x : A) → r x ≡ (p x && q x)) where
  select_both : (xs : List A) → select r xs ≡ select q (select p xs)
  select_both [] = refl
  select_both (x ∷ xs) = ground (arith, split x, select_both xs)

pub list_followers_paged_lem :
    (persona cursor limit : ℕ) (fs : List Follower)
    → IdsUnique follower_id fs
    → list_followers_paged persona cursor limit fs
      ≡ take limit (select (beyond follower_id cursor) (audience persona fs))
unfolding list_followers_paged
list_followers_paged_lem persona cursor limit fs u =
    ap (λ rows. take limit (order_by follower_id rows))
      (select_both (follows_persona persona) (beyond follower_id cursor) _ (λ f. ground arith) fs)
    ∙ ap (take limit) (
        sym (
          select-order_by follower_id (beyond follower_id cursor)
            (select (follows_persona persona) fs)
            (select-IdsUnique follower_id (follows_persona persona) fs u)))

pub length-audience : (persona : ℕ) (fs : List Follower) → length (audience persona fs) ≤ length fs
length-audience persona fs = omega (
  arith,
  length-order_by follower_id (select (follows_persona persona) fs),
  length-select (follows_persona persona) fs,
)

-- the first page has no condition on the id
pub everyone :
    (persona : ℕ) (fs : List Follower)
    → select (beyond follower_id 0) (audience persona fs) ≡ audience persona fs
everyone persona fs = select-true (audience persona fs)
  where
    select-true : (gs : List Follower) → select (beyond follower_id 0) gs ≡ gs
    select-true [] = refl
    select-true (g ∷ gs) = ap (◌∷◌ g) (select-true gs)
