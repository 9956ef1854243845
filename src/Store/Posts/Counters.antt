-- ===== src/Store/Posts/Counters.antt =====
-- store/sqlite/post.go: the table of posts and the cached numbers under each operation.
use murlog.Prelude.{
  Option, none, some, ◌&&◌, Bool, All-intro, ◌∷◌, [], List, ℕ, true, false, ◌==◌, ==_iff, ◌≡◌, ◌≢◌,
  sym, ◌∙◌, inl, inr, refl, Bool-cases, arith, All, All-mono,
}
use murlog.Prelude.Tables.{
  any_row, In, update_where, delete_where, count_where-delete_where, count_where-update_where,
}
use murlog.Prelude.Keys.{All-find_row, IdsUnique, delete_key-none}
use murlog.Domain.Social.{Post, Persona}
use murlog.Store.{Store}
use murlog.Store.Posts.{
  is_referred, stored_post, Texts, create_post, insert_post, refused_post, count_if_local, is_local,
  sync_post_tags, count_local, delete_post, count_owner, drop_post, get_post, has_post_id,
  update_post, updated,
}

abbrev pub post_id : Post → ℕ
post_id p = p.id

-- every persona's cached number is that of its local posts
abbrev pub PostsCounted : List Post → List Persona → Type 0
PostsCounted posts = All (λ p. p.post_count ≡ count_local p.id posts)

-- the table behind a CreatePost that is not refused
pub create_post-posts :
    (texts : Texts) (p : Post) (s s' : Store)
    → create_post texts p s ≡ some s'
    → s'.posts ≡ stored_post p ∷ s.posts
unfolding create_post insert_post count_if_local sync_post_tags
create_post-posts texts p s s' h = elim (Bool-cases (refused_post p s)) [
  | inl e ↦ ground arith
  | inr e ↦ ground arith
]

pub create_post-In :
    (texts : Texts) (p : Post) (s s' : Store)
    → create_post texts p s ≡ some s'
    → In (stored_post p) s'.posts
create_post-In texts p s s' h = rw (create_post-posts texts p s s' h) (inl refl)

-- A change of the posts that moves only one persona's number is mended by refreshing that one.
pub refresh-PostsCounted :
    (persona : ℕ) (old new : List Post)
    → ((k : ℕ) → k ≢ persona → count_local k new ≡ count_local k old)
    → (ps : List Persona) → PostsCounted old ps
    → PostsCounted new (
        update_where
          (λ p. p.id == persona)
          (λ p. record p { post_count = count_local persona new })
          ps)
refresh-PostsCounted persona old new same [] c = tt
refresh-PostsCounted persona old new same (p ∷ ps) c = elim (Bool-cases (p.id == persona)) [
  | inl e ↦
      let at : p.id ≡ persona = (==_iff p.id persona).0 e in
      rw e (rw at refl, refresh-PostsCounted persona old new same ps c.1)
  | inr e ↦
      let away : p.id ≢ persona = λ h. ground arith in
      rw e (c.0 ∙ sym (same p.id away), refresh-PostsCounted persona old new same ps c.1)
]

-- a change of the posts that moves no number
pub same-PostsCounted :
    (old new : List Post)
    → ((k : ℕ) → count_local k new ≡ count_local k old)
    → (ps : List Persona) → PostsCounted old ps
    → PostsCounted new ps
same-PostsCounted old new same [] c = tt
same-PostsCounted old new same (p ∷ ps) c =
    (c.0 ∙ sym (same p.id), same-PostsCounted old new same ps c.1)

-- the refresh that an insertion or a removal of the post `p` ends with
count_if_local-PostsCounted :
    (p : Post) (old : List Post) (s : Store)
    → ((k : ℕ) → k ≢ p.persona_id → count_local k s.posts ≡ count_local k old)
    → (is_local p ≡ false → (k : ℕ) → count_local k s.posts ≡ count_local k old)
    → PostsCounted old s.personas
    → PostsCounted (count_if_local p s).posts (count_if_local p s).personas
unfolding count_if_local
count_if_local-PostsCounted p old s moved still c = elim (Bool-cases (is_local p)) [
  | inl e ↦ rw e (refresh-PostsCounted p.persona_id old s.posts moved s.personas c)
  | inr e ↦ rw e (same-PostsCounted old s.posts (still e) s.personas c)
]

pub create_post-PostsCounted :
    (texts : Texts) (p : Post) (s s' : Store)
    → create_post texts p s ≡ some s'
    → PostsCounted s.posts s.personas
    → PostsCounted s'.posts s'.personas
unfolding create_post insert_post sync_post_tags
create_post-PostsCounted texts p s s' h c = elim (Bool-cases (refused_post p s)) [
  | inl e ↦ let clash : none ≡ some s' = ground arith in cc
  | inr e ↦
      let inserted = sync_post_tags texts p (record s { posts = stored_post p ∷ s.posts }) in
      let result : count_if_local p inserted ≡ s' = ground arith in
      rw (← result) (
        count_if_local-PostsCounted p s.posts inserted (λ k ne. ground arith) (λ e' k. ground arith)
          c)
]

pub update_post-PostsCounted :
    (texts : Texts) (p : Post) (s : Store)
    → PostsCounted s.posts s.personas
    → PostsCounted (update_post texts p s).posts (update_post texts p s).personas
unfolding update_post sync_post_tags
update_post-PostsCounted texts p s c =
    same-PostsCounted s.posts _
      (λ k.
        count_where-update_where (has_post_id p.id) _ (updated p) s.posts
          (All-intro _ (λ r e. refl) s.posts))
      s.personas c

pub other_persona : (a k : ℕ) (b : Bool) → k ≢ a → (a == k && b) ≡ false
other_persona a k b ne = ground arith

-- the number of a persona that no row with this id belongs to
pub count_local-delete :
    (id k : ℕ) (posts : List Post)
    → All (λ r. has_post_id id r ≡ true → (r.persona_id == k && is_local r) ≡ false) posts
    → count_local k (delete_where (has_post_id id) posts) ≡ count_local k posts
count_local-delete id k posts all =
    count_where-delete_where (has_post_id id) (λ r. r.persona_id == k && is_local r) posts all

pub delete_post-PostsCounted :
    (id : ℕ) (s s' : Store)
    → delete_post id s ≡ some s'
    → IdsUnique post_id s.posts
    → PostsCounted s.posts s.personas
    → PostsCounted s'.posts s'.personas
unfolding delete_post
delete_post-PostsCounted id s s' h u c =
    elim (Bool-cases (any_row (has_post_id id) s.posts && is_referred id s)) [
      | inl e ↦ let clash : none ≡ some s' = ground arith in cc
      | inr e ↦
          let result : count_owner (get_post id s) (drop_post id s) ≡ s' = ground arith in
          rw (← result) (go (get_post id s) refl)
    ]
  where
    go :
        (o : Option Post)
        → get_post id s ≡ o
        → PostsCounted
            (count_owner o (drop_post id s)).posts
            (count_owner o (drop_post id s)).personas
    go none e = rw (delete_key-none post_id id s.posts e) c
    go (some p) e =
        let rows = All-find_row post_id (λ r. r ≡ p) id p s.posts u e refl in
        count_if_local-PostsCounted p s.posts (drop_post id s)
          (λ k ne. count_local-delete id k s.posts (
            All-mono (λ r same m. rw (same m) (other_persona p.persona_id k (is_local p) ne))
              s.posts rows))
          (λ e' k.
            count_local-delete id k s.posts
              (All-mono (λ r same m. rw (same m) (ground (arith, e'))) s.posts rows))
          c
