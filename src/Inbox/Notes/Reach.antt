-- ===== src/Inbox/Notes/Reach.antt =====
-- handler/activitypub.go: storeRemoteNote as a sequence of calls of the store.
use murlog.Prelude.{
  ℕ, zero, suc, ◌==◌, ◌∙◌, not, ◌||◌, true, ◌≡◌, refl, Option, none, some, List, [], ◌∷◌, String,
  str_eq, inl, inr, Option-cases, Bool-cases,
}
use murlog.Prelude.Tables.{In, any_row}
use murlog.Json.{Json, Fields, get, get_text, as_object, as_array}
use murlog.Domain.Social.{Persona, Post, NotificationType}
use murlog.Store.{Store}
use murlog.Store.Posts.{
  stored_post, is_remote, create_post, create_attachment, get_post_by_uri, is_local, is_remote,
}
use murlog.Store.Posts.Counters.{create_post-In}
use murlog.Worker.{World}
use murlog.Inbox.{Site, with_store}
use murlog.Inbox.Effects.{
  Effects, done, one, next, and_then, post_added, post_changed, attached, if-Effects,
  insert_new-Effects, ensure_cached-Effects,
}
use murlog.Inbox.Relations.Reach.{notify-Effects, notify-posts}
use murlog.Inbox.Notes.{
  store_remote_note, store_note, follow_up, cache_actors, attach_all, add_attachments,
  add_attachment, attachment_of, is_attachment, set_hashtags, notify_tags, notify_tag, mention_tag,
  notify_persona, local_persona, notify_reply, notify_parent, notify_mention, reply_parent,
  note_post, raw_tags, hashtags_of, max_remote_attachments,
}

-- calls of the store that leave the posts alone
Kept : World → World → Type 0
Kept w w' = Effects w.store w'.store × (w'.store.posts ≡ w.store.posts)

kept : (w : World) → Kept w w
unfolding Kept
kept w = (done, refl)

Kept-trans : (u v w : World) → Kept u v → Kept v w → Kept u w
unfolding Kept
Kept-trans u v w k l = (and_then k.0 l.0, l.1 ∙ k.1)

module _ (site : Site) (post : Post) where
  notify_mention-Kept :
      (persona : ℕ) (st : List ℕ × World) → Kept st.1 (notify_mention site post persona st).1
  unfolding Kept notify_mention
  notify_mention-Kept persona st = (
    notify-Effects site persona NotificationType.mention post.actor_uri post.id st.1,
    notify-posts site persona NotificationType.mention post.actor_uri post.id st.1,
  )

  notify_parent-Kept : (o : Option Post) (w : World) → Kept w (notify_parent site post o w).1
  unfolding notify_parent
  notify_parent-Kept none w = kept w
  notify_parent-Kept (some p) w = elim (Bool-cases (is_local p)) [
    | inl e ↦ rw e (notify_mention-Kept p.persona_id ([], w))
    | inr e ↦ rw e (kept w)
  ]

  notify_reply-Kept : (w : World) → Kept w (notify_reply site post w).1
  unfolding notify_reply
  notify_reply-Kept w = elim (Bool-cases (str_eq post.in_reply_to_uri "")) [
    | inl e ↦ rw e (kept w)
    | inr e ↦ rw e (notify_parent-Kept (reply_parent site post.in_reply_to_uri w.store) w)
  ]

  notify_persona-Kept :
      (o : Option Persona) (st : List ℕ × World) → Kept st.1 (notify_persona site post o st).1
  unfolding notify_persona
  notify_persona-Kept none st = kept st.1
  notify_persona-Kept (some p) st = elim (Bool-cases (any_row (λ n. n == p.id) st.0)) [
    | inl e ↦ rw e (kept st.1)
    | inr e ↦ rw e (notify_mention-Kept p.id st)
  ]

  mention_tag-Kept :
      (tag : Fields) (st : List ℕ × World) → Kept st.1 (mention_tag site post tag st).1
  unfolding mention_tag
  mention_tag-Kept tag st = elim (Bool-cases (str_eq (get_text "href" tag) "")) [
    | inl e ↦ rw e (kept st.1)
    | inr e ↦ rw e (notify_persona-Kept (local_persona site (get_text "href" tag) st.1.store) st)
  ]

  notify_tag-Kept :
      (o : Option Fields) (st : List ℕ × World) → Kept st.1 (notify_tag site post o st).1
  unfolding notify_tag
  notify_tag-Kept none st = kept st.1
  notify_tag-Kept (some tag) st = elim (Bool-cases (str_eq (get_text "type" tag) "Mention")) [
    | inl e ↦ rw e (mention_tag-Kept tag st)
    | inr e ↦ rw e (kept st.1)
  ]

  notify_tags-Kept :
      (ts : List Json) (st : List ℕ × World) → Kept st.1 (notify_tags site post ts st).1
  unfolding notify_tags
  notify_tags-Kept [] st = kept st.1
  notify_tags-Kept (t ∷ ts) st =
      Kept-trans _ _ _ (notify_tag-Kept (as_object t) st) (notify_tags-Kept ts _)

  add_attachment-Effects :
      (o : Option Fields) (w : World) → Effects w.store (add_attachment site post o w).store
  unfolding add_attachment
  add_attachment-Effects none w = done
  add_attachment-Effects (some att) w =
      insert_new-Effects site (λ id. create_attachment (attachment_of site post att id)) w
        (λ id s s' e. attached _ e)

  add_attachments-Effects :
      (n : ℕ) (vs : List Json) (w : World)
      → Effects w.store (add_attachments site post n vs w).store
  unfolding add_attachments
  add_attachments-Effects zero vs w = done
  add_attachments-Effects (suc n) [] w = done
  add_attachments-Effects (suc n) (v ∷ vs) w =
      elim (Bool-cases (is_attachment site (as_object v))) [
        | inl e ↦
            rw (e, add_attachments)
              (and_then (add_attachment-Effects (as_object v) w) (add_attachments-Effects n vs _))
        | inr e ↦ rw (e, add_attachments) (add_attachments-Effects (suc n) vs w)
      ]

  attach_all-Effects :
      (o : Option (List Json)) (w : World) → Effects w.store (attach_all site post o w).store
  unfolding attach_all
  attach_all-Effects none w = done
  attach_all-Effects (some vs) w = add_attachments-Effects max_remote_attachments vs w

  cache_actors-Effects : (s : Store) → Effects s (cache_actors site post s)
  unfolding cache_actors
  cache_actors-Effects s = and_then (ensure_cached-Effects site post.actor_uri s) (
      if-Effects (str_eq post.reblogged_by_uri "" || str_eq post.reblogged_by_uri post.actor_uri)
        done (ensure_cached-Effects site post.reblogged_by_uri _))

  set_hashtags-Effects :
      (tags : List String) (s : Store)
      → In (stored_post post) s.posts
      → is_remote post ≡ true
      → Effects s (set_hashtags site post tags s)
  unfolding set_hashtags
  set_hashtags-Effects [] s m h = done
  set_hashtags-Effects (t ∷ ts) s m h = one (post_changed site.texts _ (stored_post post) m h refl)

  follow_up-Effects :
      (obj : Fields) (w : World)
      → In (stored_post post) w.store.posts
      → is_remote post ≡ true
      → Effects w.store (follow_up site obj post w).store
  unfolding follow_up Kept
  follow_up-Effects obj w m h =
      let tags = raw_tags (get "tag" obj) in
      let w' = (notify_tags site post tags (notify_reply site post w)).1 in
      let k =
        Kept-trans w (notify_reply site post w).1 w' (notify_reply-Kept w)
          (notify_tags-Kept tags (notify_reply site post w)) in
      let m' : In (stored_post post) w'.store.posts = rw k.1 m in
      let hashtags = hashtags_of site.texts tags in
      let w'' = with_store (set_hashtags site post hashtags) w' in
      and_then k.0 (
        and_then (set_hashtags-Effects hashtags w'.store m' h) (
          and_then (attach_all-Effects (as_array (get "attachment" obj)) w'')
            (cache_actors-Effects _)))

  store_note-Effects :
      (obj : Fields) (w : World)
      → is_remote post ≡ true
      → Effects w.store (store_note site obj post w).store
  unfolding store_note
  store_note-Effects obj w h = elim (Option-cases (create_post site.texts post w.store)) [
    | inl e ↦ rw (e, store_note) done
    | inr (s, e) ↦
        rw (e, store_note)
          (next (post_added site.texts post h e)
            (follow_up-Effects obj _ (create_post-In site.texts post w.store s e) h))
  ]

pub store_remote_note-Effects :
    (site : Site) (persona : Persona) (obj : Fields) (actor reblogger : String) (w : World)
    → Effects w.store (store_remote_note site persona obj actor reblogger w).store
unfolding store_remote_note note_post
store_remote_note-Effects site persona obj actor reblogger w =
    let uri = get_text "id" obj in
    elim (Bool-cases (not (str_eq (get_text "type" obj) "Note") || str_eq uri "")) [
      | inl e ↦ rw e done
      | inr e ↦ elim (Option-cases (get_post_by_uri uri w.store)) [
        | inl e' ↦ rw (e, e') (store_note-Effects site _ obj w refl)
        | inr (p, e') ↦ rw (e, e') done
      ]
    ]
