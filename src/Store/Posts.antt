-- ===== src/Store/Posts.antt =====
-- store/sqlite/post.go: posts, their hashtags and attachments, and the number of posts that a persona
-- caches. An error that a constraint raises is `none`; `uri` is NULL where it is "".
mod Tests
pub mod Counters
pub mod Invariant
pub mod Frames
pub mod Recounts
use murlog.Prelude.{
  ℕ, Bool, true, false, ◌&&◌, ◌||◌, not, ◌==◌, if◌then◌else◌, Option, none, some, List, [], ◌∷◌,
  String, str_eq,
}
use murlog.Prelude.Tables.{select, any_row, count_where, find_row, update_where, delete_where}
use murlog.Domain.Social.{Post, Attachment, local, remote, system}
use murlog.Store.{Store}

-- the JSON of a list of hashtags, and strings.ToLower
pub record Texts : Type 0 where
  pub tags_of : String → List String
  pub tags_json : List String → String
  pub lower : String → String

abbrev pub is_local : Post → Bool
is_local p = elim p.origin [ local ↦ true | remote ↦ false | system ↦ false ]

abbrev pub is_remote : Post → Bool
is_remote p = elim p.origin [ local ↦ false | remote ↦ true | system ↦ false ]

abbrev pub has_post_id : ℕ → Post → Bool
has_post_id id p = p.id == id

-- uri = ?, which no NULL is
abbrev pub has_uri : String → Post → Bool
has_uri uri p = not (str_eq p.uri "") && str_eq p.uri uri

-- GetPost
abbrev pub get_post : ℕ → Store → Option Post
get_post id s = find_row (has_post_id id) s.posts

-- GetPostByURI
abbrev pub get_post_by_uri : String → Store → Option Post
get_post_by_uri uri s = find_row (has_uri uri) s.posts

abbrev pub count_local : ℕ → List Post → ℕ
count_local persona = count_where (λ p. p.persona_id == persona && is_local p)

-- refreshPostCount
abbrev pub refresh_post_count : ℕ → Store → Store
refresh_post_count persona s = record s {
  personas =
      update_where (λ p. p.id == persona)
        (λ p. record p { post_count = count_local persona s.posts }) s.personas;
}

-- INSERT OR IGNORE INTO post_tags
add_tags : (String → String) → ℕ → List String → List (ℕ × String) → List (ℕ × String)
add_tags lower post [] rows = rows
add_tags lower post (t ∷ ts) rows =
    let tag = lower t in
    let rest = add_tags lower post ts in
    if any_row (λ r. r.0 == post && str_eq r.1 tag) rows
    then rest rows
    else rest ((post, tag) ∷ rows)

-- syncPostTags
pub sync_post_tags : Texts → Post → Store → Store
unfolding add_tags
sync_post_tags texts p s = record s {
  post_tags =
      add_tags texts.lower p.id (texts.tags_of p.hashtags_json)
        (delete_where (λ r. r.0 == p.id) s.post_tags);
}

-- what the constraints of `posts` refuse
abbrev pub refused_post : Post → Store → Bool
refused_post p s =
    any_row (has_post_id p.id) s.posts
    || any_row (has_uri p.uri) s.posts
    || not (any_row (λ a. a.id == p.persona_id) s.personas)

-- the row of a post: an empty content type takes its default, and an origin is never empty here
abbrev pub stored_post : Post → Post
stored_post p = record p {
  content_type = if str_eq p.content_type "" then "html" else p.content_type;
}

-- insertPost
pub insert_post : Texts → Post → Store → Option Store
insert_post texts p s =
    if refused_post p s
    then none
    else some (sync_post_tags texts p (record s { posts = stored_post p ∷ s.posts }))

count_if_local : Post → Store → Store
count_if_local p s = if is_local p then refresh_post_count p.persona_id s else s

-- CreatePost
pub create_post : Texts → Post → Store → Option Store
unfolding insert_post count_if_local
create_post texts p s = elim (insert_post texts p s) [
  | none ↦ none
  | some s' ↦ some (count_if_local p s')
]

-- the columns that UpdatePost sets
abbrev pub updated : Post → Post → Post
updated p q = record q {
  content = p.content;
  content_map = p.content_map;
  visibility = p.visibility;
  mentions_json = p.mentions_json;
  hashtags_json = p.hashtags_json;
  summary = p.summary;
  sensitive = p.sensitive;
  updated_at = p.updated_at;
}

-- UpdatePost
pub update_post : Texts → Post → Store → Store
update_post texts p s =
    sync_post_tags texts p
      (record s { posts = update_where (has_post_id p.id) (updated p) s.posts })

-- UpdatePostMentions
pub update_post_mentions : ℕ → ℕ → String → Store → Store
update_post_mentions now id mentions s = record s {
  posts =
      update_where (has_post_id id) (λ p. record p { mentions_json = mentions; updated_at = now })
        s.posts;
}

-- a row of `favourites` or `reblogs` refers to the post, which keeps it from being deleted
abbrev pub is_referred : ℕ → Store → Bool
is_referred id s =
    any_row (λ r. r.post_id == id) s.favourites || any_row (λ r. r.post_id == id) s.reblogs

-- the rows of the other tables that go with a post (ON DELETE CASCADE)
abbrev pub drop_post : ℕ → Store → Store
drop_post id s = record s {
  posts = delete_where (has_post_id id) s.posts;
  post_tags = delete_where (λ r. r.0 == id) s.post_tags;
  attachments = delete_where (λ a. a.post_id == id) s.attachments;
}

count_owner : Option Post → Store → Store
unfolding count_if_local
count_owner none s = s
count_owner (some p) s = count_if_local p s

-- DeletePost
pub delete_post : ℕ → Store → Option Store
unfolding count_owner
delete_post id s =
    let owner = get_post id s in
    if any_row (has_post_id id) s.posts && is_referred id s
    then none
    else some (count_owner owner (drop_post id s))

-- the wrappers of a reblog
abbrev pub is_wrapper : ℕ → ℕ → Post → Bool
is_wrapper persona post p =
    p.persona_id == persona && (p.reblog_of_post_id == post && not (post == 0))

abbrev pub drop_all : List Post → Store → Store
drop_all [] s = s
drop_all (p ∷ ps) s = drop_post p.id (drop_all ps s)

-- DeleteReblogPost
pub delete_reblog_post : ℕ → ℕ → Store → Option Store
delete_reblog_post persona post s =
    let gone = select (is_wrapper persona post) s.posts in
    if any_row (λ p. is_referred p.id s) gone
    then none
    else some (refresh_post_count persona (drop_all gone s))

-- CreateAttachment
pub create_attachment : Attachment → Store → Option Store
create_attachment a s =
    if any_row (λ b. b.id == a.id) s.attachments || not (any_row (has_post_id a.post_id) s.posts)
    then none
    else some (record s { attachments = a ∷ s.attachments })
