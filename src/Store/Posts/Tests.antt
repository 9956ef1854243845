-- ===== src/Store/Posts/Tests.antt =====
-- A concrete table of posts, and the theorem about it.
use murlog.Prelude.{true, false, refl, [], ◌∷◌}
use murlog.Domain.Social.{Persona, Post, public, local}
use murlog.Store.{Store}
use murlog.Store.Posts.{delete_post, count_owner, count_if_local}
use murlog.Store.Posts.Invariant.{PostsInv, PostStep-Inv, deleted}

abbrev alice : Persona
alice = record {
  id = 1;
  username = "alice";
  display_name = "";
  summary = "";
  private_key_pem = "";
  locked = false;
  show_follows = true;
  post_count = 1;
  followers_count = 1;
  following_count = 1;
  created_at = 0;
}

abbrev own_post : Post
own_post = record {
  id = 5;
  persona_id = 1;
  content = "hello";
  content_type = "text";
  content_map = [];
  visibility = public;
  origin = local;
  uri = "";
  actor_uri = "";
  in_reply_to_uri = "";
  mentions_json = "";
  hashtags_json = "";
  reblogged_by_uri = "";
  reblog_of_post_id = 0;
  summary = "";
  sensitive = false;
  created_at = 3;
  updated_at = 3;
}

abbrev tables : Store
tables = record {
  personas = alice ∷ [];
  posts = own_post ∷ [];
  post_tags = [];
  attachments = [];
  follows = [];
  followers = [];
  remote_actors = [];
  favourites = [];
  reblogs = [];
  notifications = [];
  blocks = [];
  domain_blocks = [];
  failures = [];
}

tables-PostsInv : PostsInv tables
tables-PostsInv = record { counted = (refl, tt); post_ids = (refl, tt) }

abbrev emptied : Store
emptied = record tables { posts = []; personas = record alice { post_count = 0 } ∷ [] }

PostStep-Inv_example : PostsInv emptied
unfolding delete_post count_owner count_if_local
PostStep-Inv_example = PostStep-Inv {s = tables} {s' = emptied} (deleted 5 refl) tables-PostsInv
