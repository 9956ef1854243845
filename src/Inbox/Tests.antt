-- ===== src/Inbox/Tests.antt =====
-- A concrete request to the inbox, and the theorems about it.
use murlog.Prelude.{true, false, ◌≡◌, ◌⊎◌, refl, none, some, [], ◌∷◌, String, arith}
use murlog.Prelude.Tables.{count_where, select}
use murlog.Json.{null, text, object, field, end}
use murlog.Domain.Social.{Persona, Post, public, local, remote}
use murlog.Store.{Store}
use murlog.Store.Posts.Frames.{local_posts}
use murlog.Signature.{Crypto, rsa}
use murlog.Worker.{World}
use murlog.Inbox.{Activity, Actor, Site}
use murlog.Inbox.Invariant.{Sound, handle_inbox-local_posts}
use murlog.Inbox.Requests.{Delivery, handle_inbox}
use murlog.Inbox.Requests.Guards.{Granted, handle_inbox-Granted}
use murlog.Inbox.Relations.{handle_inbox_block}
use murlog.Inbox.Relations.Severed.{is_follower_of, is_follow_to, handle_inbox_block-Severed}
use murlog.Inbox.Changes.{handle_inbox_delete}
use murlog.Inbox.Changes.Authors.{kept, handle_inbox_delete-kept}

abbrev pub alice : Persona
alice = record {
  id = 1;
  username = "alice";
  display_name = "";
  summary = "";
  private_key_pem = "";
  locked = false;
  show_follows = true;
  post_count = 1;
  followers_count = 1;
  following_count = 1;
  created_at = 0;
}

abbrev pub own_post : Post
own_post = record {
  id = 5;
  persona_id = 1;
  content = "hello";
  content_type = "text";
  content_map = [];
  visibility = public;
  origin = local;
  uri = "";
  actor_uri = "";
  in_reply_to_uri = "";
  mentions_json = "";
  hashtags_json = "";
  reblogged_by_uri = "";
  reblog_of_post_id = 0;
  summary = "";
  sensitive = false;
  created_at = 3;
  updated_at = 3;
}

abbrev pub other_post : Post
other_post = record own_post {
  id = 6;
  content = "hi";
  origin = remote;
  uri = "https://b.example/notes/1";
  actor_uri = "https://b.example/bob";
}

abbrev pub tables : Store
tables = record {
  personas = alice ∷ [];
  posts = own_post ∷ other_post ∷ [];
  post_tags = [];
  attachments = [];
  follows =
      record {
        id = 7;
        persona_id = 1;
        target_uri = "https://b.example/bob";
        accepted = true;
        created_at = 2;
      }
      ∷ [];
  followers =
      record {
        id = 8;
        persona_id = 1;
        actor_uri = "https://b.example/bob";
        approved = true;
        created_at = 2;
      }
      ∷ [];
  remote_actors = [];
  favourites = [];
  reblogs = [];
  notifications = [];
  blocks = [];
  domain_blocks = [];
  failures = [];
}

pub tables-Sound : Sound tables
tables-Sound = record {
  relations = record {
    counted = ((refl, refl), tt);
    follower_ids = (refl, tt);
    follow_ids = (refl, tt);
  };
  posts = record { counted = (refl, tt); post_ids = (refl, (refl, tt)) };
}

abbrev pub world : World
world = record { queue = []; store = tables; draws = 100 }

abbrev pub bob : Actor
bob = record {
  id = "https://b.example/bob";
  preferred_username = "bob";
  name = "Bob";
  summary = "";
  inbox = "https://b.example/bob/inbox";
  icon = null;
  image = null;
  fields = [];
  public_key_pem = "key of bob";
}

abbrev pub site : Site
site = record {
  base = "https://a.example";
  now = 50;
  ext = record {
    marshal = λ _. "{}";
    unmarshal = λ _. none;
    hostname = λ uri. some uri;
    new_id = λ n. n;
  };
  texts = record { tags_of = λ _. []; tags_json = λ _. "[]"; lower = λ s. s };
  fetch_actor = λ _. some bob;
  fetch_note = λ _. none;
  host = λ _. some "b.example";
  id_text = λ _. "1";
  is_safe_url = λ _. true;
  sanitize = λ s. s;
  parse_time = λ _. none;
  fields_json = λ _. "[]";
}

abbrev pub crypto : Crypto
crypto = record {
  digest = λ _. "sum";
  decode64 = some;
  encode64 = λ s. s;
  parse_public_key = λ pem. some (rsa pem);
  parse_private_key = some;
  verify_rsa = λ key message sig. true;
  verify_ed25519 = λ key message sig. false;
  sign_rsa = λ key message. none;
  parse_time = λ _. some 0;
  format_time = λ _. "now";
  canonical = λ name. name;
  equal_fold = λ a b. true;
  lower = λ s. s;
}

abbrev pub delivery : Delivery
delivery = record {
  username = "alice";
  request = record {
    method = "POST";
    request_uri = "/users/alice/inbox";
    host = "a.example";
    headers =
        ("Digest", "SHA-256=sum")
        ∷ ("Date", "now")
        ∷ ("date", "now")
        ∷ ("Signature", "keyId=\"https://b.example/bob#main-key\",headers=\"date\",signature=\"s\"")
        ∷ [];
  };
  body = some "{}";
}

-- a new note in reply to the persona's own post
abbrev pub note : Activity
note = record {
  id = "https://b.example/notes/2/activity";
  kind = "Create";
  actor = "https://b.example/bob";
  body = object (
      field "type" (text "Note") (
        field "id" (text "https://b.example/notes/2") (
          field "content" (text "yes") (
            field "inReplyTo"
              (text "https://a.example/users/alice/posts/00000000000000000000000000000005") end))));
}

abbrev after : World
after = (handle_inbox site crypto (λ _. some note) 0 delivery world).1

handle_inbox-local_posts_example : local_posts after.store ≡ local_posts tables
handle_inbox-local_posts_example =
    handle_inbox-local_posts site crypto (λ _. some note) 0 delivery world tables-Sound

handle_inbox-Granted_example :
    (after ≡ world) ⊎ Granted site crypto (λ _. some note) 0 delivery world
handle_inbox-Granted_example = handle_inbox-Granted site crypto (λ _. some note) 0 delivery world

-- activities of Bob about his own post
abbrev about_post : String → Activity
about_post kind = record {
  id = "https://b.example/activities/3";
  kind = kind;
  actor = "https://b.example/bob";
  body = text "https://b.example/notes/1";
}

handle_inbox_delete-kept_example :
    select
      (kept site alice "https://b.example/bob")
      (handle_inbox_delete site alice (about_post "Delete") world).store.posts
    ≡ own_post ∷ []
handle_inbox_delete-kept_example =
    handle_inbox_delete-kept site alice (about_post "Delete") world tables-Sound.posts.post_ids

handle_inbox_block-Severed_example :
    (count_where
        (is_follower_of 1 "https://b.example/bob")
        (handle_inbox_block site alice (about_post "Block") world).store.followers
      ≡ 0)
    × (count_where
          (is_follow_to 1 "https://b.example/bob")
          (handle_inbox_block site alice (about_post "Block") world).store.follows
        ≡ 0)
handle_inbox_block-Severed_example =
    handle_inbox_block-Severed site alice (about_post "Block") world (omega arith)
