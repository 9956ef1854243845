-- ===== src/Domain/Social.antt =====
-- murlog.go: the domain types of the server's tables. An id is the number that its bytes spell, and
-- 0 is the zero id; a time is in seconds; JSON columns are texts.
use murlog.Prelude.{ℕ, Bool, String, List}

pub data Visibility : Type 0 where
  public unlisted followers_only direct : Visibility

-- the `origin` column; `system` stands for any other text
pub data Origin : Type 0 where
  local remote system : Origin

pub record Persona : Type 0 where
  pub id : ℕ
  pub username : String
  pub display_name : String
  pub summary : String
  pub private_key_pem : String
  pub locked : Bool
  pub show_follows : Bool
  pub post_count : ℕ
  pub followers_count : ℕ
  pub following_count : ℕ
  pub created_at : ℕ

pub record Mention : Type 0 where
  pub acct : String
  pub href : String

pub record Post : Type 0 where
  pub id : ℕ
  pub persona_id : ℕ
  pub content : String
  pub content_type : String
  pub content_map : List (String × String)
  pub visibility : Visibility
  pub origin : Origin
  pub uri : String
  pub actor_uri : String
  pub in_reply_to_uri : String
  pub mentions_json : String
  pub hashtags_json : String
  pub reblogged_by_uri : String
  pub reblog_of_post_id : ℕ
  pub summary : String
  pub sensitive : Bool
  pub created_at : ℕ
  pub updated_at : ℕ

pub record Attachment : Type 0 where
  pub id : ℕ
  pub post_id : ℕ
  pub file_path : String
  pub mime_type : String
  pub alt : String
  pub width : ℕ
  pub height : ℕ
  pub created_at : ℕ

pub record Follow : Type 0 where
  pub id : ℕ
  pub persona_id : ℕ
  pub target_uri : String
  pub accepted : Bool
  pub created_at : ℕ

pub record Follower : Type 0 where
  pub id : ℕ
  pub persona_id : ℕ
  pub actor_uri : String
  pub approved : Bool
  pub created_at : ℕ

pub record RemoteActor : Type 0 where
  pub uri : String
  pub username : String
  pub display_name : String
  pub summary : String
  pub inbox : String
  pub avatar_url : String
  pub header_url : String
  pub featured_url : String
  pub fields_json : String
  pub acct : String
  pub fetched_at : ℕ

-- Reblog and Favourite
pub record Interaction : Type 0 where
  pub id : ℕ
  pub post_id : ℕ
  pub actor_uri : String
  pub created_at : ℕ

-- the `type` of a notification
pub data NotificationType : Type 0 where
  follow mention reblog favourite : NotificationType

pub record Notification : Type 0 where
  pub id : ℕ
  pub persona_id : ℕ
  pub kind : NotificationType
  pub actor_uri : String
  pub post_id : ℕ
  pub read : Bool
  pub created_at : ℕ

pub record Block : Type 0 where
  pub id : ℕ
  pub actor_uri : String
  pub created_at : ℕ

pub record DomainBlock : Type 0 where
  pub id : ℕ
  pub domain : String
  pub created_at : ℕ

pub record DomainFailure : Type 0 where
  pub domain : String
  pub failure_count : ℕ
  pub last_error : String
  pub first_failure_at : ℕ
  pub last_failure_at : ℕ
