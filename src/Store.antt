-- ===== src/Store.antt =====
-- store/sqlite: the tables that the worker and the inbox share, as one state.
pub mod Circuit
pub mod Followers
pub mod Posts
pub mod Interactions
mod Tests
use murlog.Prelude.{ℕ, String, List}
use murlog.Domain.Social.{
  Attachment, Persona, Post, Follow, Follower, RemoteActor, Interaction, Notification, Block,
  DomainBlock, DomainFailure,
}

pub record Store : Type 0 where
  pub personas : List Persona
  pub posts : List Post
  pub post_tags : List (ℕ × String)
  pub attachments : List Attachment
  pub follows : List Follow
  pub followers : List Follower
  pub remote_actors : List RemoteActor
  pub favourites : List Interaction
  pub reblogs : List Interaction
  pub notifications : List Notification
  pub blocks : List Block
  pub domain_blocks : List DomainBlock
  pub failures : List DomainFailure
