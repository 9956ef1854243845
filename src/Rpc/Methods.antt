-- ===== src/Rpc/Methods.antt =====
-- handler/rpc.go: the methods that registerRPCMethods sets up, and which of them are public.
use murlog.Prelude.{
  Bool, true, false, if◌then◌else◌, Option, none, some, List, [], ◌∷◌, String, str_eq,
}

abbrev pub registered : List (String × Bool)
registered =
    ("auth.login", true)
    ∷ ("auth.logout", false)
    ∷ ("auth.change_password", false)
    ∷ ("personas.list", true)
    ∷ ("personas.get", true)
    ∷ ("personas.create", false)
    ∷ ("personas.update", false)
    ∷ ("posts.list", true)
    ∷ ("posts.list_by_tag", true)
    ∷ ("posts.list_by_actor", false)
    ∷ ("posts.get", true)
    ∷ ("posts.get_thread", true)
    ∷ ("posts.create", false)
    ∷ ("posts.update", false)
    ∷ ("posts.delete", false)
    ∷ ("posts.pin", false)
    ∷ ("posts.unpin", false)
    ∷ ("timeline.home", false)
    ∷ ("actors.lookup", false)
    ∷ ("actors.outbox", false)
    ∷ ("actors.following", false)
    ∷ ("actors.followers", false)
    ∷ ("actors.featured", false)
    ∷ ("follows.list", true)
    ∷ ("follows.check", false)
    ∷ ("follows.create", false)
    ∷ ("follows.delete", false)
    ∷ ("followers.list", true)
    ∷ ("followers.pending", false)
    ∷ ("followers.approve", false)
    ∷ ("followers.reject", false)
    ∷ ("followers.delete", false)
    ∷ ("media.delete", false)
    ∷ ("favourites.create", false)
    ∷ ("favourites.delete", false)
    ∷ ("reblogs.create", false)
    ∷ ("reblogs.delete", false)
    ∷ ("blocks.list", false)
    ∷ ("blocks.create", false)
    ∷ ("blocks.delete", false)
    ∷ ("domain_blocks.list", false)
    ∷ ("domain_blocks.create", false)
    ∷ ("domain_blocks.delete", false)
    ∷ ("notifications.list", false)
    ∷ ("notifications.count_unread", false)
    ∷ ("notifications.read", false)
    ∷ ("notifications.read_all", false)
    ∷ ("notifications.delete", false)
    ∷ ("notifications.poll", false)
    ∷ ("domains.list_failures", false)
    ∷ ("domains.reset_failure", false)
    ∷ ("links.preview", true)
    ∷ ("totp.setup", false)
    ∷ ("totp.verify", false)
    ∷ ("totp.disable", false)
    ∷ ("totp.status", true)
    ∷ ("queue.stats", false)
    ∷ ("queue.list", false)
    ∷ ("queue.retry", false)
    ∷ ("queue.dismiss", false)
    ∷ ("queue.tick", false)
    ∷ ("queue.vacuum", false)
    ∷ ("site.get_settings", false)
    ∷ ("site.update_settings", false)
    ∷ []

-- the map's lookup; `true` is public
unfoldable pub is_public : String → List (String × Bool) → Option Bool
is_public name [] = none
is_public name ((m, p) ∷ ms) =
    let rest = is_public name ms in if str_eq m name then some p else rest
