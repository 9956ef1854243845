-- ===== src/Traffic/Tests.antt =====
-- A concrete sequence of requests, and the theorem about it.
use murlog.Prelude.{refl, ◌≡◌, arith, some, List, [], ◌∷◌, str_eq}
use murlog.Inbox.Tests.{site, crypto, world, note, delivery, alice, tables-Sound}
use murlog.Inbox.Invariant.{Sound}
use murlog.Methods.{ok}
use murlog.Methods.Blocks.{blocks_create}
use murlog.Methods.Blocks.Severed.{AreSevered, blocks_create-AreSevered}
use murlog.Traffic.{
  Event, received, called, create_block, create_follow, serve_all, serve_all-Sound,
}

-- a note from Bob, a follow of Carol, and then a block of Bob
abbrev events : List Event
events =
    received site 0 delivery
    ∷ called site
        (create_follow (some (record { persona_id = ""; target_uri = "https://c.example/carol" })))
    ∷ called site (create_block (some "https://b.example/bob"))
    ∷ []

serve_all-Sound_example : Sound (serve_all crypto (λ _. some note) str_eq events world).store
serve_all-Sound_example = serve_all-Sound crypto (λ _. some note) str_eq events world tables-Sound

blocks_create-AreSevered_example :
    ((blocks_create site (some "https://b.example/bob") world).1 ≡ ok)
    × AreSevered "https://b.example/bob"
        (blocks_create site (some "https://b.example/bob") world).0.store
        (alice ∷ [])
blocks_create-AreSevered_example =
    blocks_create-AreSevered site "https://b.example/bob" world refl refl (λ k. ground arith)
