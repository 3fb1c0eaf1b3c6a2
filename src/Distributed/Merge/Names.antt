-- ===== src/Distributed/Merge/Names.antt =====
-- What `get_users` and `get_channels` come to when the peers answer or go down.
use cs.Base.{◌≡◌, refl, ◌∙◌, Bool, ◌||◌, List, [], ◌∷◌, ◌++◌, map, text_eq, length, arith}
use cs.Base.HashSet
use cs.Base.HashMap
use cs.Base.Text.{Text, lit}
use cs.Base.Order.{sort, dedup, Ascends, dedup-sort-Ascends, contains-dedup-sort}
use cs.Discord
use cs.Discord.{StateResult, ok, err}
use cs.Distributed.Wire.{Platform}
use cs.Distributed.Run.{Server, Reply, Result, World, returned, ◌>>=◌, pure}
use cs.Distributed.Operations.{get_my_users, get_my_channels}
use cs.Distributed.Merge.{get_server_states, collect, get_users, get_channels}
use cs.Distributed.Merge.Asking.{
  Heard, reply_of, all_heard, others, requested, server_after, collect_lem, get_server_states_lem,
}

contains-append :
    (u : Text) (xs ys : List Text)
    → HashSet.contains u (xs ++ ys) ≡ (HashSet.contains u xs || HashSet.contains u ys)
unfolding HashSet.contains
contains-append u [] ys = refl
contains-append u (x ∷ xs) ys = ground (arith, contains-append u xs ys)

module _ (p : Platform) (id : Text) where
  -- Each server that is alive is asked, but for this one.
  abbrev pub asked : List Text → Server → List Text
  asked servers s = others p id s.is_alive (sort servers)

  -- What a call has come to.
  abbrev pub Merged :
      Text
      → List Text
      → List (Heard p id)
      → List (Reply p.json.Value)
      → World p.json.Value
      → (Text → Bool)
      → Result p.json.Value (List Text)
      → Type 0
  Merged kind servers heard later w own r =
      (names : List Text) × (r
        ≡ returned
            (record {
              server = server_after p id w.server heard;
              replies = later;
              sent = requested p id kind (asked servers w.server) w.sent;
            })
            names)
      × Ascends names
      × ((u : Text)
          → HashSet.contains u names ≡ (own u || HashSet.contains u (all_heard p id heard)))

  merged :
      (kind : Text) (servers own : List Text) (heard : List (Heard p id))
      (later : List (Reply p.json.Value)) (w : World p.json.Value)
      → w.replies ≡ map (reply_of p id kind) heard ++ later
      → length heard ≡ length (asked servers w.server)
      → Merged kind servers heard later w
          (λ u. HashSet.contains u own)
          ((collect p id kind (get_server_states servers w.server) own >>= λ all.
              pure (dedup (sort all)))
            w)
  merged kind servers own heard later w replies count =
      let all = own ++ all_heard p id heard in
      (
        dedup (sort all),
        rw (get_server_states_lem servers w.server) (
            rw
              (collect_lem p id kind w.server.is_alive (sort servers) own heard later w replies
                count)
              refl),
        dedup-sort-Ascends all,
        λ u. contains-dedup-sort u all ∙ contains-append u own (all_heard p id heard),
      )

  -- When each other server that is held to be alive at the start, in ascending order, answers with
  -- names or goes down, `get_users` returns after one request get_users to each of them and to no
  -- other, with the names of this server and of those that answered, each once and in ascending
  -- order.
  pub get_users_lem :
      (servers : List Text) (heard : List (Heard p id)) (later : List (Reply p.json.Value))
      (w : World p.json.Value)
      → w.replies ≡ map (reply_of p id (lit "get_users")) heard ++ later
      → length heard ≡ length (asked servers w.server)
      → Merged
          (lit "get_users")
          servers
          heard
          later
          w
          (λ u. HashSet.contains u w.server.discord.users)
          (get_users p id servers w)
  unfolding get_users get_my_users Discord.get_users
  get_users_lem servers heard later w replies count =
      merged (lit "get_users") servers w.server.discord.users heard later w replies count

  -- The same of `get_channels`.
  pub get_channels_lem :
      (servers : List Text) (heard : List (Heard p id)) (later : List (Reply p.json.Value))
      (w : World p.json.Value)
      → w.replies ≡ map (reply_of p id (lit "get_channels")) heard ++ later
      → length heard ≡ length (asked servers w.server)
      → Merged
          (lit "get_channels")
          servers
          heard
          later
          w
          (λ c. Discord.channel_exists w.server.discord c)
          (get_channels p id servers w)
  unfolding get_channels get_my_channels Discord.get_channels Discord.channel_exists
  get_channels_lem servers heard later w replies count =
      let (names, result, ascends, members) =
        merged (lit "get_channels") servers (HashMap.keys w.server.discord.channels) heard later w
          replies count in
      (
        names,
        result,
        ascends,
        λ c. members c ∙ rw (HashMap.contains-keys c w.server.discord.channels) refl,
      )
