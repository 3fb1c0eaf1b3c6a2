-- ===== src/Distributed/Endpoints/Pages.antt =====
-- The pages of a channel's messages, as the endpoint shows them.
use cs.Base.{
  ℕ, ◌<◌, ◌≤◌, ◌≡◌, refl, ap, Bool, true, false, not, some, List, [], ◌∷◌, if◌then◌else◌, length,
  text_eq, length-take-le, drop, reverse,
}
use cs.Base.HashMap
use cs.Base.Text.{Text, lit}
use cs.Base.Decimal.{decimal, parse_usize, parse_usize-decimal, usize_mod}
use cs.Discord
use cs.Discord.{
  Message, StateError, StateResult, ok, err, channel_name_is_valid, channel_exists,
  invalid_channel_name, unknown_channel,
}
use cs.Discord.Members.{messages}
use cs.Discord.Reading
use cs.Discord.Reading.{page}
use cs.Distributed.Owners.{LocationConfig, channel_owner, is_authoritative}
use cs.Distributed.Wire.{Platform}
use cs.Distributed.Run.{World, returned}
use cs.Distributed.Operations
use cs.Distributed.Remote.{operation-here}
use cs.Distributed.Endpoints.{
  fine, number_param, Params, error_response, answer, invalid_limit, invalid_offset, Response,
}
use cs.Distributed.Endpoints.Channels.{get_messages, messages_response}

number_param-parse_usize :
    (t : Text) (n : ℕ) (e : StateError)
    → parse_usize t ≡ some n
    → number_param (some t) e ≡ fine (some n)
unfolding number_param parse_usize
number_param-parse_usize [] n e h = cc
number_param-parse_usize (c ∷ t) n e h = rw (h, number_param) refl

module _ (p : Platform) (id : Text) where
  -- What the endpoint shows of a page.
  abbrev pub page_response : Discord.AppState → Text → ℕ → ℕ → Response p id
  page_response s c limit offset =
      if not (channel_name_is_valid c)
      then error_response p id invalid_channel_name
      else if not (channel_exists s c)
      then error_response p id unknown_channel
      else messages_response p id c (page (messages s c) limit offset)

  own_page :
      (c : Text) (limit offset : ℕ) (l : LocationConfig) (w : World p.json.Value)
      → channel_owner p.hash c ≡ some l
      → is_authoritative id w.server.is_alive l ≡ true
      → Operations.get_messages p id c (some limit) (some offset) w
        ≡ returned w (
            if not (channel_name_is_valid c)
            then err invalid_channel_name
            else if not (channel_exists w.server.discord c)
            then err unknown_channel
            else ok (page (messages w.server.discord c) limit offset))
  unfolding Operations.get_messages
  own_page c limit offset l w owned here =
      operation-here p id _ _ _ _ _ l w _ owned here
        (rw (Reading.get_messages_lem w.server.discord c (some limit) (some offset)) refl)

  answer_page :
      (c : Text) (ms : List Message) (valid exists : Bool)
      → answer p id (messages_response p id c) (
          if not valid
          then err invalid_channel_name
          else if not exists
          then err unknown_channel
          else ok ms)
        ≡ (if not valid
            then error_response p id invalid_channel_name
            else if not exists
            then error_response p id unknown_channel
            else messages_response p id c ms)
  answer_page c ms false exists = refl
  answer_page c ms true false = refl
  answer_page c ms true true = refl

  -- At a server that is in charge of the channel, with a limit and an offset below 2^64 in decimal,
  -- the endpoint answers at once and changes nothing: 400 for a name that is no channel's, 404 for a
  -- channel that is not there, and otherwise the page of the messages, newest first, which is no
  -- longer than the limit.
  pub get_messages-page :
      (c : Text) (params : Params) (limit offset : ℕ) (l : LocationConfig) (w : World p.json.Value)
      → HashMap.get (lit "limit") params ≡ some (decimal limit)
      → HashMap.get (lit "offset") params ≡ some (decimal offset)
      → limit < usize_mod
      → offset < usize_mod
      → channel_owner p.hash c ≡ some l
      → is_authoritative id w.server.is_alive l ≡ true
      → (get_messages p id c params w ≡ returned w (page_response w.server.discord c limit offset))
        × (length (page (messages w.server.discord c) limit offset) ≤ limit)
  unfolding get_messages
  get_messages-page c params limit offset l w has_limit has_offset small small' owned here =
      let first =
        number_param-parse_usize (decimal limit) limit invalid_limit
          (parse_usize-decimal limit small) in
      let second =
        number_param-parse_usize (decimal offset) offset invalid_offset
          (parse_usize-decimal offset small') in
      (
        rw (has_limit, has_offset)
            (rw (first, second)
              (rw (own_page c limit offset l w owned here) (
                ap (returned w) (
                  answer_page c _ (channel_name_is_valid c) (channel_exists w.server.discord c))))),
        length-take-le limit (drop offset (reverse (messages w.server.discord c))),
      )
