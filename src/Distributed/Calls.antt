-- ===== src/Distributed/Calls.antt =====
-- The calls that one server makes of another, as data, and what `receive_callback` does with each.
use cs.Base.{ℕ, ◌<◌, ◌≡◌, refl, false, Option, none, some, List, [], ◌∷◌, ◌==◌, text_eq, text_beq}
use cs.Base.Text.{Text, lit}
use cs.Base.Decimal.{usize_mod}
use cs.Discord.{Message, StateResult}
use cs.Distributed.Owners.{LocationConfig, user_owner, channel_owner}
use cs.Distributed.Wire.{Platform, Serde, index, fields, as_request}
use cs.Distributed.Run.{World, returned, M}
use cs.Distributed.Operations
use cs.Distributed.Operations.{
  user_request, channel_request, member_request, send_request, page_request, optional,
}
use cs.Distributed.Requests.{
  str_field, answer_with, answer_create_user, answer_join_channel, answer_leave_channel,
  answer_list_channel_users, answer_send_message, answer_get_messages, receive_callback,
}

pub data Call : Type 0 where
  create_user : Text → Call
  join_channel : Text → Text → Call
  leave_channel : Text → Text → Call
  send_message : Text → Text → Text → Call
  list_channel_users : Text → Call
  get_messages : Text → Option ℕ → Option ℕ → Call

abbrev pub Answer : Call → Type 0
Answer (create_user u) = Unit
Answer (join_channel u c) = Unit
Answer (leave_channel u c) = Unit
Answer (send_message c u t) = Text
Answer (list_channel_users c) = List Text
Answer (get_messages c limit offset) = List Message

abbrev pub kind : Call → Text
kind (create_user u) = lit "create_user"
kind (join_channel u c) = lit "join_channel"
kind (leave_channel u c) = lit "leave_channel"
kind (send_message c u t) = lit "send_message"
kind (list_channel_users c) = lit "list_channel_users"
kind (get_messages c limit offset) = lit "get_messages"

abbrev IsU64 : Option ℕ → Type 0
IsU64 none = Unit
IsU64 (some n) = n < usize_mod

-- Limit and offset are machine numbers.
abbrev pub Fits : Call → Type 0
Fits (get_messages c limit offset) = IsU64 limit × IsU64 offset
Fits _ = Unit

module _ (p : Platform) where
  open p use {json, hash}
  open json use {
    Value, Map, empty, insert, lookup, object, string, number, boolean, null, get, set, as_str,
    as_u64, lookup-empty, lookup-insert, get-object, set-object, as_str-string, as_u64-number,
    as_u64-null,
  }

  abbrev pub serde : (q : Call) → Serde json (Answer q)
  serde (create_user u) = p.unit
  serde (join_channel u c) = p.unit
  serde (leave_channel u c) = p.unit
  serde (send_message c u t) = p.text
  serde (list_channel_users c) = p.texts
  serde (get_messages c limit offset) = p.message_list

  abbrev pub owner : Call → Option LocationConfig
  owner (create_user u) = user_owner hash u
  owner (join_channel u c) = channel_owner hash c
  owner (leave_channel u c) = channel_owner hash c
  owner (send_message c u t) = channel_owner hash c
  owner (list_channel_users c) = channel_owner hash c
  owner (get_messages c limit offset) = channel_owner hash c

  -- A field of the parameters, after the request's own fields were added.
  pub get-as_request :
      (m : Map) (n : ℕ) (k : Text) (i : Text)
      → (lit "type" == i) ≡ false
      → (lit "sequence_number" == i) ≡ false
      → (lit "is_response" == i) ≡ false
      → get (as_request p n k (object m)) i ≡ lookup m i
  unfolding as_request
  get-as_request m n k i h1 h2 h3 =
      let v =
        set (set (set (object m) (lit "type") (string k)) (lit "sequence_number") (number n))
          (lit "is_response") (boolean false) in
      let found : get v i ≡ lookup m i = simp (set-object, get-object, lookup-insert, h1, h2, h3) in
      found

  abbrev pub Own : Text → Type 0
  Own i =
      ((lit "type" == i) ≡ false)
      × ((lit "sequence_number" == i) ≡ false)
      × ((lit "is_response" == i) ≡ false)

  module _ (id : Text) where
    abbrev pub params : Call → Value
    params (create_user u) = user_request p id u
    params (join_channel u c) = member_request p id u c
    params (leave_channel u c) = member_request p id u c
    params (send_message c u t) = send_request p id u c t
    params (list_channel_users c) = channel_request p id c
    params (get_messages c limit offset) = page_request p id c limit offset

    abbrev pub perform : (q : Call) → M Value (StateResult (Answer q))
    perform (create_user u) = Operations.create_user p id u
    perform (join_channel u c) = Operations.join_channel p id u c
    perform (leave_channel u c) = Operations.leave_channel p id u c
    perform (send_message c u t) = Operations.send_message p id c u t
    perform (list_channel_users c) = Operations.list_channel_users p id c
    perform (get_messages c limit offset) = Operations.get_messages p id c limit offset

    pub str_field-as_request :
        (m : Map) (n : ℕ) (k i t : Text) (w : World Value)
        → Own i
        → lookup m i ≡ some (string t)
        → str_field p id (as_request p n k (object m)) i w ≡ returned w t
    unfolding str_field
    str_field-as_request m n k i t w (h1, h2, h3) found =
        rw (get-as_request m n k i h1 h2 h3, found) (rw (as_str-string t) refl)

    number-as_request :
        (m : Map) (n : ℕ) (k i : Text) (o : Option ℕ)
        → Own i
        → lookup m i ≡ some (optional p id o)
        → IsU64 o
        → as_u64 (index p (as_request p n k (object m)) i) ≡ o
    number-as_request m n k i none (h1, h2, h3) found small =
        rw (get-as_request m n k i h1 h2 h3, found) as_u64-null
    number-as_request m n k i (some o) (h1, h2, h3) found small =
        rw (get-as_request m n k i h1 h2 h3, found) (as_u64-number o small)

    -- A server that receives a call performs it and answers with the result.
    pub receive_callback_lem :
        (q : Call) (n : ℕ) (w : World Value)
        → Fits q
        → receive_callback p id (kind q) (as_request p n (kind q) (params q)) w
          ≡ answer_with p id (serde q) (perform q) w
    unfolding receive_callback answer_create_user answer_join_channel answer_leave_channel
        answer_list_channel_users answer_send_message answer_get_messages lit text_beq
    receive_callback_lem (create_user u) n w fits =
        let m = fields p ((lit "username", string u) ∷ []) in
        let k = lit "create_user" in
        rw (str_field-as_request m n k (lit "username") u w (refl, refl, refl) (simp lookup-insert))
          refl
    receive_callback_lem (join_channel u c) n w fits =
        let m = fields p ((lit "username", string u) ∷ (lit "channel", string c) ∷ []) in
        let k = lit "join_channel" in
        rw (str_field-as_request m n k (lit "username") u w (refl, refl, refl) (simp lookup-insert))
          (rw
            (str_field-as_request m n k (lit "channel") c w (refl, refl, refl) (simp lookup-insert))
            refl)
    receive_callback_lem (leave_channel u c) n w fits =
        let m = fields p ((lit "username", string u) ∷ (lit "channel", string c) ∷ []) in
        let k = lit "leave_channel" in
        rw (str_field-as_request m n k (lit "username") u w (refl, refl, refl) (simp lookup-insert))
          (rw
            (str_field-as_request m n k (lit "channel") c w (refl, refl, refl) (simp lookup-insert))
            refl)
    receive_callback_lem (send_message c u t) n w fits =
        let m =
          fields p (
            (lit "username", string u) ∷ (lit "channel", string c) ∷ (lit "text", string t) ∷ []) in
        let k = lit "send_message" in
        rw (str_field-as_request m n k (lit "username") u w (refl, refl, refl) (simp lookup-insert))
          (rw
            (str_field-as_request m n k (lit "channel") c w (refl, refl, refl) (simp lookup-insert))
            (rw
              (str_field-as_request m n k (lit "text") t w (refl, refl, refl) (simp lookup-insert))
              refl))
    receive_callback_lem (list_channel_users c) n w fits =
        let m = fields p ((lit "channel", string c) ∷ []) in
        let k = lit "list_channel_users" in
        rw (str_field-as_request m n k (lit "channel") c w (refl, refl, refl) (simp lookup-insert))
          refl
    receive_callback_lem (get_messages c limit offset) n w (fits, fits') =
        let m = fields p (
          (lit "channel", string c)
          ∷ (lit "limit", optional p id limit)
          ∷ (lit "offset", optional p id offset)
          ∷ []) in
        let k = lit "get_messages" in
        rw (str_field-as_request m n k (lit "channel") c w (refl, refl, refl) (simp lookup-insert))
          (rw
            (
              number-as_request m n k (lit "limit") limit (refl, refl, refl) (simp lookup-insert)
                  fits,
              number-as_request m n k (lit "offset") offset (refl, refl, refl) (simp lookup-insert)
                  fits',
            )
            refl)
