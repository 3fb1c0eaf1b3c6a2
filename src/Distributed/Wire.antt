-- ===== src/Distributed/Wire.antt =====
-- What the program uses of serde_json, of serde's derived conversions and of http's StatusCode, as
-- an interface with its documented laws, and the wire form of results.
use cs.Base.{
  ℕ, ◌%◌, ◌^◌, ◌≤◌, ◌<◌, ◌≡◌, true, false, Option, none, some, List, [], ◌∷◌, arith, if◌then◌else◌,
  ◌==◌, text_eq, text_beq, Bool, unwrap_or,
}
use cs.Base.Options.{◌>>=◌}
use cs.Base.Text.{Text, lit}
use cs.Base.Decimal.{usize_mod}
use cs.Discord.{Message, StateError, StateResult, ok, err}

-- serde_json: values, and the maps of objects.
pub record Json : Type 1 where
  pub Value : Type 0
  pub Map : Type 0
  pub empty : Map
  pub insert : Map → Text → Value → Map
  pub lookup : Map → Text → Option Value
  pub object : Map → Value
  pub string : Text → Value
  pub number : ℕ → Value
  pub boolean : Bool → Value
  pub null : Value
  -- `value.get(key)` and `value[key] = x`
  pub get : Value → Text → Option Value
  pub set : Value → Text → Value → Value
  pub as_str : Value → Option Text
  pub as_u64 : Value → Option ℕ
  pub as_bool : Value → Option Bool
  pub lookup-empty : (k : Text) → lookup empty k ≡ none
  pub lookup-insert :
      (m : Map) (k i : Text) (v : Value)
      → lookup (insert m k v) i ≡ (if k == i then some v else lookup m i)
  pub get-object : (m : Map) (k : Text) → get (object m) k ≡ lookup m k
  pub set-object : (m : Map) (k : Text) (v : Value) → set (object m) k v ≡ object (insert m k v)
  pub as_str-string : (t : Text) → as_str (string t) ≡ some t
  pub as_u64-number : (n : ℕ) → n < usize_mod → as_u64 (number n) ≡ some n
  pub as_u64-null : as_u64 null ≡ none
  pub as_bool-boolean : (b : Bool) → as_bool (boolean b) ≡ some b

-- A type with serde's Serialize and DeserializeOwned.
pub record Serde (j : Json) (A : Type 0) : Type 0 where
  pub to_value : A → j.Value
  pub from_value : j.Value → Option A
  pub from_value-to_value : (a : A) → from_value (to_value a) ≡ some a

pub record Platform : Type 1 where
  pub json : Json
  -- `StatusCode::from_u16` accepts the numbers from 100 to 999
  pub from_u16 : ℕ → Option ℕ
  pub from_u16_valid : (n : ℕ) → 100 ≤ n → n < 1000 → from_u16 n ≡ some n
  pub unit : Serde json (Unit {0})
  pub text : Serde json Text
  pub texts : Serde json (List Text)
  pub message_list : Serde json (List Message)
  -- the hash of `DefaultHasher`
  pub hash : Text → ℕ

module _ (p : Platform) where
  open p use {json, from_u16, from_u16_valid}
  open json use {
    Value, Map, empty, insert, lookup, object, string, number, boolean, get, set, as_str, as_u64,
    null, lookup-insert, lookup-empty, get-object, set-object, as_str-string, as_u64-number,
  }

  -- `value[key]`
  abbrev pub index : Value → Text → Value
  index v k = unwrap_or (get v k) null

  -- `json!` with one to three fields, and more.
  abbrev pub fields : List (Text × Value) → Map
  fields [] = empty
  fields ((k, v) ∷ rest) = insert (fields rest) k v

  abbrev error_value : StateError → Value
  error_value e = object (
      fields (
        (lit "status", number e.status)
        ∷ (lit "code", string e.code)
        ∷ (lit "message", string e.message)
        ∷ []))

  unfoldable pub state_result_to_value : {A : Type 0} → Serde json A → StateResult A → Value
  state_result_to_value c (ok a) = object (fields ((lit "ok", c.to_value a) ∷ []))
  state_result_to_value c (err e) = object (fields ((lit "error", error_value e) ∷ []))

  error_from_value : Value → Option StateError
  error_from_value v = do
    n ← as_u64 (index v (lit "status"))
    status ← from_u16 (n % 2 ^ 16)
    code ← as_str (index v (lit "code"))
    message ← as_str (index v (lit "message"))
    some (record { status = status; code = code; message = message })

  -- By what `value.get("error")` found. `none` is the panic of an `unwrap`.
  result_from : {A : Type 0} → Serde json A → Option Value → Value → Option (StateResult A)
  unfolding error_from_value
  result_from c (some e) v = error_from_value e >>= λ error. some (err error)
  result_from c none v = c.from_value v >>= λ a. some (ok a)

  unfoldable pub state_result_from_value :
      {A : Type 0} → Serde json A → Value → Option (StateResult A)
  unfolding result_from
  state_result_from_value c v = result_from c (get v (lit "error")) (index v (lit "ok"))

  -- The status of an error is an HTTP status.
  abbrev pub HasStatus {ℓ} : {A : Type ℓ} → StateResult A → Type 0
  HasStatus (ok a) = Unit
  HasStatus (err e) = (100 ≤ e.status) × (e.status < 1000)

  error_from_value-error_value :
      (e : StateError)
      → 100 ≤ e.status
      → e.status < 1000
      → error_from_value (error_value e) ≡ some e
  unfolding error_from_value lit text_beq
  error_from_value-error_value e lo hi =
      let small : e.status % 2 ^ 16 ≡ e.status = omega arith in
      let valid = from_u16_valid e.status lo hi in
      let read = as_u64-number e.status (omega arith) in
      simp (get-object, lookup-insert, read, small, valid, as_str-string)

  -- An answer as it arrives: `peer_task` adds the number and the kind of the request, and
  -- `send_message_task` that it is a response.
  unfoldable pub as_response : ℕ → Text → Value → Value
  as_response n kind v =
      set (set (set v (lit "sequence_number") (number n)) (lit "request_type") (string kind))
        (lit "is_response") (boolean true)

  -- A request as it arrives: `send_request` adds its kind, and `send_message_task` its number and
  -- that it is no response.
  unfoldable pub as_request : ℕ → Text → Value → Value
  as_request n kind v =
      set (set (set v (lit "type") (string kind)) (lit "sequence_number") (number n))
        (lit "is_response") (boolean false)

  -- A result, whose status is an HTTP status if it is an error, is read back from the response
  -- that carries it.
  pub state_result_from_value-to_value :
      {A : Type 0} (c : Serde json A) (r : StateResult A) (n : ℕ) (kind : Text)
      → HasStatus r
      → state_result_from_value c (as_response n kind (state_result_to_value c r)) ≡ some r
  unfolding state_result_to_value as_response lit text_beq
  state_result_from_value-to_value c (ok a) n kind h =
      let v =
        set
          (set (set (state_result_to_value c (ok a)) (lit "sequence_number") (number n))
            (lit "request_type") (string kind))
          (lit "is_response") (boolean true) in
      let no_error : get v (lit "error") ≡ none =
        simp (set-object, get-object, lookup-insert, lookup-empty) in
      let value : get v (lit "ok") ≡ some (c.to_value a) =
        simp (set-object, get-object, lookup-insert) in
      unfold state_result_from_value result_from in
      rw (no_error, value) (simp (c.from_value-to_value a))
  state_result_from_value-to_value c (err e) n kind h =
      let v =
        set
          (set (set (state_result_to_value c (err e)) (lit "sequence_number") (number n))
            (lit "request_type") (string kind))
          (lit "is_response") (boolean true) in
      let error : get v (lit "error") ≡ some (error_value e) =
        simp (set-object, get-object, lookup-insert) in
      unfold state_result_from_value result_from in
      rw error (simp (error_from_value-error_value e h.0 h.1))
