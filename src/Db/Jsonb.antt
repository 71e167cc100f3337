-- ===== src/Db/Jsonb.antt =====
-- db/jsonb.go: a column that holds the JSON text of a value. encoding/json is a parameter of the model.
use aisphere_kit.Base.{
  Text, codes, Bool, true, false, ◌++◌, [], Option, none, some, Result, ok, err, Error, plain,
  wrapped, sentinel, Sentinel, is_empty, if◌then◌else◌, ◌==◌, ◌≡◌, refl, ap, arith,
}
pub mod RoundTrip

pub record Jsonb (T : Type 0) : Type 0 where
  pub content : T
  pub null : Bool

-- json.Marshal and json.Unmarshal of the type, and its zero value. Unmarshal reads a text into an old
-- value, which it changes even where it fails.
pub record Json (T : Type 0) : Type 0 where
  pub zero : T
  pub marshal : T → Result Text
  pub unmarshal : Text → T → T × Option Error

-- What a driver gives to Scan: NULL, a text as bytes or as a string, or a value of another type, by
-- the name of that.
pub data Source : Type 0 where
  null : Source
  bytes string : Text → Source
  other : Text → Source

module _ {T : Type 0} (json : Json T) where
  abbrev pub marshalled : Result Text → Result (Option Text)
  marshalled (ok b) = ok (some b)
  marshalled (err e) = err (wrapped (codes "jsonb marshal: ") e [])

  -- The method Value; NULL is `none`.
  unfoldable pub value : Jsonb T → Result (Option Text)
  value j = if j.null then ok none else marshalled (json.marshal j.content)

  abbrev pub null_column : Jsonb T
  null_column = record { content = json.zero; null = true }

  abbrev labelled : Text → Option Error → Option Error
  labelled before none = none
  labelled before (some e) = some (wrapped before e [])

  abbrev scanned : Text → T × Option Error → Jsonb T × Option Error
  scanned before (d, e) = (record { content = d; null = false }, labelled before e)

  abbrev scan_text : Jsonb T → Text → Jsonb T × Option Error
  scan_text j b =
      if is_empty b
      then (null_column, none)
      else scanned (codes "jsonb unmarshal: ") (json.unmarshal b j.content)

  unfoldable pub scan : Jsonb T → Source → Jsonb T × Option Error
  scan j null = (null_column, none)
  scan j (bytes b) = scan_text j b
  scan j (string b) = scan_text j b
  scan j (other name) = (j, some (plain (codes "jsonb: unsupported scan source " ++ name)))

  unfoldable pub marshal_json : Jsonb T → Result Text
  marshal_json j = if j.null then ok (codes "null") else json.marshal j.content

  abbrev read : T × Option Error → Jsonb T × Option Error
  read (d, e) = (record { content = d; null = false }, e)

  unfoldable pub unmarshal_json : Jsonb T → Text → Jsonb T × Option Error
  unmarshal_json j b =
      if b == codes "null" then (null_column, none) else read (json.unmarshal b j.content)

  unfoldable pub must_get : Jsonb T → Result T
  must_get j = if j.null then err (sentinel Sentinel.jsonb_null) else ok j.content
