-- ===== src/Db/Jsonb/RoundTrip.antt =====
-- db/jsonb.go: what is written to a column is read back.
use aisphere_kit.Base.{
  Text, Bool, true, false, Option, none, some, Result, ok, err, is_empty, if◌then◌else◌, ◌≡◌, refl,
  sym, arith,
}
use aisphere_kit.Db.Jsonb.{Jsonb, Json, Source, null, string, null_column, marshalled, value, scan}

-- What a driver gives back for what Value answered.
abbrev pub source_of : Option Text → Source
source_of none = null
source_of (some b) = string b

module _ {T : Type 0} (json : Json T) where
  -- A text that Marshal writes is not empty, and Unmarshal reads the value from it into the zero value.
  pub record ReadsBack : Type 0 where
    pub not_empty : (d : T) (b : Text) → json.marshal d ≡ ok b → is_empty b ≡ false
    pub reads : (d : T) (b : Text) → json.marshal d ≡ ok b → json.unmarshal b json.zero ≡ (d, none)

  -- The value that is stored, where NULL has no data.
  abbrev pub stored : Jsonb T → Jsonb T
  stored j = if j.null then null_column json else j

  -- A column that holds a value.
  abbrev pub held : T → Jsonb T
  held d = record { content = d; null = false }

  abbrev pub fresh : Jsonb T
  fresh = record { content = json.zero; null = false }

  module _ (laws : ReadsBack) where
    scan-marshalled :
        (d : T) (r : Result Text) (v : Option Text)
        → json.marshal d ≡ r
        → marshalled json r ≡ ok v
        → scan json fresh (source_of v) ≡ (held d, none)
    unfolding scan
    scan-marshalled d (ok b) none e h = absurd (ground arith)
    scan-marshalled d (ok b) (some c) e h =
        let same : b ≡ c = cc in rw (sym same, laws.not_empty d b e, laws.reads d b e) refl
    scan-marshalled d (err x) v e h = absurd (ground arith)

    scan_null :
        (v : Option Text)
        → ok none ≡ ok v
        → scan json fresh (source_of v) ≡ (null_column json, none)
    unfolding scan
    scan_null none h = refl
    scan_null (some c) h = absurd (ground arith)

    -- What Value writes of a column, Scan reads back into a fresh one: NULL as NULL, and data as the
    -- same data.
    pub scan-value :
        (d : T) (n : Bool) (v : Option Text)
        → value json (record { content = d; null = n }) ≡ ok v
        → scan json fresh (source_of v) ≡ (stored (record { content = d; null = n }), none)
    unfolding value scan
    scan-value d true v h = scan_null v h
    scan-value d false v h = scan-marshalled d (json.marshal d) v refl h
