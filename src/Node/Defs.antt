-- ===== src/Node/Defs.antt =====
-- node/node.go: the shadow of the node, one JSON document in a bolt bucket.
use baetyl.Base.{
  ◌≡◌, ◌⊎◌, ℕ, String, Bool, true, false, not, ◌&&◌, Option, none, some, [], any, ◌==◌, string_eq,
  nat_eq, if◌then◌else◌,
}
use baetyl.Base.Dict
use baetyl.Base.Dict.{Dict}

pub data Error : Type 0 where
  not_found key_exists decode encode put_failed merge_failed diff_failed commit_failed : Error
  bad_props not_string patch_failed : Error

pub data Result (A : Type 0) : Type 0 where
  ok : A → Result A
  err : Error → Result A

infixl 5 ◌>>=◌
abbrev pub ◌>>=◌ : {A B : Type 0} → Result A → (A → Result B) → Result B
err why >>= next = err why
ok x >>= next = next x

abbrev pub or_fail : {A : Type 0} → Error → Option A → Result A
or_fail e none = err e
or_fail e (some a) = ok a

-- `map[string]interface{}`; a nil map is `none` in the fields of a node.
abbrev pub Doc : Type 0 → Type 0
Doc V = Dict String V

-- `v1.Node`, with the fields that this file sets.
pub record Shadow (V : Type 0) : Type 0 where
  pub created : ℕ
  pub desire : Option (Doc V)
  pub report : Option (Doc V)

-- What node.go calls: JSON, the operations of baetyl-go on documents, and bolt. A cell is what the
-- bucket has under the one key.
pub record Lib : Type 1 where
  pub Value : Type 0
  pub Bytes : Type 0
  pub len : Bytes → ℕ
  pub marshal : Shadow Value → Option Bytes
  pub unmarshal : Bytes → Option (Shadow Value)
  pub merge : Doc Value → Doc Value → Option (Doc Value)
  pub diff_with_nil : Option (Doc Value) → Option (Doc Value) → Option (Doc Value)
  pub patch : Doc Value → Doc Value → Option (Doc Value)
  pub as_map : Value → Option (Doc Value)
  pub of_map : Doc Value → Value
  pub is_nil : Value → Bool
  pub is_string : Value → Bool
  pub put : Bytes → Option Bytes → Option (Option Bytes)
  pub update :
      (A : Type 0)
      → (Option Bytes → Result (A × Option Bytes))
      → Option Bytes
      → Result A × Option Bytes

-- What bolt promises: a written value is read back, and a transaction whose function fails, or whose
-- commit does, leaves the bucket as it was.
pub record IsTransactional (lib : Lib) : Type 1 where
  pub put_reads : (b : lib.Bytes) (c c' : Option lib.Bytes) → lib.put b c ≡ some c' → c' ≡ some b
  pub update_fails :
      (A : Type 0) (f : Option lib.Bytes → Result (A × Option lib.Bytes)) (c : Option lib.Bytes)
      (e : Error)
      → f c ≡ err e
      → lib.update A f c ≡ (err e, c)
  pub update_runs :
      (A : Type 0) (f : Option lib.Bytes → Result (A × Option lib.Bytes)) (c c' : Option lib.Bytes)
      (a : A)
      → f c ≡ ok (a, c')
      → (lib.update A f c ≡ (ok a, c')) ⊎ ((e : Error) × (lib.update A f c ≡ (err e, c)))

module _ (lib : Lib) where
  open lib use {
    Value, Bytes, len, marshal, unmarshal, merge, diff_with_nil, patch, as_map, of_map, is_nil,
    is_string, put, update,
  }

  abbrev pub Cell : Type 0
  Cell = Option Bytes

  -- `prev := bucket.Get(n.id); if len(prev) == 0 { return bh.ErrNotFound }; json.Unmarshal(prev, m)`
  unfoldable pub load : Cell → Result (Shadow Value)
  load none = err not_found
  load (some b) = if len b == 0 then err not_found else or_fail decode (unmarshal b)

  unfoldable pub get : Cell → Result (Shadow Value)
  unfolding load
  get cell = load cell

  -- `json.Marshal(m)`, `bucket.Put(n.id, curr)` and the difference that is returned.
  unfoldable pub save : Shadow Value → Cell → Result (Doc Value × Cell)
  save m cell = do
    curr ← or_fail encode (marshal m)
    cell' ← or_fail put_failed (put curr cell)
    delta ← or_fail diff_failed (diff_with_nil m.desire m.report)
    ok (delta, cell')

  -- `if m.Desire == nil || override { m.Desire = desired } else { m.Desire.Merge(desired) }`
  unfoldable pub new_desire : Option (Doc Value) → Doc Value → Bool → Result (Doc Value)
  new_desire old desired true = ok desired
  new_desire none desired false = ok desired
  new_desire (some old) desired false = or_fail merge_failed (merge old desired)

  unfoldable pub desire_body : Doc Value → Bool → Cell → Result (Doc Value × Cell)
  unfolding load save new_desire
  desire_body desired override cell = do
    m ← load cell
    d ← new_desire m.desire desired override
    save (record m { desire = some d }) cell

  unfoldable pub desire : Doc Value → Bool → Cell → Result (Doc Value) × Cell
  unfolding desire_body
  desire desired override = update (Doc Value) (desire_body desired override)

  -- `if nodeInfo, ok := reported[key]; ok { m.Report[key] = nodeInfo }`
  unfoldable pub put_over : String → Doc Value → Doc Value → Doc Value
  put_over key reported report = elim (Dict.lookup key reported) [
    | none ↦ report
    | some v ↦ Dict.insert key v report
  ]

  unfoldable pub new_report : Option (Doc Value) → Doc Value → Bool → Result (Doc Value)
  unfolding put_over
  new_report old reported true = ok reported
  new_report none reported false = ok reported
  new_report (some old) reported false = do
    merged ← or_fail merge_failed (merge old reported)
    ok (put_over "nodestats" reported (put_over "node" reported merged))

  unfoldable pub report_body : Doc Value → Bool → Cell → Result (Doc Value × Cell)
  unfolding load save new_report
  report_body reported override cell = do
    m ← load cell
    r ← new_report m.report reported override
    save (record m { report = some r }) cell

  unfoldable pub report : Doc Value → Bool → Cell → Result (Doc Value) × Cell
  unfolding report_body
  report reported override = update (Doc Value) (report_body reported override)

  -- `insert`: a document of some length is kept.
  unfoldable pub insert_body : Shadow Value → Cell → Result (Unit {0} × Cell)
  insert_body m none = do
    b ← or_fail encode (marshal m)
    cell' ← or_fail put_failed (put b none)
    ok (tt, cell')
  insert_body m (some old) = if not (len old == 0) then err key_exists else do
    b ← or_fail encode (marshal m)
    cell' ← or_fail put_failed (put b (some old))
    ok (tt, cell')

  unfoldable pub insert : Shadow Value → Cell → Result (Unit {0}) × Cell
  unfolding insert_body
  insert m = update Unit (insert_body m)

  abbrev pub tolerates : Result (Unit {0}) → Bool
  tolerates (ok _) = true
  tolerates (err key_exists) = true
  tolerates (err _) = false

  abbrev pub forget : Result (Doc Value) → Result (Unit {0})
  forget (ok _) = ok tt
  forget (err e) = err e

  -- `NewNode`: the document is created unless there is one, and the core info is reported.
  unfoldable pub new_node : ℕ → Doc Value → Cell → Result (Unit {0}) × Cell
  unfolding insert report
  new_node now core cell =
      let (r, cell') =
        insert (record { created = now; desire = some []; report = some core }) cell in
      if tolerates r
      then (let (d, cell'') = report core false cell' in (forget d, cell''))
      else (r, cell')

  -- The properties under `nodeprops` of a document: none is an empty map.
  unfoldable pub props_of : String → Option (Doc Value) → Result (Doc Value)
  props_of key none = ok []
  props_of key (some doc) = elim (Dict.lookup key doc) [
    | none ↦ ok []
    | some v ↦ if is_nil v then ok [] else or_fail bad_props (as_map v)
  ]

  -- `GetNodeProperties`, on `(report, desire)`
  unfoldable pub get_node_properties : String → Cell → Result (Doc Value × Doc Value)
  unfolding get props_of
  get_node_properties key cell = do
    m ← get cell
    d ← props_of key m.desire
    r ← props_of key m.report
    ok (r, d)

  -- `if _, ok := v.(string); v != nil && !ok { return errors.New("value is not string") }`
  abbrev pub bad_value : String × Value → Bool
  bad_value (_, v) = not (is_nil v) && not (is_string v)

  -- `UpdateNodeProperties` up to its last call: the report that it will write, and the properties.
  unfoldable pub patched : String → Doc Value → Cell → Result (Doc Value × Doc Value)
  unfolding get props_of
  patched key delta cell = do
    m ← get cell
    if any bad_value delta then err not_string else do
      old ← props_of key m.report
      new ← or_fail patch_failed (patch old delta)
      ok (Dict.insert key (of_map new) (elim m.report [ none ↦ [] | some r ↦ r ]), new)

  -- Its last call: the whole report is written over what the cell has by then.
  unfoldable pub write_props : Doc Value × Doc Value → Cell → Result (Doc Value) × Cell
  unfolding report
  write_props (whole, new) cell =
      let (r, cell') = report whole true cell in
      elim r [ ok _ ↦ (ok new, cell') | err e ↦ (err e, cell') ]

  unfoldable pub update_node_properties : String → Doc Value → Cell → Result (Doc Value) × Cell
  unfolding patched write_props
  update_node_properties key delta cell = elim (patched key delta cell) [
    | ok w ↦ write_props w cell
    | err e ↦ (err e, cell)
  ]
