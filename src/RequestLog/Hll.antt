-- ===== src/RequestLog/Hll.antt =====
-- internal/repositories/hll_manager.go: the sketches of the values of each metadata key. The sketch is that
-- of github.com/axiomhq/hyperloglog, which is not part of this repository: a parameter (`Sketches`).
use majordomo_steward.Prelude.{
  ℕ, Bool, true, false, ◌&&◌, Option, none, some, List, [], ◌∷◌, ◌++◌, Str, str_eq, ◌==◌, ◌≡◌, refl,
  inl, inr, Bool-cases, if◌then◌else◌,
}
use majordomo_steward.Prelude.Int.{ℤ, pos, ◌+ℤ◌}

-- MarshalBinary gives none for an error; UnmarshalBinary too.
pub record Sketches (S : Type 0) : Type 0 where
  pub new_sketch : S
  pub insert : Str → S → S
  pub marshal : S → Option Str
  pub unmarshal : Str → Option S
  pub estimate : S → ℕ

pub record HllKey : Type 0 where
  pub api_key_id : ℕ
  pub key_name : Str

pub record HllEntry (S : Type 0) : Type 0 where
  pub hll : S
  pub dirty : Bool
  pub count : ℤ

-- The map of the manager, as its entries in some order.
abbrev pub Hlls : Type 0 → Type 0
Hlls S = List (HllKey × HllEntry S)

abbrev pub same_key : HllKey → HllKey → Bool
same_key k j = k.api_key_id == j.api_key_id && str_eq k.key_name j.key_name

-- An UPDATE of llm_requests_metadata_keys: the key, its state, its cardinality, and what is added to the
-- count of its requests.
pub record HllUpdate : Type 0 where
  pub key : HllKey
  pub hll_state : Str
  pub approx_cardinality : ℕ
  pub added_count : ℤ

module _ {S : Type 0} (sketches : Sketches S) where
  abbrev pub set_entry : HllKey → HllEntry S → Hlls S → Hlls S
  set_entry key entry [] = (key, entry) ∷ []
  set_entry key entry ((k, e) ∷ hlls) =
      let rest = set_entry key entry hlls in
      if same_key k key then (k, entry) ∷ hlls else (k, e) ∷ rest

  abbrev pub find_entry : HllKey → Hlls S → Option (HllEntry S)
  find_entry key [] = none
  find_entry key ((k, e) ∷ hlls) = if same_key k key then some e else find_entry key hlls

  -- A row of the SELECT is the key with the state; none of it is dirty.
  unfoldable pub load_rows : List (HllKey × Str) → Hlls S → Hlls S
  load_rows [] hlls = hlls
  load_rows ((key, state) ∷ rows) hlls = elim (sketches.unmarshal state) [
    | none ↦ load_rows rows hlls
    | some sketch ↦
        load_rows rows (set_entry key (record { hll = sketch; dirty = false; count = pos 0 }) hlls)
  ]

  abbrev pub entry_or_new : Option (HllEntry S) → HllEntry S
  entry_or_new none = record { hll = sketches.new_sketch; dirty = true; count = pos 0 }
  entry_or_new (some entry) = entry

  unfoldable pub add_value : ℕ → Str → Str → Hlls S → Hlls S
  add_value api_key_id key_name value hlls =
      let key : HllKey = record { api_key_id = api_key_id; key_name = key_name } in
      let entry = entry_or_new (find_entry key hlls) in
      set_entry key
        (record {
          hll = sketches.insert value entry.hll;
          dirty = true;
          count = entry.count +ℤ pos 1;
        })
        hlls

  -- `v.dirty = false; v.count = 0` for an entry that is dirty.
  abbrev pub cleaned : HllEntry S → HllEntry S
  cleaned e = if e.dirty then record e { dirty = false; count = pos 0 } else e

  -- The entries that are dirty, and the map with none of them dirty or counted.
  abbrev pub take_dirty : Hlls S → List (HllKey × HllEntry S) × Hlls S
  take_dirty [] = ([], [])
  take_dirty ((key, e) ∷ hlls) =
      let (to_flush, rest) = take_dirty hlls in
      (if e.dirty then (key, e) ∷ to_flush else to_flush, (key, cleaned e) ∷ rest)

  -- What is persisted of one entry: nothing where the sketch is not encoded or the update fails.
  abbrev pub persisted : Bool → HllKey → HllEntry S → Option Str → List HllUpdate
  persisted exec_ok key e none = []
  persisted exec_ok key e (some state) =
      if exec_ok
      then record {
        key = key;
        hll_state = state;
        approx_cardinality = sketches.estimate e.hll;
        added_count = e.count;
      }
        ∷ []
      else []

  -- The loop over the entries; `exec_ok` says which updates the database takes.
  abbrev pub flush_entries : (HllKey → Bool) → List (HllKey × HllEntry S) → List HllUpdate
  flush_entries exec_ok [] = []
  flush_entries exec_ok ((key, e) ∷ entries) =
      persisted (exec_ok key) key e (sketches.marshal e.hll) ++ flush_entries exec_ok entries

  -- Flush: the updates that the database takes, and the map after it.
  unfoldable pub flush_hlls : (HllKey → Bool) → Hlls S → List HllUpdate × Hlls S
  flush_hlls exec_ok hlls =
      let (to_flush, hlls') = take_dirty hlls in (flush_entries exec_ok to_flush, hlls')

  abbrev pub map_cleaned : Option (HllEntry S) → Option (HllEntry S)
  map_cleaned none = none
  map_cleaned (some e) = some (cleaned e)

  find_entry-take_dirty :
      (key : HllKey) (hlls : Hlls S)
      → find_entry key (take_dirty hlls).1 ≡ map_cleaned (find_entry key hlls)
  find_entry-take_dirty key [] = refl
  find_entry-take_dirty key ((k, e) ∷ hlls) = elim (Bool-cases (same_key k key)) [
    | inl same ↦ rw same refl
    | inr other ↦ rw other (find_entry-take_dirty key hlls)
  ]

  persisted_none :
      (exec_ok : HllKey → Bool) (entries : List (HllKey × HllEntry S))
      → ((key : HllKey) → exec_ok key ≡ false)
      → flush_entries exec_ok entries ≡ []
  persisted_none exec_ok [] h = refl
  persisted_none exec_ok ((key, e) ∷ entries) h =
      rw (on_state (exec_ok key) (sketches.marshal e.hll) (h key))
        (persisted_none exec_ok entries h)
    where
      on_state : (b : Bool) (o : Option Str) → b ≡ false → persisted b key e o ≡ []
      on_state b none n = refl
      on_state b (some state) n = rw n refl

  -- A flush whose updates the database refuses persists nothing, and still leaves each entry that was
  -- dirty marked clean and with a count of zero, its sketch unchanged, as every other flush does.
  flush_hlls-refused :
      (exec_ok : HllKey → Bool) (hlls : Hlls S) (key : HllKey)
      → ((k : HllKey) → exec_ok k ≡ false)
      → ((flush_hlls exec_ok hlls).0 ≡ [])
        × (find_entry key (flush_hlls exec_ok hlls).1 ≡ map_cleaned (find_entry key hlls))
  unfolding flush_hlls
  flush_hlls-refused exec_ok hlls key h =
      (persisted_none exec_ok (take_dirty hlls).0 h, find_entry-take_dirty key hlls)
