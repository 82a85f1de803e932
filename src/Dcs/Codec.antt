-- ===== src/Dcs/Codec.antt =====
-- patroni/dcs/__init__.py: the parsers `from_node` of the values under the keys of the store. The
-- module `json` and `dateutil` are parameters; `none` is a `ValueError`.
use pennsignals_postgres.Base.{
  ℕ, String, ◌||◌, Option, none, some, List, [], ◌∷◌, map, ◌==◌, if◌then◌else◌,
}
use pennsignals_postgres.Base.Text.{split_at, strip}
use pennsignals_postgres.Json.{
  Value, null, str, obj, arr, Fields, end, get, truthy, Items, nil, cons,
}
use pennsignals_postgres.Dcs.{Schedule, Failover, ClusterConfig, SyncState, TimelineHistory}

pub record Codec : Type 0 where
  pub loads : String → Option Value
  pub dumps : Value → String
  -- `dateutil.parser.parse`
  pub parse_date : Value → Option Schedule

module _ (j : Codec) where
  -- What is not a dictionary counts as an empty one.
  abbrev dictionary : Option Value → Fields
  dictionary (some (obj d)) = d
  dictionary _ = end

  abbrev sync_data : Value → Fields
  sync_data (obj d) = d
  sync_data (str s) = if s == "" then end else dictionary (j.loads s)
  sync_data _ = end

  -- `SyncState.from_node`
  unfoldable pub sync_from_node : Option ℕ → Value → SyncState
  sync_from_node index value =
      let d = sync_data value in
      record { index = index; leader = get "leader" d; sync_standby = get "sync_standby" d }

  -- `Failover.from_node` gives a value, `None`, or an exception: of the date, or of `json`, which
  -- reads nothing but texts.
  pub data FromNode : Type 0 where
    made : Failover → FromNode
    absent : FromNode
    bad_date : FromNode
    type_error : FromNode

  abbrev pub with_date : ℕ → Fields → Option Schedule → FromNode
  with_date index d none = bad_date
  with_date index d (some s) = made (record {
    index = index;
    leader = get "leader" d;
    candidate = get "member" d;
    scheduled_at = some s;
  })

  abbrev pub from_data : ℕ → Fields → FromNode
  from_data index d =
      if truthy (get "scheduled_at" d)
      then with_date index d (j.parse_date (get "scheduled_at" d))
      else made (record {
        index = index;
        leader = get "leader" d;
        candidate = get "member" d;
        scheduled_at = none;
      })

  abbrev named : ℕ → Value → Value → FromNode
  named index leader candidate =
      if truthy leader || truthy candidate
      then made
          (record { index = index; leader = leader; candidate = candidate; scheduled_at = none })
      else absent

  -- The old form `leader:candidate`.
  abbrev from_words : ℕ → List String → FromNode
  from_words index (leader ∷ candidate ∷ rest) = named index (str leader) (str candidate)
  from_words index (leader ∷ []) = named index (str leader) null
  from_words index [] = absent

  abbrev from_loaded : ℕ → String → Option Value → FromNode
  from_loaded index s none = from_words index (map strip (split_at b':' s))
  from_loaded index s (some v) = from_data index (dictionary (some v))

  unfoldable pub failover_from_node : ℕ → Value → FromNode
  failover_from_node index (obj d) = from_data index d
  failover_from_node index (str s) =
      if s == "" then from_data index end else from_loaded index s (j.loads s)
  failover_from_node index v = if truthy v then type_error else from_data index end

  abbrev config_of : ℕ → Option Value → Option ℕ → ClusterConfig
  config_of index none modify_index = record { index = index; payload = end; modify_index = 0 }
  config_of index (some v) none = record {
    index = index;
    payload = dictionary (some v);
    modify_index = index;
  }
  config_of index (some v) (some m) = record {
    index = index;
    payload = dictionary (some v);
    modify_index = m;
  }

  -- `ClusterConfig.from_node`
  unfoldable pub config_from_node : ℕ → String → Option ℕ → ClusterConfig
  config_from_node index text modify_index = config_of index (j.loads text) modify_index

  abbrev items : Items → List Value
  items nil = []
  items (cons v vs) = v ∷ items vs

  abbrev lines_of : Option Value → List Value
  lines_of (some (arr vs)) = items vs
  lines_of _ = []

  -- `TimelineHistory.from_node`; a number is a `TypeError`.
  abbrev loaded : Value → Option Value
  loaded (str s) = j.loads s
  loaded _ = none

  unfoldable pub history_from_node : ℕ → Value → TimelineHistory
  history_from_node index value = record {
    index = index;
    value = value;
    lines = lines_of (loaded value);
  }
