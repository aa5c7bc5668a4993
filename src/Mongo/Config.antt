-- ===== src/Mongo/Config.antt =====
-- pkg/mongo/config.go: the settings of the connection, their defaults and validation, and what is made
-- of them for the driver. The packages net/url, strconv and readpref are parameters. Durations are `ℤ`
-- nanoseconds. An error is the text of its message, without the value it quotes.
pub mod Built
pub mod Uri
use Prim.Native.String.{◌++◌ as join}
use ecommerce_commons.Prelude.{
  ℕ, ◌*◌, String, Bool, true, false, not, ◌||◌, ◌&&◌, ◌==◌, Option, none, some, List, [], ◌∷◌, ◌++◌,
  ℤ, pos, lt_int, eq_int, str_eq, contains, second, minute, if◌then◌else◌,
}
use ecommerce_commons.Decimal.{decimal}

-- `WriteConcernConfig`
pub record WriteConcernConfig : Type 0 where
  pub w : String
  pub journal : Option Bool

-- `ReadConcernConfig`
pub record ReadConcernConfig : Type 0 where
  pub level : String

-- `ReadPreferenceConfig`
pub record ReadPreferenceConfig : Type 0 where
  pub mode : String
  pub max_staleness : ℤ

-- `MigrationConfig`
pub record MigrationConfig : Type 0 where
  pub enabled : Bool
  pub path : String

-- `Config`
pub record MongoConfig : Type 0 where
  pub connection_string : String
  pub host : String
  pub port : ℤ
  pub replica_set : String
  pub username : String
  pub password : String
  pub database : String
  pub direct_connection : Bool
  pub max_pool_size : ℕ
  pub min_pool_size : ℕ
  pub max_conn_idle_time : ℤ
  pub connect_timeout : ℤ
  pub server_select_timeout : ℤ
  pub query_timeout : ℤ
  pub write_concern : WriteConcernConfig
  pub read_concern : ReadConcernConfig
  pub read_preference : ReadPreferenceConfig
  pub migrations : MigrationConfig

-- `url.URL`, with the query's parameters before they are encoded.
pub record Url : Type 0 where
  pub scheme : String
  pub host : String
  pub path : String
  pub user : Option (String × String)
  pub query : List (String × String)

-- `url.Parse`, `URL.String`, `strconv.Atoi`, and whether `readpref.New` takes a mode with a staleness.
pub record Packages : Type 0 where
  pub parse : String → Option Url
  pub print : Url → String
  pub atoi : String → Option ℤ
  pub takes : String → ℤ → Bool

abbrev default_int : ℤ → ℤ → ℤ
default_int default x = if eq_int x (pos 0) then default else x

abbrev default_size : ℕ → ℕ → ℕ
default_size default n = if n == 0 then default else n

-- `ApplyDefaults`
unfoldable pub apply_mongo_defaults : MongoConfig → MongoConfig
apply_mongo_defaults c = record c {
  port = default_int (pos 27017) c.port;
  max_pool_size = default_size 100 c.max_pool_size;
  min_pool_size = default_size 10 c.min_pool_size;
  max_conn_idle_time = default_int (pos (5 * minute)) c.max_conn_idle_time;
  connect_timeout = default_int (pos (5 * second)) c.connect_timeout;
  server_select_timeout = default_int (pos (5 * second)) c.server_select_timeout;
  query_timeout = default_int (pos (10 * second)) c.query_timeout;
  migrations = record c.migrations {
    path = if str_eq c.migrations.path "" then "/db/migrations" else c.migrations.path;
  };
}

abbrev pub modes : List String
modes = "primary" ∷ "primaryPreferred" ∷ "secondary" ∷ "secondaryPreferred" ∷ "nearest" ∷ []

abbrev pub levels : List String
levels = "local" ∷ "majority" ∷ "linearizable" ∷ "available" ∷ "snapshot" ∷ []

-- `n, err := strconv.Atoi(c.W); err != nil || n < 0`
abbrev pub is_negative_or_error : Option ℤ → Bool
is_negative_or_error none = true
is_negative_or_error (some n) = lt_int n (pos 0)

unfoldable pub validate_write_concern : Packages → WriteConcernConfig → Option String
validate_write_concern go c =
    if str_eq c.w ""
    then none
    else if str_eq c.w "majority"
    then none
    else if is_negative_or_error (go.atoi c.w)
    then some "invalid write concern w"
    else none

unfoldable pub validate_read_concern : ReadConcernConfig → Option String
validate_read_concern c =
    if str_eq c.level ""
    then none
    else if not (contains c.level levels)
    then some "invalid read concern level"
    else none

unfoldable pub validate_read_preference : ReadPreferenceConfig → Option String
validate_read_preference c =
    if str_eq c.mode ""
    then none
    else if not (contains c.mode modes)
    then some "invalid read preference mode"
    else none

abbrev pub or_first : Option String → Option String → Option String
or_first none next = next
or_first (some e) next = some e

abbrev pub is_incomplete : MongoConfig → Bool
is_incomplete c =
    str_eq c.connection_string ""
    && (str_eq c.host "" || (eq_int c.port (pos 0) || str_eq c.database ""))

-- `Validate`
unfoldable pub validate_mongo : Packages → MongoConfig → Option String
validate_mongo go c =
    if is_incomplete c
    then some "invalid Mongo configuration: host, port, and database are required"
    else or_first (validate_write_concern go c.write_concern) (
        or_first (validate_read_concern c.read_concern)
          (validate_read_preference c.read_preference))

-- `writeconcern.WriteConcern`: `W` is a number or a text.
pub data Acknowledgment : Type 0 where
  number : ℤ → Acknowledgment
  tag : String → Acknowledgment

pub record WriteConcern : Type 0 where
  pub w : Option Acknowledgment
  pub journal : Option Bool

abbrev pub acknowledgment : String → Option ℤ → Acknowledgment
acknowledgment text none = tag text
acknowledgment text (some n) = number n

abbrev pub is_unset : Option Bool → Bool
is_unset none = true
is_unset (some b) = false

-- `BuildWriteConcern`
unfoldable pub build_write_concern : Packages → WriteConcernConfig → Option WriteConcern
build_write_concern go c =
    if str_eq c.w "" && is_unset c.journal
    then none
    else some (record {
      w = if str_eq c.w "" then none else some (acknowledgment c.w (go.atoi c.w));
      journal = c.journal;
    })

-- `BuildReadConcern`: the read concern is known by its level.
unfoldable pub build_read_concern : ReadConcernConfig → Option String
build_read_concern c = if contains c.level levels then some c.level else none

pub record ReadPref : Type 0 where
  pub mode : String
  pub max_staleness : Option ℤ

-- `BuildReadPreference`
unfoldable pub build_read_preference : Packages → ReadPreferenceConfig → Option ReadPref
build_read_preference go c =
    if not (contains c.mode modes)
    then none
    else if go.takes c.mode c.max_staleness
    then some (record {
      mode = c.mode;
      max_staleness = if lt_int (pos 0) c.max_staleness then some c.max_staleness else none;
    })
    else none

-- The URL from the single fields, with a path.
abbrev pub fields_url : MongoConfig → String → Url
fields_url c path = record {
  scheme = "mongodb";
  host = join (join c.host ":") (decimal c.port);
  path = path;
  user = if str_eq c.username "" then none else some (c.username, c.password);
  query =
      (if str_eq c.replica_set "" then [] else ("replicaSet", c.replica_set) ∷ [])
      ++ (if c.direct_connection then ("directConnection", "true") ∷ [] else []);
}

abbrev pub with_database : Packages → MongoConfig → Option Url → String
with_database go c none = c.connection_string
with_database go c (some u) =
    if str_eq u.path "" || str_eq u.path "/"
    then go.print (record u { path = join "/" c.database })
    else c.connection_string

-- `BuildURI`
unfoldable pub build_uri : Packages → MongoConfig → String
build_uri go c =
    if not (str_eq c.connection_string "")
    then if not (str_eq c.database "")
      then with_database go c (go.parse c.connection_string)
      else c.connection_string
    else go.print (fields_url c (join "/" c.database))

abbrev pub base_url : Packages → MongoConfig → Option Url → String
base_url go c none = go.print (fields_url c "")
base_url go c (some u) = go.print (record u { path = "" })

-- `BuildBaseURI`
unfoldable pub build_base_uri : Packages → MongoConfig → String
build_base_uri go c =
    if not (str_eq c.connection_string "")
    then base_url go c (go.parse c.connection_string)
    else go.print (fields_url c "")
