-- ===== src/Mongo/Tests.antt =====
-- Runs of the generic repository on concrete inputs.
use Prim.Native.String.{◌++◌ as join}
use ecommerce_commons.Prelude.{
  some, Option, pos, eq_int, str_eq, not, ◌||◌, ℕ, String, true, false, none, List, [], ◌∷◌, map,
  length, ◌≡◌, ◌≢◌, refl, arith, ◌==◌, if◌then◌else◌, inl, inr,
}
use ecommerce_commons.Database.{fine, refused, lost}
use ecommerce_commons.Mongo.Collection.{find_one, find_all, replace_one, exists_one}
use ecommerce_commons.Mongo.Config.{
  MongoConfig, Url, Packages, build_uri, validate_mongo, validate_write_concern,
  validate_read_concern, validate_read_preference,
}
use ecommerce_commons.Mongo.Config.Built.{ConcernsAgree, validated_builds}
use ecommerce_commons.Mongo.Config.Uri.{tenant_url, tenant_url_string}
use ecommerce_commons.Mongo.Repository.{
  EntityMapper, answer, failure, entity_not_found, insert, update, delete, find_by_id, exists,
  upsert_if_newer, total_pages, or_all,
}
use ecommerce_commons.Mongo.Repository.Writes.{find_entity}
use ecommerce_commons.Mongo.Repository.Versions.{
  Write, inserting, updating, upserting, write_all, stale,
}
use ecommerce_commons.Mongo.Repository.Locking.{one_writer_wins}
use ecommerce_commons.Mongo.Repository.Upserts.{never_skips}
use ecommerce_commons.Mongo.Repository.Newer.{IsAmong, project, projection_converges}
use ecommerce_commons.Mongo.Repository.Stored.{well, insert_round_trip}
use ecommerce_commons.Mongo.Repository.Pages.{read_pages, found, pages_cover}

record Item : Type 0 where
  id : String
  version : ℕ
  price : ℕ

abbrev item : String → ℕ → ℕ → Item
item id version price = record { id = id; version = version; price = price }

abbrev mapper : EntityMapper Item Item
mapper = record {
  to_entity = λ d. d;
  to_domain = λ e. e;
  get_id = λ e. e.id;
  get_version = λ e. e.version;
  set_version = λ v e. record e { version = v };
  get_version-set_version = λ v e. refl;
  get_id-set_version = λ v e. refl;
}

abbrev shelf : List Item
shelf = item "a" 1 10 ∷ item "b" 4 20 ∷ []

abbrev writes : List (Write Item)
writes =
    upserting fine (item "a" 7 5)
    ∷ updating lost true (item "b" 4 9)
    ∷ inserting refused (item "c" 0 1)
    ∷ []

abbrev won : List Item
won = (update mapper fine true (item "a" 1 30) shelf).1

one_writer_wins_example :
    ((update mapper fine true (item "a" 1 40) (write_all mapper writes won)).0
      ≡ failure (stale fine))
    × ((update mapper fine true (item "a" 1 40) (write_all mapper writes won)).1
        ≡ write_all mapper writes won)
unfolding find_one update replace_one
one_writer_wins_example =
    one_writer_wins mapper fine fine true true (item "a" 1 30) (item "a" 1 40) writes shelf
      (refl, (refl, tt)) refl refl refl

never_skips_example : (upsert_if_newer mapper fine (item "b" 3 1) shelf).0 ≢ answer false
unfolding find_one
never_skips_example = never_skips mapper fine (item "b" 3 1) shelf (refl, (refl, tt))

insert_round_trip_example :
    (find_by_id mapper well "c" (insert mapper fine (item "c" 0 1) shelf).1 ≡ answer (item "c" 0 1))
    × (exists mapper true "c" (insert mapper fine (item "c" 0 1) shelf).1 ≡ answer true)
    × (find_by_id mapper well "c"
          (delete mapper fine "c" (insert mapper fine (item "c" 0 1) shelf).1).1
        ≡ failure entity_not_found)
    × (find_entity mapper "a" (delete mapper fine "c" (insert mapper fine (item "c" 0 1) shelf).1).1
        ≡ find_entity mapper "a" shelf)
unfolding find_one insert exists_one
insert_round_trip_example =
    insert_round_trip mapper (item "c" 0 1) shelf (refl, (refl, tt)) refl "a"

-- The first version of `a` arrives last, and twice.
abbrev events : List Item
events = item "a" 2 8 ∷ item "a" 1 10 ∷ item "a" 1 10 ∷ []

abbrev in_order : List Item
in_order = item "a" 1 10 ∷ item "a" 2 8 ∷ []

abbrev price_of : ℕ → ℕ
price_of v = if v == 1 then 10 else 8

abbrev published : String → ℕ → Item
published k v = item k v (price_of v)

in_history : (d : Item) → IsAmong d events → IsAmong d in_order
in_history d (inl e) = inr (inl e)
in_history d (inr (inl e)) = inl e
in_history d (inr (inr (inl e))) = inl e
in_history d (inr (inr (inr m))) = elim m [ ]

in_events : (d : Item) → IsAmong d in_order → IsAmong d events
in_events d (inl e) = inr (inl e)
in_events d (inr (inl e)) = inl e
in_events d (inr (inr m)) = elim m [ ]

projection_converges_example :
    find_entity mapper "a" (project mapper events [])
    ≡ find_entity mapper "a" (project mapper in_order [])
projection_converges_example =
    projection_converges mapper published "a" events in_order (refl, (refl, (refl, tt)))
      (refl, (refl, tt)) in_history in_events

abbrev as_stored : ℕ → Option (List Item → List Item)
as_stored i = some (λ c. c)

pages_cover_example :
    read_pages mapper none as_stored shelf 0 (total_pages (length (find_all (or_all none) shelf)) 1)
    ≡ map (λ e. e) (found mapper none as_stored shelf 0 0)
unfolding find_all
pages_cover_example = pages_cover mapper none as_stored shelf 0 (λ i. refl) refl (omega arith)

abbrev local : Url
local = record { scheme = "mongodb"; host = "db:27017"; path = ""; user = none; query = [] }

abbrev go_packages : Packages
go_packages = record {
  parse = λ s.
      if str_eq s "mongodb://db:27017"
      then some local
      else if str_eq s "mongodb://db:27017/shop"
      then some (record local { path = "/shop" })
      else none;
  print = λ u. join u.scheme (join "://" (join u.host u.path));
  atoi = λ s. if str_eq s "2" then some (pos 2) else none;
  takes = λ mode staleness. not (str_eq mode "primary") || eq_int staleness (pos 0);
}

-- A staleness with the mode "primary" is refused by the driver.
abbrev settings : MongoConfig
settings = record {
  connection_string = "mongodb://db:27017";
  host = "";
  port = pos 27017;
  replica_set = "";
  username = "";
  password = "";
  database = "shop";
  direct_connection = false;
  max_pool_size = 100;
  min_pool_size = 10;
  max_conn_idle_time = pos 300;
  connect_timeout = pos 5;
  server_select_timeout = pos 5;
  query_timeout = pos 10;
  write_concern = record { w = "2"; journal = none };
  read_concern = record { level = "majority" };
  read_preference = record { mode = "primary"; max_staleness = pos 90 };
  migrations = record { enabled = true; path = "/db/migrations" };
}

validated_builds_example : ConcernsAgree go_packages settings
unfolding validate_mongo validate_write_concern validate_read_concern validate_read_preference
validated_builds_example = validated_builds go_packages settings refl refl

tenant_url_string_example :
    tenant_url go_packages settings "shop_acme"
    ≡ some (build_uri go_packages (record settings { database = "shop_acme" }))
tenant_url_string_example =
    tenant_url_string go_packages settings "shop_acme" local refl refl refl refl refl
