-- ===== src/Consumer/Router.antt =====
-- pkg/kafka/consumer/router.go: the handler of an event is found by the event's type.
use Prim.Native.String.{◌++◌ as join}
use ecommerce_commons.Prelude.{
  String, Option, none, some, List, [], ◌≡◌, lookup, insert, lookup-insert, str_eq, if◌then◌else◌,
  arith,
}
use ecommerce_commons.GoError.{leaf, wrap}
use ecommerce_commons.Consumer.{Error, skip_message}

-- An event is the name of its protobuf type, the name of its type in Go, and its content. The map's keys,
-- which are types in Go, are the names of their protobuf types here.
pub record Event : Type 0 where
  pub type_name : String
  pub go_type : String
  pub content : String

-- What a call of a handler can do: return an error or none, or panic.
pub data Reply : Type 0 where
  returns : Option Error → Reply
  panics : (panic stack : String) → Reply

-- A handler reads and writes the world around it.
abbrev pub Handler : Type 0 → Type 0
Handler W = Event → W → Reply × W

-- `Router`: the map from types to handlers
abbrev pub Router : Type 0 → Type 0
Router W = List (String × Handler W)

unfoldable pub new_router : {W : Type 0} → Router W
new_router = []

-- `Register`: the latest handler of a type stays.
unfoldable pub register : {W : Type 0} → Router W → String → Handler W → Router W
register r type_name fn = insert type_name fn r

-- `Router.Process`
unfoldable pub route : {W : Type 0} → Router W → Handler W
route r event w = elim (lookup event.type_name r) [
  | none ↦
      let before = join "no handler for event type " (join event.go_type ": ") in
      (returns (some (wrap before (leaf skip_message) "")), w)
  | some handler ↦ handler event w
]

-- After a registration, events of that type go to the new handler, and all others where they went.
route-register :
    {W : Type 0} (r : Router W) (type_name : String) (fn : Handler W) (event : Event) (w : W)
    → route (register r type_name fn) event w
      ≡ (if str_eq type_name event.type_name then fn event w else route r event w)
unfolding route register
route-register r type_name fn event w = ground (arith, lookup-insert type_name event.type_name fn r)
