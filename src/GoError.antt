-- ===== src/GoError.antt =====
-- Go's error values: a leaf of the package's own, a text made by `errors.New` or by `fmt.Errorf`
-- without `%w`, or an error that stands, by `%w`, between two texts of another one.
use Prim.Native.String.{◌++◌ as join}
use ecommerce_commons.Prelude.{String, Bool, false, Option, none}

pub data GoError (L : Type 0) : Type 0 where
  leaf : L → GoError L
  message : String → GoError L
  wrap : String → GoError L → String → GoError L

-- `errors.Is(err, target)` for the target that the test picks: the chain is walked.
unfoldable pub is : {L : Type 0} → (L → Bool) → GoError L → Bool
is test (leaf l) = test l
is test (message s) = false
is test (wrap before e after) = is test e

-- `errors.As(err, &target)` for the leaves that the test picks.
unfoldable pub as_leaf : {L A : Type 0} → (L → Option A) → GoError L → Option A
as_leaf pick (leaf l) = pick l
as_leaf pick (message s) = none
as_leaf pick (wrap before e after) = as_leaf pick e

-- `err.Error()`
unfoldable pub error_text : {L : Type 0} → (L → String) → GoError L → String
error_text show (leaf l) = show l
error_text show (message s) = s
error_text show (wrap before e after) = join before (join (error_text show e) after)
