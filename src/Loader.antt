-- ===== src/Loader.antt =====
-- pkg/core/config/loader.go: how every configuration is loaded: override or source, then defaults,
-- then validation. The source (koanf) is a parameter.
use ecommerce_commons.Prelude.{
  String, Bool, true, false, ◌||◌, ◌≡◌, refl, Option, none, some, str_eq, subst, if◌then◌else◌,
}

-- `Configurable`
pub record Configurable (T : Type 0) : Type 0 where
  pub apply_defaults : T → T
  pub validate : T → Option String

-- What `Unmarshal` makes of a key: a value, or an error.
pub data Unmarshalled (T : Type 0) : Type 0 where
  value : T → Unmarshalled T
  failure : String → Unmarshalled T

-- `Source`
pub record Source (T : Type 0) : Type 0 where
  pub exists : String → Bool
  pub unmarshal : String → Unmarshalled T

pub data Loaded (T : Type 0) : Type 0 where
  loaded : T → Loaded T
  failed_to_load : String → Loaded T
  invalid : String → Loaded T

module _ {T : Type 0} (conf : Configurable T) where
  -- What `Validate` says of the configuration with its defaults.
  unfoldable pub verdict : T → Option String → Loaded T
  verdict cfg none = loaded cfg
  verdict cfg (some e) = invalid e

  unfoldable pub finish : T → Loaded T
  unfolding verdict
  finish cfg = let d = conf.apply_defaults cfg in verdict d (conf.validate d)

  unfoldable pub read : Unmarshalled T → Loaded T
  unfolding finish
  read (value cfg) = finish cfg
  read (failure e) = failed_to_load e

  -- `Load`; `empty` is the zero value of the type.
  unfoldable pub load : Source T → String → Option T → T → Loaded T
  unfolding finish read
  load source key (some cfg) empty = finish cfg
  load source key none empty =
      if str_eq key "" || source.exists key then read (source.unmarshal key) else finish empty

  -- A configuration that was loaded is some configuration with its defaults, and it is valid.
  pub record IsLoaded (cfg : T) : Type 0 where
    pub raw : T
    pub with_defaults : cfg ≡ conf.apply_defaults raw
    pub valid : conf.validate cfg ≡ none

  abbrev OnLoaded : (T → Type 0) → Loaded T → Type 0
  OnLoaded P (loaded cfg) = P cfg
  OnLoaded P (failed_to_load e) = Unit
  OnLoaded P (invalid e) = Unit

  finish_lem : (cfg : T) → OnLoaded IsLoaded (finish cfg)
  unfolding finish
  finish_lem cfg = go (conf.validate (conf.apply_defaults cfg)) refl
    where
      go :
          (o : Option String)
          → conf.validate (conf.apply_defaults cfg) ≡ o
          → OnLoaded IsLoaded (verdict (conf.apply_defaults cfg) o)
      go none e = record { raw = cfg; with_defaults = refl; valid = e }
      go (some x) e = tt

  read_lem : (u : Unmarshalled T) → OnLoaded IsLoaded (read u)
  unfolding read
  read_lem (value cfg) = finish_lem cfg
  read_lem (failure e) = tt

  load_cases :
      (source : Source T) (key : String) (o : Option T) (empty : T)
      → OnLoaded IsLoaded (load source key o empty)
  unfolding load
  load_cases source key (some cfg) empty = finish_lem cfg
  load_cases source key none empty = go (str_eq key "" || source.exists key)
    where
      go : (b : Bool) → OnLoaded IsLoaded (if b then read (source.unmarshal key) else finish empty)
      go true = read_lem (source.unmarshal key)
      go false = finish_lem empty

  -- Whatever is loaded, from an override, the source or neither, carries its defaults and passes its
  -- validation.
  pub load-IsLoaded :
      (source : Source T) (key : String) (override : Option T) (empty : T) {cfg : T}
      → load source key override empty ≡ loaded cfg
      → IsLoaded cfg
  load-IsLoaded source key override empty e =
      subst (OnLoaded IsLoaded) e (load_cases source key override empty)
