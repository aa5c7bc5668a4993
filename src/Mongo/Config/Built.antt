-- ===== src/Mongo/Config/Built.antt =====
-- What a configuration that passed its validation makes of its three concerns.
use ecommerce_commons.Prelude.{
  String, Bool, true, false, not, ◌&&◌, Option, none, some, ℤ, pos, lt_int, str_eq, str_eq→≡,
  str_ne→≢, contains, if◌then◌else◌, ◌≡◌, ◌≢◌, refl, arith, ap, sym, subst, ◌∙◌,
}
use ecommerce_commons.Mongo.Config.{
  WriteConcernConfig, ReadConcernConfig, ReadPreferenceConfig, MongoConfig, Packages, modes, levels,
  is_negative_or_error, validate_write_concern, validate_read_concern, validate_read_preference,
  or_first, is_incomplete, validate_mongo, Acknowledgment, number, tag, acknowledgment,
  WriteConcern, build_write_concern, is_unset, build_read_concern, ReadPref, build_read_preference,
}

abbrev pub is_built : {A : Type 0} → Option A → Bool
is_built none = false
is_built (some a) = true

-- Nothing for the empty text, the tag "majority" for that text, and for another one the number that it
-- spells, which is not negative.
abbrev pub IsValid : (String → Option ℤ) → String → Option Acknowledgment → Type 0
IsValid atoi text none = text ≡ ""
IsValid atoi text (some (number n)) =
    (text ≢ "") × (atoi text ≡ some n) × (lt_int n (pos 0) ≡ false)
IsValid atoi text (some (tag t)) = (text ≡ "majority") × (t ≡ "majority")

both : (a b : Option String) → or_first a b ≡ none → (a ≡ none) × (b ≡ none)
both none b h = (refl, h)
both (some e) b h = ground arith

-- The empty text is no level and no mode.
blank_level : (x : String) → str_eq x "" ≡ true → contains x levels ≡ false
blank_level x e = ap (λ y. contains y levels) (str_eq→≡ x "" e)

blank_mode : (x : String) → str_eq x "" ≡ true → contains x modes ≡ false
blank_mode x e = ap (λ y. contains y modes) (str_eq→≡ x "" e)

abbrev checked : Bool → Bool → String → Option String
checked blank known e = if blank then none else if not known then some e else none

read_concern_lem :
    (c : ReadConcernConfig)
    → validate_read_concern c ≡ none
    → is_built (build_read_concern c) ≡ not (str_eq c.level "")
unfolding validate_read_concern build_read_concern
read_concern_lem c = by_case (str_eq c.level "") (contains c.level levels) (blank_level c.level)
  where
    by_case :
        (blank known : Bool)
        → (blank ≡ true → known ≡ false)
        → checked blank known "invalid read concern level" ≡ none
        → is_built (if known then some c.level else none) ≡ not blank
    by_case true true e h = ground (arith, e refl)
    by_case true false e h = refl
    by_case false true e h = refl
    by_case false false e h = ground (arith, h)

read_preference_lem :
    (go : Packages) (c : ReadPreferenceConfig)
    → validate_read_preference c ≡ none
    → is_built (build_read_preference go c)
      ≡ (not (str_eq c.mode "") && go.takes c.mode c.max_staleness)
unfolding validate_read_preference build_read_preference
read_preference_lem go c =
    by_case (str_eq c.mode "") (contains c.mode modes) (go.takes c.mode c.max_staleness)
      (blank_mode c.mode)
  where
    pref : ReadPref
    pref = record {
      mode = c.mode;
      max_staleness = if lt_int (pos 0) c.max_staleness then some c.max_staleness else none;
    }

    by_case :
        (blank known takes : Bool)
        → (blank ≡ true → known ≡ false)
        → checked blank known "invalid read preference mode" ≡ none
        → is_built (if not known then none else if takes then some pref else none)
          ≡ (not blank && takes)
    by_case true true takes e h = ground (arith, e refl)
    by_case true false takes e h = refl
    by_case false true true e h = refl
    by_case false true false e h = refl
    by_case false false takes e h = ground (arith, h)

-- The acknowledgment that is built of a text.
abbrev pub built_w : Option WriteConcern → Option Acknowledgment
built_w none = none
built_w (some wc) = wc.w

built_w_lem :
    (b u : Bool) (a : Acknowledgment) (j : Option Bool)
    → built_w
        (if b && u then none else some (record { w = if b then none else some a; journal = j }))
      ≡ (if b then none else some a)
built_w_lem true true a j = refl
built_w_lem true false a j = refl
built_w_lem false u a j = refl

-- A text that is no number is "majority", where that is no number.
majority :
    (go : Packages) (text : String)
    → go.atoi "majority" ≡ none
    → text ≡ "majority"
    → IsValid go.atoi text (some (acknowledgment text (go.atoi text)))
majority go text law e =
    subst (λ a. IsValid go.atoi text (some (acknowledgment text a))) (sym (ap go.atoi e ∙ law))
      (e, e)

numeric :
    (atoi : String → Option ℤ) (text : String) (o : Option ℤ)
    → text ≢ ""
    → atoi text ≡ o
    → checked false (not (is_negative_or_error o)) "invalid write concern w" ≡ none
    → IsValid atoi text (some (acknowledgment text o))
numeric atoi text none n a h = ground arith
numeric atoi text (some x) n a h = (n, a, by_sign (lt_int x (pos 0)) h)
  where
    by_sign : (b : Bool) → checked false (not b) "invalid write concern w" ≡ none → b ≡ false
    by_sign true h = ground arith
    by_sign false h = refl

write_concern_lem :
    (go : Packages) (c : WriteConcernConfig)
    → go.atoi "majority" ≡ none
    → validate_write_concern go c ≡ none
    → IsValid go.atoi c.w (built_w (build_write_concern go c))
unfolding validate_write_concern build_write_concern
write_concern_lem go c law h =
    subst (IsValid go.atoi c.w)
      (sym (
        built_w_lem (str_eq c.w "") (is_unset c.journal) (acknowledgment c.w (go.atoi c.w))
          c.journal))
      (by_case (str_eq c.w "") (str_eq c.w "majority") (str_eq→≡ c.w "") (str_ne→≢ c.w "")
        (str_eq→≡ c.w "majority") h)
  where
    check : Bool → Bool → Option String
    check blank major =
        if blank
        then none
        else if major
        then none
        else if is_negative_or_error (go.atoi c.w)
        then some "invalid write concern w"
        else none

    report : Bool → Option String
    report b = if b then some "invalid write concern w" else none

    flip : (b : Bool) → report b ≡ none → checked false (not b) "invalid write concern w" ≡ none
    flip true h = h
    flip false h = h

    by_case :
        (blank major : Bool)
        → (blank ≡ true → c.w ≡ "")
        → (blank ≡ false → c.w ≢ "")
        → (major ≡ true → c.w ≡ "majority")
        → check blank major ≡ none
        → IsValid go.atoi c.w (if blank then none else some (acknowledgment c.w (go.atoi c.w)))
    by_case true major e n m h = e refl
    by_case false true e n m h = majority go c.w law (m refl)
    by_case false false e n m h =
        numeric go.atoi c.w (go.atoi c.w) (n refl) refl
          (flip (is_negative_or_error (go.atoi c.w)) h)

-- The three concerns that are built, against the settings.
abbrev pub ConcernsAgree : Packages → MongoConfig → Type 0
ConcernsAgree go c =
    IsValid go.atoi c.write_concern.w (built_w (build_write_concern go c.write_concern))
    × (is_built (build_read_concern c.read_concern) ≡ not (str_eq c.read_concern.level ""))
    × (is_built (build_read_preference go c.read_preference) ≡ (
        not (str_eq c.read_preference.mode "")
        && go.takes c.read_preference.mode c.read_preference.max_staleness))

-- If a configuration passes its validation, and "majority" is no number: the write concern that is
-- built asks for nothing only if `w` is empty, for "majority" only if `w` is that, and for a number only
-- if `w` is not empty and spells it, and it is not negative; a read concern is built exactly if a level
-- is given; a read preference is built exactly if a mode is given that the driver takes with the
-- staleness.
pub validated_builds :
    (go : Packages) (c : MongoConfig)
    → go.atoi "majority" ≡ none
    → validate_mongo go c ≡ none
    → ConcernsAgree go c
unfolding validate_mongo
validated_builds go c law h = by_case (is_incomplete c) h
  where
    rest : Option String
    rest = or_first (validate_write_concern go c.write_concern) (
        or_first (validate_read_concern c.read_concern)
          (validate_read_preference c.read_preference))

    parts : rest ≡ none → ConcernsAgree go c
    parts e =
        let first = both (validate_write_concern go c.write_concern) _ e in
        let second =
          both (validate_read_concern c.read_concern) (validate_read_preference c.read_preference)
            first.1 in
        (
          write_concern_lem go c.write_concern law first.0,
          read_concern_lem c.read_concern second.0,
          read_preference_lem go c.read_preference second.1,
        )

    by_case :
        (b : Bool)
        → (if b
            then some "invalid Mongo configuration: host, port, and database are required"
            else rest)
          ≡ none
        → ConcernsAgree go c
    by_case true e = ground arith
    by_case false e = parts e
