-- ===== src/Outbox/Repository/Lease.antt =====
-- Which document `FetchAndLock` takes, and what its lock means to later calls.
use ecommerce_commons.Prelude.{
  ℕ, ◌+◌, ◌≤◌, String, Bool, true, false, ◌&&◌, ◌≡◌, ◌⊎◌, inl, inr, refl, arith, Option, none, some,
  [], ◌∷◌, All, All-map, sym, subst, str_eq, if◌then◌else◌, Bool-cases, ap,
}
use ecommerce_commons.Outbox.Repository.{
  OutboxEntity, Collection, is_due, sorts_before, better, select, lock, update_one, fetch_and_lock,
  before,
}

-- The document is one of the collection's.
abbrev pub IsIn : OutboxEntity → Collection → Type 0
IsIn d [] = ⊥
IsIn d (e ∷ c) = (d ≡ e) ⊎ IsIn d c

-- What `select` finds is in the collection, is due, and no due document sorts before it.
pub record IsFirst (now : ℕ) (c : Collection) (d : OutboxEntity) : Type 0 where
  pub member : IsIn d c
  pub due : is_due now d ≡ true
  pub first : All (λ e. (is_due now e && sorts_before e d) ≡ false) c

some_inj : {d e : OutboxEntity} → some d ≡ some e → d ≡ e
some_inj h = cc

sorts_before_irrefl : (d : OutboxEntity) → sorts_before d d ≡ false
unfolding sorts_before
sorts_before_irrefl d = ground arith

sorts_before_trans :
    (d e f : OutboxEntity)
    → sorts_before d e ≡ false
    → sorts_before e f ≡ false
    → sorts_before d f ≡ false
unfolding sorts_before
sorts_before_trans d e f h k = ground arith

sorts_before_asymm : (d e : OutboxEntity) → sorts_before e d ≡ true → sorts_before d e ≡ false
unfolding sorts_before
sorts_before_asymm d e h = ground arith

abbrev pub Selected : ℕ → Collection → Option OutboxEntity → Type 0
Selected now c none = All (λ e. is_due now e ≡ false) c
Selected now c (some d) = IsFirst now c d

abbrev NotBefore : ℕ → OutboxEntity → OutboxEntity → Type 0
NotBefore now d e = (is_due now e && sorts_before e d) ≡ false

and_false_right : (a : Bool) {b : Bool} → b ≡ false → (a && b) ≡ false
and_false_right a {b} h = ground arith

NotBefore-trans :
    (now : ℕ) (d e x : OutboxEntity)
    → sorts_before e d ≡ false
    → NotBefore now e x
    → NotBefore now d x
NotBefore-trans now d e x h k = ground (arith, sorts_before_trans x e d)

step-Selected :
    (now : ℕ) (d : OutboxEntity) (c : Collection) (o : Option OutboxEntity) (due : Bool)
    → is_due now d ≡ due
    → Selected now c o
    → Selected now (d ∷ c) (if due then some (better d o) else o)
unfolding better
step-Selected now d c none true due h = record {
  member = inl refl;
  due = due;
  first =
      (and_false_right _ (sorts_before_irrefl d), All-map _ (NotBefore now d) c (λ x k. rw k) h);
}
step-Selected now d c (some e) true due h = elim (Bool-cases (sorts_before e d)) [
  | inl lower ↦ rw lower (record {
    member = inr h.member;
    due = h.due;
    first = (and_false_right _ (sorts_before_asymm d e lower), h.first);
  })
  | inr higher ↦ rw higher (record {
    member = inl refl;
    due = due;
    first = (
      and_false_right _ (sorts_before_irrefl d),
      All-map (NotBefore now e) (NotBefore now d) c (λ x. NotBefore-trans now d e x higher) h.first,
    );
  })
]
step-Selected now d c none false due h = (due, h)
step-Selected now d c (some e) false due h = record {
  member = inr h.member;
  due = h.due;
  first = (rw due, h.first);
}

-- What is selected is a document of the collection that is due, and no due document sorts before it;
-- if nothing is selected, nothing is due.
pub select-Selected : (now : ℕ) (c : Collection) → Selected now c (select now c)
unfolding select
select-Selected now [] = tt
select-Selected now (d ∷ c) =
    step-Selected now d c (select now c) (is_due now d) refl (select-Selected now c)

pub All-IsIn :
    (P : OutboxEntity → Type 0) (d : OutboxEntity) (c : Collection) → All P c → IsIn d c → P d
All-IsIn P d [] h i = elim i [ ]
All-IsIn P d (e ∷ c) h (inl same) = subst P (sym same) h.0
All-IsIn P d (e ∷ c) h (inr there) = All-IsIn P d c h.1 there

-- `FetchAndLock` returns a document that was due, and that no due document sorts before, with a lock
-- of 30 s, one attempt more, and the next attempt after the backoff for the attempts made before; in
-- the collection, that document alone is changed, and to just that.
pub fetch_and_lock_found :
    (max_backoff now : ℕ) (c : Collection) {d : OutboxEntity} {c' : Collection}
    → fetch_and_lock max_backoff now c ≡ (some d, c')
    → (e : OutboxEntity) × IsFirst now c e
      × (d ≡ lock max_backoff now e)
      × (c' ≡ update_one e.id (lock max_backoff now) c)
unfolding fetch_and_lock
fetch_and_lock_found max_backoff now c {d = d} {c' = c'} h =
    go (select now c) (select-Selected now c) h
  where
    go :
        (o : Option OutboxEntity)
        → Selected now c o
        → ◌≡◌ {A = Option OutboxEntity × Collection}
            (elim o [
              | none ↦ (none, c)
              | some e ↦ (some (lock max_backoff now e), update_one e.id (lock max_backoff now) c)
            ])
            (some d, c')
        → (e : OutboxEntity) × IsFirst now c e
          × (d ≡ lock max_backoff now e)
          × (c' ≡ update_one e.id (lock max_backoff now) c)
    go none s g = absurd (cc (ap (λ p. p.0) g))
    go (some e) s g = (e, s, sym (some_inj (ap (λ p. p.0) g)), sym (ap (λ p. p.1) g))

-- `FetchAndLock` finds nothing only if no document is due, and changes nothing then.
fetch_and_lock-none :
    (max_backoff now : ℕ) (c : Collection) {c' : Collection}
    → fetch_and_lock max_backoff now c ≡ (none, c')
    → (c' ≡ c) × All (λ e. is_due now e ≡ false) c
unfolding fetch_and_lock
fetch_and_lock-none max_backoff now c {c' = c'} h = go (select now c) (select-Selected now c) h
  where
    go :
        (o : Option OutboxEntity)
        → Selected now c o
        → ◌≡◌ {A = Option OutboxEntity × Collection}
            (elim o [
              | none ↦ (none, c)
              | some e ↦ (some (lock max_backoff now e), update_one e.id (lock max_backoff now) c)
            ])
            (none, c')
        → (c' ≡ c) × All (λ e. is_due now e ≡ false) c
    go none s g = (sym (ap (λ p. p.1) g), s)
    go (some e) s g = absurd (cc (ap (λ p. p.0) g))

-- After a lock, the documents of that id are locked until its end.
abbrev pub LockedUntil : String → ℕ → OutboxEntity → Type 0
LockedUntil id t x = (str_eq x.id id && before x.lock_expires_at t) ≡ false

pub update_one-LockedUntil :
    (id : String) (max_backoff now now' : ℕ) (c : Collection)
    → now' ≤ now + 30000
    → All (LockedUntil id now') (update_one id (lock max_backoff now) c)
unfolding update_one lock
update_one-LockedUntil id max_backoff now now' [] h = tt
update_one-LockedUntil id max_backoff now now' (d ∷ c) h =
    (ground arith, update_one-LockedUntil id max_backoff now now' c h)

pub due-before :
    (now : ℕ) (d : OutboxEntity) → is_due now d ≡ true → before d.lock_expires_at now ≡ true
unfolding is_due
due-before now d h = ground arith

pub lock-id : (max_backoff now : ℕ) (d : OutboxEntity) → (lock max_backoff now d).id ≡ d.id
unfolding lock
lock-id max_backoff now d = refl
