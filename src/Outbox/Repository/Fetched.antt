-- ===== src/Outbox/Repository/Fetched.antt =====
-- The document that `FetchAndLock` returns, field by field, and the collection that it leaves.
use ecommerce_commons.Prelude.{
  ℕ, suc, ◌+◌, ◌*◌, ◌^◌, ◌<◌, min, false, true, ◌&&◌, ◌≡◌, ◌⊎◌, inl, inr, refl, arith, Option, none,
  some, [], ◌∷◌, ◌++◌, String, if◌then◌else◌, ap, sym, subst, ◌∙◌, str_eq, eq_iff, All, All-map,
}
use ecommerce_commons.Outbox.Repository.{
  Status, processing, sent, is_processing, OutboxEntity, Collection, before, is_due, sorts_before,
  lock, backoff, update_one, fetch_and_lock, has_id,
}
use ecommerce_commons.Outbox.Repository.Lease.{IsIn, IsFirst, fetch_and_lock_found}
use ecommerce_commons.Outbox.Repository.Updates.{IsKeyed}

-- What a fetch at this time makes of a document: nothing is changed but the lock, the number of attempts
-- and the time of the next one.
abbrev pub leased : ℕ → ℕ → OutboxEntity → OutboxEntity
leased max_backoff now e = record e {
  lock_expires_at = some (now + 30000);
  attempts_to_send = suc e.attempts_to_send;
  next_attempt_after = some (now + min (30000 * 2 ^ e.attempts_to_send) max_backoff);
}

-- A time that is set and over.
abbrev pub Passed : ℕ → Option ℕ → Type 0
Passed now o = (t : ℕ) × (o ≡ some t) × (t < now)

-- The document is not sent, its next attempt is due, and its lock is over.
abbrev pub IsOpen : ℕ → OutboxEntity → Type 0
IsOpen now x =
    (x.status ≡ processing) × Passed now x.next_attempt_after × Passed now x.lock_expires_at

-- The earlier next attempt goes first, and the older document among equals.
abbrev pub Precedes : OutboxEntity → OutboxEntity → Type 0
Precedes x y =
    (s : ℕ) × (t : ℕ) × (x.next_attempt_after ≡ some s)
    × (y.next_attempt_after ≡ some t)
    × ((s < t) ⊎ ((s ≡ t) × (x.created_at < y.created_at)))

-- The document that a fetch at this time takes.
pub record IsNext (now : ℕ) (c : Collection) (e : OutboxEntity) : Type 0 where
  pub member : IsIn e c
  pub is_open : IsOpen now e
  pub none_before : All (λ x. IsOpen now x → Precedes x e → ⊥) c

-- The second collection is the first with one document in the place of another.
abbrev pub Replaced : OutboxEntity → OutboxEntity → Collection → Collection → Type 0
Replaced e d c c' =
    (front : Collection) × (back : Collection) × (c ≡ front ++ (e ∷ back))
    × (c' ≡ front ++ (d ∷ back))

lock_lem :
    (max_backoff now : ℕ) (e : OutboxEntity) → lock max_backoff now e ≡ leased max_backoff now e
unfolding lock backoff
lock_lem max_backoff now e =
    ap
      (λ n. record e {
        lock_expires_at = some (now + 30000);
        attempts_to_send = n;
        next_attempt_after = some (now + min (30000 * 2 ^ e.attempts_to_send) max_backoff);
      })
      (one_more e.attempts_to_send)
  where
    one_more : (n : ℕ) → n + 1 ≡ suc n
    one_more n = omega arith

update_one_absent :
    (id : String) (f : OutboxEntity → OutboxEntity) (c : Collection)
    → has_id id c ≡ false
    → update_one id f c ≡ c
unfolding update_one has_id
update_one_absent id f [] h = refl
update_one_absent id f (d ∷ c) h =
    let other : str_eq d.id id ≡ false = ground arith in
    let absent : has_id id c ≡ false = ground arith in
    rw other (ap (λ l. d ∷ l) (update_one_absent id f c absent))

pub has_id_of_IsIn : (d : OutboxEntity) (c : Collection) → IsIn d c → has_id d.id c ≡ true
unfolding has_id
has_id_of_IsIn d [] i = elim i [ ]
has_id_of_IsIn d (e ∷ c) (inl same) = ground (arith, eq_iff e.id d.id, ap (λ x. x.id) same)
has_id_of_IsIn d (e ∷ c) (inr there) = ground (arith, has_id_of_IsIn d c there)

update_one-Replaced :
    (f : OutboxEntity → OutboxEntity) (e : OutboxEntity) (c : Collection)
    → IsKeyed c
    → IsIn e c
    → Replaced e (f e) c (update_one e.id f c)
unfolding update_one
update_one-Replaced f e [] k i = elim i [ ]
update_one-Replaced f e (d ∷ c) k (inl same) =
    let here : str_eq d.id e.id ≡ true = ground (arith, eq_iff d.id e.id, ap (λ x. x.id) same) in
    let absent : has_id e.id c ≡ false = subst (λ x. has_id x.id c ≡ false) (sym same) k.0 in
    (
      [],
      c,
      ap (λ x. x ∷ c) (sym same),
      ap (λ b. (if b then f d else d) ∷ update_one e.id f c) here
          ∙ ap (λ l. f d ∷ l) (update_one_absent e.id f c absent)
          ∙ ap (λ x. f x ∷ c) (sym same),
    )
update_one-Replaced f e (d ∷ c) k (inr there) =
    let (front, back, was, is) = update_one-Replaced f e c k.1 there in
    let other : str_eq d.id e.id ≡ false =
      ground (arith, has_id_of_IsIn e c there, eq_iff d.id e.id, ap (λ i. has_id i c)) in
    (
      d ∷ front,
      back,
      ap (λ l. d ∷ l) was,
      ap (λ b. (if b then f d else d) ∷ update_one e.id f c) other ∙ ap (λ l. d ∷ l) is,
    )

passed : (now : ℕ) (o : Option ℕ) → before o now ≡ true → Passed now o
passed now none h = ground arith
passed now (some t) h = (t, refl, ground arith)

unsent : (s : Status) → is_processing s ≡ true → s ≡ processing
unsent processing h = refl
unsent sent h = ground arith

due-IsOpen : (now : ℕ) (x : OutboxEntity) → is_due now x ≡ true → IsOpen now x
unfolding is_due
due-IsOpen now x h = (
  unsent x.status (ground arith),
  passed now x.next_attempt_after (ground arith),
  passed now x.lock_expires_at (ground arith),
)

over : (now t : ℕ) → t < now → before (some t) now ≡ true
over now t h = ground arith

due-of : (now : ℕ) (x : OutboxEntity) → IsOpen now x → is_due now x ≡ true
unfolding is_due
due-of now x (p, (s, es, ls), (t, et, lt)) = rw (p, es, et, over now s ls, over now t lt) refl

sorts_before-of : (x y : OutboxEntity) → Precedes x y → sorts_before x y ≡ true
unfolding sorts_before
sorts_before-of x y (s, t, ex, ey, inl less) = rw (ex, ey) (ground arith)
sorts_before-of x y (s, t, ex, ey, inr (same, older)) = rw (ex, ey) (ground arith)

first-IsNext : (now : ℕ) (c : Collection) (e : OutboxEntity) → IsFirst now c e → IsNext now c e
first-IsNext now c e h = record {
  member = h.member;
  is_open = due-IsOpen now e h.due;
  none_before =
      All-map (λ x. (is_due now x && sorts_before x e) ≡ false) _ c
        (λ x later open_ first. ground (arith, due-of now x open_, sorts_before-of x e first))
        h.first;
}

-- In a collection with unique ids, `FetchAndLock` returns a document that was not sent, with its next
-- attempt and the end of its lock in the past, and no such document has an earlier next attempt, or the
-- same one and an earlier creation; it returns it with a lock of 30 s from now, one attempt more, and the
-- next attempt after 30 s doubled for each attempt made before, up to the maximum; nothing else of it is
-- changed, it takes the place of the old one in the collection, and no other document is changed.
pub fetch_and_lock_lem :
    (max_backoff now : ℕ) (c : Collection) {d : OutboxEntity} {c' : Collection}
    → IsKeyed c
    → fetch_and_lock max_backoff now c ≡ (some d, c')
    → (e : OutboxEntity) × IsNext now c e × (d ≡ leased max_backoff now e) × Replaced e d c c'
fetch_and_lock_lem max_backoff now c {d = d} {c' = c'} k h =
    let (e, first, is_d, is_c) = fetch_and_lock_found max_backoff now c h in
    let replaced : Replaced e (lock max_backoff now e) c
        (update_one e.id (lock max_backoff now) c) =
      update_one-Replaced (lock max_backoff now) e c k first.member in
    (
      e,
      first-IsNext now c e first,
      is_d ∙ lock_lem max_backoff now e,
      subst (λ x. Replaced e x c c') (sym is_d)
          (subst (Replaced e (lock max_backoff now e) c) (sym is_c) replaced),
    )
