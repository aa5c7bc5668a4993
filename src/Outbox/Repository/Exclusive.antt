-- ===== src/Outbox/Repository/Exclusive.antt =====
-- What the lock of a fetched document means to all operations that follow.
use ecommerce_commons.Prelude.{
  ℕ, ◌+◌, ◌≤◌, String, Option, true, false, ◌≡◌, ◌≢◌, inl, inr, arith, none, some, List, [], ◌∷◌,
  ◌++◌, All, str_eq, eq_iff, Bool-cases, ap, ◌∙◌,
}
use ecommerce_commons.Outbox.Repository.{
  OutboxEntity, Collection, select, lock, update_one, fetch_and_lock, has_id, insert_one, as_sent,
  update_as_sent, before,
}
use ecommerce_commons.Outbox.Repository.Lease.{
  IsFirst, select-Selected, Selected, All-IsIn, LockedUntil, update_one-LockedUntil, due-before,
  lock-id, fetch_and_lock_found,
}
use ecommerce_commons.Outbox.Repository.Updates.{has_id-update_one}
use ecommerce_commons.Outbox.Repository.Fetched.{has_id_of_IsIn}
use ecommerce_commons.Outbox.Repository.Sent.{
  Op, insert, fetch, mark_sent, apply, apply_all, apply-keeps,
}

-- An operation that, if it is a fetch, is made at this time at the latest.
abbrev pub IsBy : ℕ → Op → Type 0
IsBy t (insert d) = Unit
IsBy t (fetch max_backoff now) = now ≤ t
IsBy t (mark_sent now ids) = Unit

module _ (id : String) (t : ℕ) where
  -- A due document at this time has another id.
  due-other :
      (now : ℕ) (c : Collection) (y : OutboxEntity)
      → now ≤ t
      → All (LockedUntil id t) c
      → IsFirst now c y
      → str_eq y.id id ≡ false
  due-other now c y l h first =
      let free = due-before now y first.due in
      let locked : LockedUntil id t y = All-IsIn (LockedUntil id t) y c h first.member in
      let late : before y.lock_expires_at t ≡ true = later y.lock_expires_at free in ground arith
    where
      later : (o : Option ℕ) → before o now ≡ true → before o t ≡ true
      later none e = ground arith
      later (some s) e = ground arith

  update_one-keeps :
      (i : String) (max_backoff now : ℕ) (c : Collection)
      → str_eq i id ≡ false
      → All (LockedUntil id t) c
      → All (LockedUntil id t) (update_one i (lock max_backoff now) c)
  unfolding update_one lock
  update_one-keeps i max_backoff now [] n h = tt
  update_one-keeps i max_backoff now (d ∷ c) n h = (
    ground (arith, eq_iff d.id i, eq_iff d.id id, eq_iff i id),
    update_one-keeps i max_backoff now c n h.1,
  )

  fetch-keeps :
      (max_backoff now : ℕ) (c : Collection)
      → now ≤ t
      → All (LockedUntil id t) c
      → All (LockedUntil id t) (fetch_and_lock max_backoff now c).1
  unfolding fetch_and_lock
  fetch-keeps max_backoff now c l h = go (select now c) (select-Selected now c)
    where
      go :
          (o : Option OutboxEntity)
          → Selected now c o
          → All
              (LockedUntil id t)
              (elim o as (λ _. Option OutboxEntity × Collection) [
                | none ↦ (none, c)
                | some d ↦ (some (lock max_backoff now d), update_one d.id (lock max_backoff now) c)
              ]).1
      go none s = h
      go (some d) s = update_one-keeps d.id max_backoff now c (due-other now c d l h s) h

  update_as_sent-keeps :
      (now : ℕ) (ids : List String) (c : Collection)
      → All (LockedUntil id t) c
      → All (LockedUntil id t) (update_as_sent now ids c)
  unfolding update_as_sent as_sent
  update_as_sent-keeps now ids [] h = tt
  update_as_sent-keeps now ids (d ∷ c) h = (ground arith, update_as_sent-keeps now ids c h.1)

  append-keeps :
      (d : OutboxEntity) (c : Collection)
      → str_eq d.id id ≡ false
      → All (LockedUntil id t) c
      → All (LockedUntil id t) (c ++ d ∷ [])
  append-keeps d [] n h = (ground arith, tt)
  append-keeps d (e ∷ c) n h = (h.0, append-keeps d c n h.1)

  apply-Locked :
      (op : Op) (c : Collection)
      → IsBy t op
      → has_id id c ≡ true
      → All (LockedUntil id t) c
      → All (LockedUntil id t) (apply op c)
  unfolding apply insert_one
  apply-Locked (insert d) c l p h = elim (Bool-cases (has_id d.id c)) [
    | inl taken ↦ rw taken h
    | inr free ↦
        let other : str_eq d.id id ≡ false = ground (arith, eq_iff d.id id, ap (λ i. has_id i c)) in
        rw free (append-keeps d c other h)
  ]
  apply-Locked (fetch max_backoff now) c l p h = fetch-keeps max_backoff now c l h
  apply-Locked (mark_sent now ids) c l p h = update_as_sent-keeps now ids c h

  apply_all-Locked :
      (ops : List Op) (c : Collection)
      → All (IsBy t) ops
      → has_id id c ≡ true
      → All (LockedUntil id t) c
      → All (LockedUntil id t) (apply_all ops c)
  unfolding apply_all
  apply_all-Locked [] c l p h = h
  apply_all-Locked (op ∷ ops) c l p h =
      apply_all-Locked ops (apply op c) l.1 ((apply-keeps op id c).0 p) (apply-Locked op c l.0 p h)

-- While the lock of a fetched document lasts, no fetch returns that document again, whatever insertions,
-- fetches and updates to `SENT` are made in between.
pub fetch_and_lock_exclusive :
    (max_backoff now max_backoff' now' : ℕ) (c : Collection) (ops : List Op) {d e : OutboxEntity}
    {c' c'' : Collection}
    → fetch_and_lock max_backoff now c ≡ (some d, c')
    → All (IsBy (now + 30000)) ops
    → now' ≤ now + 30000
    → fetch_and_lock max_backoff' now' (apply_all ops c') ≡ (some e, c'')
    → e.id ≢ d.id
fetch_and_lock_exclusive max_backoff now max_backoff' now' c ops {d = d} {e = e} {c' = c'} h by l k
      same =
    let (x, first, is_x, c'_is) = fetch_and_lock_found max_backoff now c h in
    let (y, y_first, is_y, _) = fetch_and_lock_found max_backoff' now' (apply_all ops c') k in
    let there : has_id x.id c' ≡ true =
      rw c'_is (has_id-update_one x.id x.id max_backoff now c ∙ has_id_of_IsIn x c first.member) in
    let all : All (LockedUntil x.id (now + 30000)) c' =
      rw c'_is (update_one-LockedUntil x.id max_backoff now (now + 30000) c (omega arith)) in
    let other =
      due-other x.id (now + 30000) now' (apply_all ops c') y l
        (apply_all-Locked x.id (now + 30000) ops c' by there all) y_first in
    ground (arith, lock-id max_backoff now x, lock-id max_backoff' now' y, eq_iff y.id x.id)
