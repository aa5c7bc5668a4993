-- ===== src/Consumer/Processor/Laws.antt =====
-- A proof rule for `backoff.Retry`: what holds however a run of it ends.
use ecommerce_commons.Prelude.{ℕ, zero, suc, Option, none, some, ◌≡◌, refl, Option-cases, inl, inr}
use ecommerce_commons.Consumer.{Error}
use ecommerce_commons.Consumer.Processor.{Attempt, succeeded, gave_up, failed, Retrier}

-- What to show of a property of the retries left, the state and the result.
pub record Rule {S : Type 0} (op : S → Attempt × S) (P : ℕ → S → Option Error × S → Type 0)
    : Type 0 where
  pub success : (n : ℕ) (s s' : S) → op s ≡ (succeeded, s') → P n s (none, s')
  pub giving_up : (n : ℕ) (s s' : S) (e : Error) → op s ≡ (gave_up e, s') → P n s (some e, s')
  pub context_end : (n : ℕ) (s s' : S) (e c : Error) → op s ≡ (failed e, s') → P n s (some c, s')
  pub exhausted : (s s' : S) (e : Error) → op s ≡ (failed e, s') → P 0 s (some e, s')
  pub again :
      (n : ℕ) (s s' : S) (e : Error) (r : Option Error × S)
      → op s ≡ (failed e, s')
      → P n s' r
      → P (suc n) s r

module _ (retrier : Retrier) {S : Type 0} (op : S → Attempt × S) (ended : S → Option Error)
    {P : ℕ → S → Option Error × S → Type 0} (rule : Rule op P) where
  pub retry_ind : (n : ℕ) (s : S) → P n s (retrier.retry op ended n s)
  retry_ind zero s = first (op s) refl
    where
      first : (a : Attempt × S) → op s ≡ a → P zero s (retrier.retry op ended zero s)
      first (succeeded, s') e = rw (retrier.on_success op ended zero s e) (rule.success zero s s' e)
      first (gave_up x, s') e =
          rw (retrier.on_permanent op ended zero s e) (rule.giving_up zero s s' x e)
      first (failed x, s') e = elim (Option-cases (ended s')) [
        | inl going ↦ rw (retrier.on_exhausted op ended s e going) (rule.exhausted s s' x e)
        | inr (c, over) ↦
            rw (retrier.on_context_end op ended zero s e over) (rule.context_end zero s s' x c e)
      ]
  retry_ind (suc n) s = first (retry_ind n) (op s) refl
    where
      first :
          ((s' : S) → P n s' (retrier.retry op ended n s'))
          → (a : Attempt × S) → op s ≡ a
          → P (suc n) s (retrier.retry op ended (suc n) s)
      first rest (succeeded, s') e =
          rw (retrier.on_success op ended (suc n) s e) (rule.success (suc n) s s' e)
      first rest (gave_up x, s') e =
          rw (retrier.on_permanent op ended (suc n) s e) (rule.giving_up (suc n) s s' x e)
      first rest (failed x, s') e = elim (Option-cases (ended s')) [
        | inl going ↦
            rw (retrier.on_failure op ended n s e going) (rule.again n s s' x _ e (rest s'))
        | inr (c, over) ↦
            rw (retrier.on_context_end op ended (suc n) s e over)
              (rule.context_end (suc n) s s' x c e)
      ]
