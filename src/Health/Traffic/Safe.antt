-- ===== src/Health/Traffic/Safe.antt =====
-- Concurrent probes close the channel once.
use ecommerce_commons.Prelude.{
  ℕ, zero, suc, String, Bool, true, false, Option, none, some, List, [], ◌∷◌, ◌≡◌, ◌≢◌, ◌⊎◌, inl,
  inr, refl, arith, ◌>>=◌, contains, lookup, str_eq, eq_iff, if◌then◌else◌,
}
use ecommerce_commons.Health.{
  Component, Readiness, new_readiness, noop, mark, register, add_component, finish_mark, mark_found,
  mark_ready, call_marker, is_ready, take_once, close_kubernetes,
}
use ecommerce_commons.Health.Panics.{Knows, register-Knows, mark_found-Knows, mark_found-ne-none}
use ecommerce_commons.Health.Traffic.{
  Probed, Event, component_added, marker_used, ready_checked, open_checked, once_entered,
  channel_closed, check_ready, check_open, entered, enter_once, close_one, advance, advance_all,
  unprobed,
}

-- Every added name is non-empty, and every marker that is used was handed out before.
abbrev pub IsOrderly : List String → List Event → Type 0
IsOrderly known [] = Unit
IsOrderly known (component_added name now ∷ es) = (name ≢ "") × IsOrderly (name ∷ known) es
IsOrderly known (marker_used noop now ∷ es) = IsOrderly known es
IsOrderly known (marker_used (mark name) now ∷ es) =
    (contains name known ≡ true) × IsOrderly known es
IsOrderly known (ready_checked ∷ es) = IsOrderly known es
IsOrderly known (open_checked ∷ es) = IsOrderly known es
IsOrderly known (once_entered now ∷ es) = IsOrderly known es
IsOrderly known (channel_closed ∷ es) = IsOrderly known es

-- At most one goroutine is about to close the channel, and only while the channel is open.
abbrev pub ClosesOnce : Readiness → ℕ → Type 0
ClosesOnce r closing =
    ((r.kubernetes_ready_once ≡ false) × (r.kubernetes_ready_chan ≡ false) × (closing ≡ 0))
    ⊎ ((r.kubernetes_ready_once ≡ true) × (r.kubernetes_ready_chan ≡ false) × (closing ≡ 1))
    ⊎ ((r.kubernetes_ready_once ≡ true) × (r.kubernetes_ready_chan ≡ true) × (closing ≡ 0))

record IsSafe (known : List String) (s : Probed) : Type 0 where
  once_is_chan : s.readiness.ready_once ≡ s.readiness.ready_chan
  closes_once : ClosesOnce s.readiness s.closing
  knows : Knows known s.readiness

-- The calls under the mutex leave what Kubernetes was told as it is.
abbrev Untold : Readiness → Readiness → Type 0
Untold r r' =
    (r'.ready_once ≡ r'.ready_chan)
    × (r'.kubernetes_ready_once ≡ r.kubernetes_ready_once)
    × (r'.kubernetes_ready_chan ≡ r.kubernetes_ready_chan)

register-Untold :
    (name : String) (now : ℕ) (r : Readiness)
    → r.ready_once ≡ r.ready_chan
    → Untold r (register name now r).0
unfolding register
register-Untold name now r h = ground arith

finish_mark-Untold :
    (name : String) (now : ℕ) (c : Component) (r : Readiness) {r' : Readiness}
    → r.ready_once ≡ r.ready_chan
    → finish_mark name now c r ≡ some r'
    → Untold r r'
unfolding finish_mark
finish_mark-Untold name now c r h e = ground arith

mark_found-Untold :
    (name : String) (now : ℕ) (r : Readiness) (o : Option Component) {r' : Readiness}
    → r.ready_once ≡ r.ready_chan
    → mark_found name now r o ≡ some r'
    → Untold r r'
unfolding mark_found
mark_found-Untold name now r none h e = cc
mark_found-Untold name now r (some c) {r' = r'} h e =
    ground (arith, finish_mark-Untold name now c r {r' = r'} h)

-- A step that ended without a panic, in a safe state.
abbrev Ends : List String → Option Probed → Type 0
Ends known none = ⊥
Ends known (some s) = IsSafe known s

-- A state after a call under the mutex.
locked-IsSafe :
    (known known' : List String) (s : Probed) (r : Readiness)
    → IsSafe known s
    → Untold s.readiness r
    → Knows known' r
    → IsSafe known' (record s { readiness = r })
locked-IsSafe known known' s r safe (once, k_once, k_chan) knows = record {
  once_is_chan = once;
  closes_once = rw (k_once, k_chan) safe.closes_once;
  knows = knows;
}

added-Ends :
    (name : String) (now : ℕ) (known : List String) (s : Probed)
    → name ≢ ""
    → IsSafe known s
    → Ends (name ∷ known) (advance (component_added name now) s)
unfolding advance add_component
added-Ends name now known s n safe =
    let named : str_eq name "" ≡ false = ground (arith, eq_iff name "") in
    rw named (
      locked-IsSafe known (name ∷ known) s (register name now s.readiness).0 safe
        (register-Untold name now s.readiness safe.once_is_chan)
        (register-Knows name now known s.readiness safe.knows))

marked-Ends :
    (name : String) (now : ℕ) (known : List String) (s : Probed)
    → contains name known ≡ true
    → IsSafe known s
    → Ends known (advance (marker_used (mark name) now) s)
unfolding advance call_marker mark_ready
marked-Ends name now known s h safe =
    go (mark_found name now s.readiness (lookup name s.readiness.components)) refl
  where
    go :
        (o : Option Readiness)
        → mark_found name now s.readiness (lookup name s.readiness.components) ≡ o
        → Ends known (o >>= (λ r. some (record s { readiness = r })))
    go none e = mark_found-ne-none name now s.readiness _ safe.once_is_chan (safe.knows name h) e
    go (some r) e =
        locked-IsSafe known known s r safe
          (mark_found-Untold name now s.readiness _ safe.once_is_chan e)
          (mark_found-Knows name now known s.readiness _ safe.knows e)

ready_checked-Ends :
    (known : List String) (s : Probed) → IsSafe known s → Ends known (advance ready_checked s)
unfolding advance check_ready
ready_checked-Ends known s safe = go (is_ready s.readiness)
  where
    go : (b : Bool) → IsSafe known (if b then record s { ready_seen = suc s.ready_seen } else s)
    go true = record {
      once_is_chan = safe.once_is_chan;
      closes_once = safe.closes_once;
      knows = safe.knows;
    }
    go false = safe

open_checked-Ends :
    (known : List String) (s : Probed) (n : ℕ) → IsSafe known s → IsSafe known (check_open n s)
unfolding check_open
open_checked-Ends known s zero safe = safe
open_checked-Ends known s (suc n) safe = go s.readiness.kubernetes_ready_chan
  where
    go :
        (b : Bool)
        → IsSafe known (
            if b
            then record s { ready_seen = n }
            else record s { ready_seen = n; open_seen = suc s.open_seen })
    go true = record {
      once_is_chan = safe.once_is_chan;
      closes_once = safe.closes_once;
      knows = safe.knows;
    }
    go false = record {
      once_is_chan = safe.once_is_chan;
      closes_once = safe.closes_once;
      knows = safe.knows;
    }

once_entered-Ends :
    (now : ℕ) (known : List String) (s : Probed) (n : ℕ)
    → IsSafe known s
    → IsSafe known (enter_once now n s)
unfolding enter_once take_once
once_entered-Ends now known s zero safe = safe
once_entered-Ends now known s (suc n) safe = go s.readiness.kubernetes_ready_once refl
  where
    first :
        s.readiness.kubernetes_ready_once ≡ false
        → ClosesOnce s.readiness s.closing
        → (true ≡ true) × (s.readiness.kubernetes_ready_chan ≡ false) × (suc s.closing ≡ 1)
    first free c = ground arith

    go :
        (b : Bool)
        → s.readiness.kubernetes_ready_once ≡ b
        → IsSafe known (
            entered n s (
              if b
              then none
              else some (record s.readiness {
                kubernetes_ready_once = true;
                kubernetes_notified_at = now;
              })))
    go true taken = record {
      once_is_chan = safe.once_is_chan;
      closes_once = safe.closes_once;
      knows = safe.knows;
    }
    go false free = record {
      once_is_chan = safe.once_is_chan;
      closes_once = inr (inl (first free safe.closes_once));
      knows = safe.knows;
    }

channel_closed-Ends :
    (known : List String) (s : Probed) (n : ℕ)
    → s.closing ≡ n
    → IsSafe known s
    → Ends known (close_one n s)
unfolding close_one close_kubernetes
channel_closed-Ends known s zero e safe = safe
channel_closed-Ends known s (suc n) e safe =
    let (taken, open_, last) = claimed safe.closes_once in
    rw open_ (record {
      once_is_chan = safe.once_is_chan;
      closes_once = inr (inr (taken, refl, last));
      knows = safe.knows;
    })
  where
    claimed :
        ClosesOnce s.readiness s.closing
        → (s.readiness.kubernetes_ready_once ≡ true)
          × (s.readiness.kubernetes_ready_chan ≡ false)
          × (n ≡ 0)
    claimed c = ground arith

-- Once a step has ended well, the rest has to.
then-ne-none :
    (known : List String) (o : Option Probed) (es : List Event)
    → Ends known o
    → ((s : Probed) → IsSafe known s → advance_all es s ≢ none)
    → (o >>= advance_all es) ≢ none
then-ne-none known none es h rest = absurd h
then-ne-none known (some s) es h rest = rest s h

advance_all-ne-none :
    (es : List Event) (known : List String) (s : Probed)
    → IsOrderly known es
    → IsSafe known s
    → advance_all es s ≢ none
unfolding advance_all
advance_all-ne-none [] known s h safe = ground arith
advance_all-ne-none (component_added name now ∷ es) known s h safe =
    then-ne-none (name ∷ known) _ es (added-Ends name now known s h.0 safe)
      λ t. advance_all-ne-none es (name ∷ known) t h.1
advance_all-ne-none (marker_used noop now ∷ es) known s h safe =
    then-ne-none known _ es (unfold advance call_marker in safe)
      λ t. advance_all-ne-none es known t h
advance_all-ne-none (marker_used (mark name) now ∷ es) known s h safe =
    then-ne-none known _ es (marked-Ends name now known s h.0 safe)
      λ t. advance_all-ne-none es known t h.1
advance_all-ne-none (ready_checked ∷ es) known s h safe =
    then-ne-none known _ es (ready_checked-Ends known s safe) λ t. advance_all-ne-none es known t h
advance_all-ne-none (open_checked ∷ es) known s h safe =
    then-ne-none known _ es (unfold advance in open_checked-Ends known s s.ready_seen safe)
      λ t. advance_all-ne-none es known t h
advance_all-ne-none (once_entered now ∷ es) known s h safe =
    then-ne-none known _ es (unfold advance in once_entered-Ends now known s s.open_seen safe)
      λ t. advance_all-ne-none es known t h
advance_all-ne-none (channel_closed ∷ es) known s h safe =
    then-ne-none known _ es (unfold advance in channel_closed-Ends known s s.closing refl safe)
      λ t. advance_all-ne-none es known t h

unprobed-IsSafe : (kubernetes : Bool) → IsSafe [] (unprobed kubernetes)
unfolding new_readiness
unprobed-IsSafe kubernetes = record {
  once_is_chan = refl;
  closes_once = inl (refl, refl, refl);
  knows = λ name g. cc;
}

-- However the steps of `AddComponent`, of the markers and of any number of concurrent
-- `MarkTrafficReady` follow one another from a new `Readiness`, none panics (no channel is closed twice,
-- no component is missing), if every added name is non-empty and every marker that is used was handed out
-- by an earlier add.
pub advance_all_no_panic :
    (kubernetes : Bool) (es : List Event)
    → IsOrderly [] es
    → advance_all es (unprobed kubernetes) ≢ none
advance_all_no_panic kubernetes es h =
    advance_all-ne-none es [] (unprobed kubernetes) h (unprobed-IsSafe kubernetes)
