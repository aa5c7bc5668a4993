-- ===== src/Health/Status.antt =====
-- `GetStatus`: the report on all components. `sort.Slice` is the library's sort by a strict order;
-- it is written here as an insertion sort, and names are distinct.
use mathlib.Core.List.Permᴰ
use mathlib.Core.List.{Permᴰ, Pairwise, Mem, mem-cons_self, mem-cons_of_mem}
use mathlib.Core.HLevel.{¬_prop}
use ecommerce_commons.Prelude.{
  ℕ, suc, inl, inr, Bool-cases, String, Bool, true, List, [], ◌∷◌, ◌≡◌, ◌≢◌, refl, arith, ◌∙◌, ap,
  sym, ltb, ◌&&◌, length, if◌then◌else◌, str_lt, str_lt_trans, str_lt_total, str_lt_asymm,
  str_lt_of_lt_of_not_lt, All,
}
use ecommerce_commons.Health.{Component, Readiness, is_ready}

-- `ComponentStatus`
pub record ComponentStatus : Type 0 where
  pub name : String
  pub ready : Bool
  pub started_at : ℕ
  pub ready_at : ℕ

-- `ReadinessStatus`
pub record ReadinessStatus : Type 0 where
  pub ready : Bool
  pub components : List ComponentStatus
  pub ready_at : ℕ
  pub kubernetes_notified_at : ℕ

abbrev status_of : Component → ComponentStatus
status_of c = record {
  name = c.name;
  ready = c.ready;
  started_at = c.started_at;
  ready_at = c.ready_at;
}

-- One step of the sort: an element goes in front of the first one that it is below.
unfoldable pub insert_status : ComponentStatus → List ComponentStatus → List ComponentStatus
insert_status s [] = s ∷ []
insert_status s (t ∷ ts) = if str_lt s.name t.name then s ∷ t ∷ ts else t ∷ insert_status s ts

-- The loop that collects the components, in whatever order the map yields them, and the sort.
unfoldable pub sorted_statuses : List (String × Component) → List ComponentStatus
sorted_statuses [] = []
sorted_statuses ((_, c) ∷ rest) = insert_status (status_of c) (sorted_statuses rest)

-- The loop for the latest `readyAt`, from a value that is later or not.
unfoldable pub latest : ℕ → List (String × Component) → ℕ
latest t [] = t
latest t ((_, c) ∷ rest) = latest (if ltb t c.ready_at then c.ready_at else t) rest

-- `GetStatus`
unfoldable pub get_status : Readiness → ReadinessStatus
get_status r = record {
  ready = is_ready r;
  components = sorted_statuses r.components;
  ready_at = if is_ready r && ltb 0 (length r.components) then latest 0 r.components else 0;
  kubernetes_notified_at = r.kubernetes_notified_at;
}

insert_status_comm :
    (a b : ComponentStatus) (l : List ComponentStatus)
    → a.name ≢ b.name
    → insert_status a (insert_status b l) ≡ insert_status b (insert_status a l)
unfolding insert_status
insert_status_comm a b [] n =
    ground
      (arith, str_lt_total a.name b.name, str_lt_total b.name a.name, str_lt_asymm a.name b.name)
insert_status_comm a b (d ∷ ds) n = ground (
  arith,
  insert_status_comm a b ds n,
  str_lt_total a.name b.name n,
  str_lt_asymm a.name b.name,
  str_lt_of_lt_of_not_lt a.name d.name b.name,
  str_lt_of_lt_of_not_lt b.name d.name a.name,
  str_lt_trans a.name b.name d.name,
  str_lt_trans b.name a.name d.name,
)

abbrev later : ℕ → String × Component → ℕ
later t e = if ltb t e.1.ready_at then e.1.ready_at else t

latest_comm :
    (t x y : ℕ)
    → (if ltb (if ltb t x then x else t) y then y else (if ltb t x then x else t))
      ≡ (if ltb (if ltb t y then y else t) x then x else (if ltb t y then y else t))
latest_comm t x y = ground arith

-- Different entries are of components with different names.
abbrev pub Distinct : List (String × Component) → Type 0
Distinct = Pairwise (λ d e. d.1.name ≢ e.1.name)

abbrev enter : String × Component → List ComponentStatus → List ComponentStatus
enter e l = insert_status (status_of e.1) l

ne_prop : (d e : String × Component) → IsProp (d.1.name ≢ e.1.name)
ne_prop d e = ¬_prop

ne_symm : (d e : String × Component) → d.1.name ≢ e.1.name → e.1.name ≢ d.1.name
ne_symm d e n h = n (sym h)

sorted_statuses-perm :
    {m m' : List (String × Component)}
    → Permᴰ m m'
    → Distinct m
    → sorted_statuses m ≡ sorted_statuses m'
unfolding sorted_statuses
sorted_statuses-perm Permᴰ.nil d = refl
sorted_statuses-perm (Permᴰ.cons {a = a} {b = b} {l₁ = l} {l₂ = l'} e p) (Pairwise.cons h d) =
    ap (λ x. enter x (sorted_statuses l)) e ∙ ap (enter b) (sorted_statuses-perm p d)
sorted_statuses-perm (Permᴰ.swap {a = a} {b = b} {b' = b'} {l = l} e f) (Pairwise.cons h d) =
    insert_status_comm (status_of a.1) (status_of b.1) (sorted_statuses l) (h b mem-cons_self)
    ∙ ap (λ x. enter b (enter x (sorted_statuses l))) e
    ∙ ap (λ x. enter x (enter b' (sorted_statuses l))) f
sorted_statuses-perm (Permᴰ.trans p q) d =
    sorted_statuses-perm p d ∙ sorted_statuses-perm q (Permᴰ.pairwise ne_prop ne_symm p d)

latest-perm : (t : ℕ) {m m' : List (String × Component)} → Permᴰ m m' → latest t m ≡ latest t m'
unfolding latest
latest-perm t Permᴰ.nil = refl
latest-perm t (Permᴰ.cons {b = b} {l₁ = l} e p) =
    ap (λ x. latest (later t x) l) e ∙ latest-perm (later t b) p
latest-perm t (Permᴰ.swap {a = a} {b = b} {b' = b'} {l = l} e f) =
    ap (λ x. latest x l) (latest_comm t a.1.ready_at b.1.ready_at)
    ∙ ap (λ x. latest (later (later t b) x) l) e
    ∙ ap (λ x. latest (later (later t x) b') l) f
latest-perm t (Permᴰ.trans p q) = latest-perm t p ∙ latest-perm t q

length-perm : {m m' : List (String × Component)} → Permᴰ m m' → length m ≡ length m'
length-perm Permᴰ.nil = refl
length-perm (Permᴰ.cons e p) = ap suc (length-perm p)
length-perm (Permᴰ.swap e f) = refl
length-perm (Permᴰ.trans p q) = length-perm p ∙ length-perm q

-- The report does not depend on the order in which the map yields the components, as long as they
-- have different names.
get_status-perm :
    (r : Readiness) (m : List (String × Component))
    → Permᴰ r.components m
    → Distinct r.components
    → get_status (record r { components = m }) ≡ get_status r
unfolding get_status
get_status-perm r m p d = rw (← sorted_statuses-perm p d, ← latest-perm 0 p, ← length-perm p)

-- Ascending by name, with no name twice.
abbrev pub IsSorted : List ComponentStatus → Type 0
IsSorted [] = Unit
IsSorted (s ∷ ts) = All (λ t. str_lt s.name t.name ≡ true) ts × IsSorted ts

All-lt_trans :
    (s t : ComponentStatus) (ts : List ComponentStatus)
    → str_lt s.name t.name ≡ true
    → All (λ u. str_lt t.name u.name ≡ true) ts
    → All (λ u. str_lt s.name u.name ≡ true) ts
All-lt_trans s t [] h k = tt
All-lt_trans s t (u ∷ us) h k = (str_lt_trans s.name t.name u.name h k.0, All-lt_trans s t us h k.1)

All-insert_status :
    (P : ComponentStatus → Type 0) (s : ComponentStatus) (ts : List ComponentStatus)
    → P s
    → All P ts
    → All P (insert_status s ts)
unfolding insert_status
All-insert_status P s [] p h = (p, tt)
All-insert_status P s (t ∷ ts) p h = elim (Bool-cases (str_lt s.name t.name)) [
  | inl e ↦ rw e (p, h)
  | inr e ↦ rw e (h.0, All-insert_status P s ts p h.1)
]

insert_status-IsSorted :
    (s : ComponentStatus) (ts : List ComponentStatus)
    → All (λ t. s.name ≢ t.name) ts
    → IsSorted ts
    → IsSorted (insert_status s ts)
unfolding insert_status
insert_status-IsSorted s [] n h = (tt, tt)
insert_status-IsSorted s (t ∷ ts) n h = elim (Bool-cases (str_lt s.name t.name)) [
  | inl e ↦ rw e ((e, All-lt_trans s t ts e h.0), h)
  | inr e ↦ rw e (
    All-insert_status _ s ts (str_lt_total s.name t.name n.0 e) h.0,
    insert_status-IsSorted s ts n.1 h.1,
  )
]

All-sorted_statuses :
    (P : ComponentStatus → Type 0) (m : List (String × Component))
    → All (λ e. P (status_of e.1)) m
    → All P (sorted_statuses m)
unfolding sorted_statuses
All-sorted_statuses P [] h = tt
All-sorted_statuses P (e ∷ m) h =
    All-insert_status P (status_of e.1) _ h.0 (All-sorted_statuses P m h.1)

All_of_mem :
    {P : String × Component → Type 0} (m : List (String × Component))
    → ((e : String × Component) → Mem e m → P e)
    → All P m
All_of_mem [] h = tt
All_of_mem (e ∷ m) h = (h e mem-cons_self, All_of_mem m λ d g. h d (mem-cons_of_mem e g))

sorted_statuses-IsSorted :
    (m : List (String × Component)) → Distinct m → IsSorted (sorted_statuses m)
unfolding sorted_statuses
sorted_statuses-IsSorted [] d = tt
sorted_statuses-IsSorted (e ∷ m) (Pairwise.cons h d) =
    insert_status-IsSorted (status_of e.1) (sorted_statuses m)
      (All-sorted_statuses (λ t. e.1.name ≢ t.name) m (All_of_mem m h))
      (sorted_statuses-IsSorted m d)

-- The report lists the components in strictly ascending order of their names, if they have
-- different names.
get_status-IsSorted : (r : Readiness) → Distinct r.components → IsSorted (get_status r).components
unfolding get_status
get_status-IsSorted r d = sorted_statuses-IsSorted r.components d
