-- ===== src/Consumer/Reader/Forwarded.antt =====
-- Which of the polled records are forwarded.
use ecommerce_commons.Prelude.{
  ℕ, suc, Bool, true, false, ◌&&◌, List, [], ◌∷◌, ◌++◌, if◌then◌else◌, ◌≡◌, refl, ap, ◌∙◌, All,
}
use ecommerce_commons.Consumer.{KafkaRecord}
use ecommerce_commons.Consumer.Reader.{Poll, each_record, run_reader}

-- The polled records, in order.
abbrev pub polled : List Poll → List KafkaRecord
polled [] = []
polled (p ∷ ps) = p.records ++ polled ps

-- The context is not done throughout this turn.
abbrev pub IsUndisturbed : Poll → Type 0
IsUndisturbed p = (p.done_before ≡ false) × (p.done_after ≡ false) × ((n : ℕ) → p.done n ≡ false)

each_record_all :
    (p : Poll)
    → ((n : ℕ) → p.done n ≡ false)
    → (n : ℕ) (rs : List KafkaRecord) → each_record p n rs ≡ rs
unfolding each_record
each_record_all p open_ n [] = refl
each_record_all p open_ n (r ∷ rs) =
    ap
      (λ b.
        if b && p.prefers_done n then each_record p (suc n) rs else r ∷ each_record p (suc n) rs)
      (open_ n)
    ∙ ap (λ l. r ∷ l) (each_record_all p open_ (suc n) rs)

-- As long as the context is not done, every polled record is forwarded, once and in order.
pub run_reader_lem : (ps : List Poll) → All IsUndisturbed ps → run_reader ps ≡ polled ps
unfolding run_reader
run_reader_lem [] h = refl
run_reader_lem (p ∷ ps) h =
    ap
      (λ b.
        if b then [] else if p.done_after then [] else each_record p 0 p.records ++ run_reader ps)
      h.0.0
    ∙ ap (λ b. if b then [] else each_record p 0 p.records ++ run_reader ps) h.0.1
    ∙ ap (λ l. l ++ run_reader ps) (each_record_all p h.0.2 0 p.records)
    ∙ ap (λ l. p.records ++ l) (run_reader_lem ps h.1)

-- Once the context is done, a record can be skipped and the one after it forwarded all the same, if the
-- first `select` takes the branch that ends and the second one the branch that sends.
later_record_overtakes :
    (p : Poll) (a b : KafkaRecord)
    → p.done_before ≡ false
    → p.done_after ≡ false
    → p.records ≡ a ∷ b ∷ []
    → p.done 0 ≡ true
    → p.prefers_done 0 ≡ true
    → p.prefers_done 1 ≡ false
    → run_reader (p ∷ []) ≡ b ∷ []
unfolding run_reader each_record
later_record_overtakes p a b before after records d0 c0 c1 =
    rw (before, after, records, d0, c0, c1) (both_branches (p.done 1))
  where
    both_branches : (x : Bool) → (if x && false then [] else b ∷ []) ++ [] ≡ b ∷ []
    both_branches true = refl
    both_branches false = refl
