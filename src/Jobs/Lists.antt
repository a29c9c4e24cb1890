-- ===== src/Jobs/Lists.antt =====
-- The lists that `JobRepository` answers: `list_by_hirer` and `get_logs_since`.
use decentralized_gpu_p2p_ne.Base.{
  ℕ, ◌≡◌, refl, true, false, List, ◌==◌, ==_iff, In, All, length, filter, Ordered, arith,
}
use decentralized_gpu_p2p_ne.Base.Int.{ℤ, pos, ◌≤ℤ◌}
use decentralized_gpu_p2p_ne.Error.{Result, ok, err, database}
use decentralized_gpu_p2p_ne.Db.{JobRow, Tables}
use decentralized_gpu_p2p_ne.Db.Rules.{Ensures, statement_rule}
use decentralized_gpu_p2p_ne.Db.Pages.{IsPage, paged-IsPage, All-filter}
use decentralized_gpu_p2p_ne.Jobs.{list_by_hirer, newer}

newer_trans :
    (x y z : JobRow)
    → Unit {0}
    → Unit {0}
    → Unit {0}
    → newer y x ≡ false
    → newer z y ≡ false
    → newer z x ≡ false
newer_trans x y z _ _ _ h k = ground arith

newer_asym : (x y : JobRow) → Unit {0} → Unit {0} → newer y x ≡ true → newer x y ≡ false
newer_asym x y _ _ h = ground arith

-- A page of the hirer's jobs.
module _ (hirer_id : ℕ) (limit : ℤ) (t : Tables) where
  abbrev pub ListOutcome : Result (List JobRow) → Tables → Type 0
  ListOutcome (ok rows) t' =
      (t' ≡ t)
      × All (λ (j : JobRow). (j.hirer_id ≡ hirer_id) × In j t.jobs) rows
      × Ordered newer rows
      × (pos (length rows) ≤ℤ limit)
  ListOutcome (err e) t' = (t' ≡ t) × (e ≡ database)

  IsOwn-All :
      All
        (λ (j : JobRow). (j.hirer_id ≡ hirer_id) × In j t.jobs)
        (filter (λ j. j.hirer_id == hirer_id) t.jobs)
  IsOwn-All =
      All-filter (λ j. j.hirer_id == hirer_id) _ t.jobs
        (λ j m hit. ((==_iff j.hirer_id hirer_id).0 hit, m))

  listed :
      (r : Result (List JobRow))
      → IsPage newer (λ (j : JobRow). (j.hirer_id ≡ hirer_id) × In j t.jobs) limit r
      → ListOutcome r t
  listed (ok rows) h = (refl, h.0, h.1, h.2)
  listed (err e) h = (refl, h)

-- `list_by_hirer` changes nothing, and answers the error of the database or at most `limit` jobs of
-- the table, all of them the hirer's, none of them newer than one that stands before it.
pub list_outcome :
    (hirer_id : ℕ) (limit offset : ℤ) (t : Tables)
    → Ensures (ListOutcome hirer_id limit t) (list_by_hirer hirer_id limit offset) t
unfolding list_by_hirer
list_outcome h l o t =
    statement_rule _ (refl, refl)
      (listed h l t _ (paged-IsPage newer newer_trans newer_asym _ _ (IsOwn-All h l t) l o))
