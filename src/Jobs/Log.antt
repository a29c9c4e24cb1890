-- ===== src/Jobs/Log.antt =====
-- The log of a job, as `get_logs_since` answers it from the start.
use decentralized_gpu_p2p_ne.Jobs.{get_logs_since, log_since, logged_after}
use decentralized_gpu_p2p_ne.Db.Rules.{Post, Ensures, step_rule, pure_rule}
use decentralized_gpu_p2p_ne.Db.{JobLog, Tables, paged}
use Prim.Native.Nat.{min}
use decentralized_gpu_p2p_ne.Base.{
  ℕ, String, List, [], ◌∷◌, ◌≡◌, refl, All, In, length, map, filter, ◌==◌, ◌&&◌, arith, ==_iff,
  true, false, Ordered, sort_by, Bool, take, length-take_min, sort_by-length,
}
use decentralized_gpu_p2p_ne.Base.Int.{ℤ, pos, ◌≤ℤ◌, ◌<ℤ◌, ltb_ℤ}
use decentralized_gpu_p2p_ne.Db.Pages.{IsPage, paged-IsPage, All-filter}
use decentralized_gpu_p2p_ne.Error.{ok, err}

-- the lines come in the order of time
abbrev pub InOrder : List JobLog → Type 0
InOrder [] = Unit
InOrder (l ∷ ls) = All (λ (k : JobLog). l.timestamp_ms ≤ℤ k.timestamp_ms) ls × InOrder ls

-- a line of the job, later than 0
abbrev pub IsLine : ℕ → Tables → JobLog → Type 0
IsLine id t l = (l.job_id ≡ id) × (pos 0 <ℤ l.timestamp_ms) × In l t.job_logs

-- lines of this job alone, in the order of time, and all that there are, up to 10,000
pub record IsLog (id : ℕ) (t : Tables) (logs : List (ℤ × String × String)) : Type 0 where
  pub rows : List JobLog
  pub shown : logs ≡ map (λ (l : JobLog). (l.timestamp_ms, l.level, l.message)) rows
  pub own : All (IsLine id t) rows
  pub in_order : InOrder rows
  pub number :
      length rows
      ≡ min 10000 (
          length
            (filter (λ (l : JobLog). l.job_id == id && ltb_ℤ (pos 0) l.timestamp_ms) t.job_logs))

-- the comparison of the query
abbrev earlier : JobLog → JobLog → Bool
earlier a b = logged_after b a

earlier_trans :
    (x y z : JobLog)
    → Unit {0}
    → Unit {0}
    → Unit {0}
    → earlier y x ≡ false
    → earlier z y ≡ false
    → earlier z x ≡ false
earlier_trans x y z _ _ _ h k = ground arith

earlier_asym : (x y : JobLog) → Unit {0} → Unit {0} → earlier y x ≡ true → earlier x y ≡ false
earlier_asym x y _ _ h = ground arith

InOrder-of : (rows : List JobLog) → Ordered earlier rows → InOrder rows
InOrder-of [] h = tt
InOrder-of (l ∷ ls) h = (later ls h.0, InOrder-of ls h.1)
  where
    later :
        (ks : List JobLog)
        → All (λ k. earlier k l ≡ false) ks
        → All (λ (k : JobLog). l.timestamp_ms ≤ℤ k.timestamp_ms) ks
    later [] h = tt
    later (k ∷ ks) h = (let e = h.0 in ground arith, later ks h.1)

module _ (id : ℕ) (t : Tables) where
  abbrev pub LogOutcome : Post (List (ℤ × String × String))
  LogOutcome (ok logs) t' = (t' ≡ t) × IsLog id t logs
  LogOutcome (err e) t' = t' ≡ t

  abbrev own_lines : List JobLog
  own_lines = filter (log_since id (pos 0)) t.job_logs

  own_lem : All (IsLine id t) own_lines
  own_lem =
      All-filter (log_since id (pos 0)) _ t.job_logs
        (λ l m hit. (line_id l hit, line_time l hit, m))
    where
      line_id : (l : JobLog) → log_since id (pos 0) l ≡ true → l.job_id ≡ id
      line_id l h = ground (arith, ==_iff l.job_id id)

      line_time : (l : JobLog) → log_since id (pos 0) l ≡ true → pos 0 <ℤ l.timestamp_ms
      line_time l h = ground arith

  IsLog-of_page :
      IsPage earlier
        (IsLine id t)
        (pos 10000)
        (paged (pos 10000) (pos 0) (sort_by earlier own_lines))
      → IsLog id t (
          map
            (λ (l : JobLog). (l.timestamp_ms, l.level, l.message))
            (take 10000 (sort_by earlier own_lines)))
  IsLog-of_page h = record {
    rows = take 10000 (sort_by earlier own_lines);
    shown = refl;
    own = h.0;
    in_order = InOrder-of _ h.1;
    number = omega (
      arith,
      length-take_min 10000 (sort_by earlier own_lines),
      sort_by-length earlier own_lines,
    );
  }

  pub logs_outcome : Ensures LogOutcome (get_logs_since id (pos 0) (pos 10000)) t
  unfolding get_logs_since
  logs_outcome = step_rule _ _ refl (
      pure_rule _ (
        refl,
        IsLog-of_page
            (paged-IsPage earlier earlier_trans earlier_asym _ _ own_lem (pos 10000) (pos 0)),
      ))
