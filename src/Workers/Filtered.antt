-- ===== src/Workers/Filtered.antt =====
-- What `list_with_filters` finds: by the size of the memory what it is asked for, and by the backend none.
use decentralized_gpu_p2p_ne.Workers.{by_online}
use decentralized_gpu_p2p_ne.Db.Pages.{IsPart, paged-IsPart, All-filter}
use decentralized_gpu_p2p_ne.Float.{F64Ops}
use decentralized_gpu_p2p_ne.Db.Rules.{Post, statement_rule, Ensures}
use decentralized_gpu_p2p_ne.Db.{WorkerRow, Tables, Query, paged}
use decentralized_gpu_p2p_ne.Base.Int.{ℤ, pos, ◌≤ℤ◌, negsuc}
use decentralized_gpu_p2p_ne.Types.Capabilities.{GpuInfo}
use decentralized_gpu_p2p_ne.Base.{
  zero, suc, ℕ, [], ◌∷◌, List, true, false, Bool, none, some, Option, refl, ◌≡◌, In, All, arith,
  codes, any, filter, Bool-cases, length, not, sort_by, ◌||◌, inl, take, drop, inr,
}
use decentralized_gpu_p2p_ne.Error.{ok, err, database, Result}
use decentralized_gpu_p2p_ne.Types.GpuBackend.{GpuBackend, cuda, metal, rocm, cpu_only}
use decentralized_gpu_p2p_ne.P2p.Registration.{backend_str}
use decentralized_gpu_p2p_ne.Workers.Filters.{
  capitalised, list_with_filters, JsonText, IsJson, all_plain, same_codes, passes, has_backend,
  enough_vram,
}

-- the word of a backend, with a capital
abbrev capital_word : GpuBackend → List ℕ
capital_word cuda = codes "Cuda"
capital_word metal = codes "Metal"
capital_word rocm = codes "Rocm"
capital_word cpu_only = codes "Cpu_only"

capital_lem : (b : GpuBackend) → capitalised (codes (backend_str b)) ≡ some (capital_word b)
capital_lem cuda = refl
capital_lem metal = refl
capital_lem rocm = refl
capital_lem cpu_only = refl

plain_lem : (b : GpuBackend) → all_plain (capital_word b) ≡ true
plain_lem cuda = refl
plain_lem metal = refl
plain_lem rocm = refl
plain_lem cpu_only = refl

no_capital :
    (c : GpuBackend) (b : GpuBackend) → same_codes (codes (backend_str c)) (capital_word b) ≡ false
no_capital cuda cuda = refl
no_capital cuda metal = refl
no_capital cuda rocm = refl
no_capital cuda cpu_only = refl
no_capital metal cuda = refl
no_capital metal metal = refl
no_capital metal rocm = refl
no_capital metal cpu_only = refl
no_capital rocm cuda = refl
no_capital rocm metal = refl
no_capital rocm rocm = refl
no_capital rocm cpu_only = refl
no_capital cpu_only cuda = refl
no_capital cpu_only metal = refl
no_capital cpu_only rocm = refl
no_capital cpu_only cpu_only = refl

no_gpu :
    (b : GpuBackend) (gs : List GpuInfo)
    → any (λ (g : GpuInfo). same_codes (codes (backend_str g.backend)) (capital_word b)) gs ≡ false
no_gpu b [] = refl
no_gpu b (g ∷ gs) = rw (no_capital g.backend b, no_gpu b gs) refl

nobody :
    (b : GpuBackend) (mb : Option ℤ) (online_only : Bool) (ws : List WorkerRow)
    → filter (passes (has_backend (capital_word b)) mb online_only) ws ≡ []
nobody b mb online_only [] = refl
nobody b mb online_only (w ∷ ws) =
    rw (no_gpu b w.capabilities.gpus, nobody b mb online_only ws)
      (elim (Bool-cases (not online_only || w.is_online)) [
        | inl shown ↦ rw shown refl
        | inr hidden ↦ rw hidden refl
      ])

-- the call does not panic
abbrev pub Runs : {A : Type 0} → Post A → Option (Query A) → Tables → Type 0
Runs P none t = ⊥
Runs P (some q) t = Ensures P q t

module _ (min_vram_mb : Option ℤ) (online_only : Bool) (limit : ℤ) (t : Tables) where
  abbrev pub IsSuitable : WorkerRow → Type 0
  IsSuitable w =
      ((not online_only || w.is_online) ≡ true)
      × (enough_vram min_vram_mb w ≡ true)
      × In w t.workers

  abbrev pub PageFound : Post (List WorkerRow)
  PageFound (ok rows) t' = (t' ≡ t) × All IsSuitable rows × (pos (length rows) ≤ℤ limit)
  PageFound (err e) t' = (t' ≡ t) × (e ≡ database)

  abbrev pub NoneFound : Post (List WorkerRow)
  NoneFound (ok rows) t' = (t' ≡ t) × (rows ≡ [])
  NoneFound (err e) t' = (t' ≡ t) × (e ≡ database)

  IsSuitable-All : All IsSuitable (filter (passes (λ caps. true) min_vram_mb online_only) t.workers)
  IsSuitable-All =
      All-filter (passes (λ caps. true) min_vram_mb online_only) _ t.workers
        (λ w m hit. (shown w hit, big w hit, m))
    where
      shown :
          (w : WorkerRow)
          → passes (λ caps. true) min_vram_mb online_only w ≡ true
          → (not online_only || w.is_online) ≡ true
      shown w hit = ground arith

      big :
          (w : WorkerRow)
          → passes (λ caps. true) min_vram_mb online_only w ≡ true
          → enough_vram min_vram_mb w ≡ true
      big w hit = ground arith

  abbrev no_rows : List WorkerRow
  no_rows = []

  page_found : (r : Result (List WorkerRow)) → IsPart IsSuitable limit r → PageFound r t
  page_found (ok rows) h = (refl, h.0, h.1)
  page_found (err e) h = (refl, h)

  empty_page :
      (over : WorkerRow → WorkerRow → Bool) (xs : List WorkerRow) (offset : ℤ)
      → xs ≡ []
      → NoneFound (paged limit offset (sort_by over xs)) t
  empty_page over xs offset none_left = rw none_left (none_paged limit offset)
    where
      none_taken : (n k : ℕ) → take n (drop k no_rows) ≡ []
      none_taken zero zero = refl
      none_taken zero (suc k) = refl
      none_taken (suc n) zero = refl
      none_taken (suc n) (suc k) = refl

      none_paged : (l o : ℤ) → NoneFound (paged l o []) t
      none_paged (pos n) (pos k) = (refl, none_taken n k)
      none_paged (negsuc n) o = (refl, refl)
      none_paged (pos n) (negsuc k) = (refl, refl)

-- `list_with_filters`, without a backend or with the word of one of the four, and whichever statements
-- fail, changes nothing and does not panic. Without a backend it answers the error of the database or at
-- most `limit` workers of the table, each of them online if this is asked for, and with a GPU of at least
-- the memory that is asked for. With the word of a backend, where a literal without special characters
-- is its text, it answers the error of the database or no worker, whatever the table holds. Another text
-- for the backend is not considered.
pub list_with_filters_lem :
    (f : F64Ops) (json : JsonText) (min_vram_mb : Option ℤ) (online_only : Bool) (limit offset : ℤ)
    (t : Tables)
    → IsJson json
    → Runs
        (PageFound min_vram_mb online_only limit t)
        (list_with_filters f json none min_vram_mb online_only limit offset)
        t
      × ((b : GpuBackend)
          → Runs
              (NoneFound min_vram_mb online_only limit t)
              (list_with_filters f json (some (backend_str b)) min_vram_mb online_only limit offset)
              t)
unfolding list_with_filters
list_with_filters_lem f json mb oo l o t laws = (
  statement_rule _ (refl, refl)
      (page_found mb oo l t _ (paged-IsPart (by_online f) _ _ (IsSuitable-All mb oo l t) l o)),
  λ b.
      rw (capital_lem b, laws.plain (capital_word b) (plain_lem b))
        (statement_rule _ (refl, refl)
          (empty_page mb oo l t (by_online f) _ o (nobody b mb oo t.workers))),
)
