-- ===== src/Matcher.antt =====
-- crates/decentgpu-master/src/scheduler/matcher.rs: the choice of the workers for a job. `f` stands
-- for the machine's `f64` arithmetic.
pub mod Sorting
pub mod Filters
pub mod Best
mod Tests
use Prim.Native.Nat.{max, min, Ordering}
use decentralized_gpu_p2p_ne.Base.{
  ℕ, Bool, true, false, not, ◌&&◌, ◌||◌, sort_by, Option, none, some, List, [], ◌∷◌, map, ltb, leb,
  ◌==◌, if◌then◌else◌, unwrap_or, any, filter, take,
}
use decentralized_gpu_p2p_ne.Base.Int.{pos}
use decentralized_gpu_p2p_ne.Float.{F64, F64Ops}
use decentralized_gpu_p2p_ne.Types.GpuBackend.{GpuBackend, cpu_only, backend_eq}
use decentralized_gpu_p2p_ne.Types.Capabilities.{WorkerCapabilities, GpuInfo}

pub record WorkerCandidate : Type 0 where
  pub peer_id : ℕ
  pub capabilities : WorkerCapabilities
  pub uptime_score : F64
  pub jobs_completed : ℕ  -- u64
  pub is_busy : Bool

pub record MatchRequest : Type 0 where
  pub required_backend : GpuBackend
  pub memory_limit_mb : ℕ  -- u64
  pub max_duration_secs : ℕ  -- u64

unfoldable pub backend_matches : WorkerCandidate → GpuBackend → Bool
backend_matches c required =
    if backend_eq required cpu_only
    then true
    else any (λ g. backend_eq g.backend required) c.capabilities.gpus

unfoldable pub has_enough_vram : WorkerCandidate → ℕ → Bool
has_enough_vram c memory_limit_mb = any (λ g. leb memory_limit_mb g.vram_mb) c.capabilities.gpus

-- `filter(..).map(|g| g.vram_mb).min()`
abbrev pub smallest_fit : ℕ → List GpuInfo → Option ℕ
smallest_fit mem [] = none
smallest_fit mem (g ∷ gs) =
    let rest = smallest_fit mem gs in
    if leb mem g.vram_mb
    then elim rest [ none ↦ some g.vram_mb | some v ↦ some (min g.vram_mb v) ]
    else rest

unfoldable pub resource_match_score : F64Ops → WorkerCandidate → MatchRequest → F64
resource_match_score f c request =
    let available_vram = unwrap_or (smallest_fit request.memory_limit_mb c.capabilities.gpus) 0 in
    let utilization =
      f.div (f.of_i64 (pos request.memory_limit_mb)) (f.of_i64 (pos available_vram)) in
    let score =
      f.sub (f.of_i64 (pos 1))
        (f.mul (f.abs (f.sub utilization (f.ratio 7 10))) (f.of_i64 (pos 2))) in
    if backend_eq request.required_backend cpu_only
    then f.of_i64 (pos 1)
    else if available_vram == 0
    then f.of_i64 (pos 0)
    else f.clamp score (f.of_i64 (pos 0)) (f.of_i64 (pos 1))

-- `map(|c| c.jobs_completed).max().unwrap_or(1).max(1)`; an empty list makes no difference to it
abbrev pub max_jobs : List WorkerCandidate → ℕ
max_jobs [] = 1
max_jobs (c ∷ cs) = max c.jobs_completed (max_jobs cs)

-- the hard filters
unfoldable pub eligible : MatchRequest → WorkerCandidate → Bool
unfolding backend_matches has_enough_vram
eligible request c =
    not c.is_busy
    && (backend_matches c request.required_backend
        && (backend_eq request.required_backend cpu_only
            || has_enough_vram c request.memory_limit_mb))

unfoldable pub total_score : F64Ops → ℕ → MatchRequest → WorkerCandidate → F64
unfolding resource_match_score
total_score f jobs request c =
    let uptime_component =
      f.mul
        (f.clamp (f.div c.uptime_score (f.of_i64 (pos 100))) (f.of_i64 (pos 0)) (f.of_i64 (pos 1)))
        (f.ratio 40 100) in
    let jobs_component =
      f.mul
        (f.min (f.div (f.of_i64 (pos c.jobs_completed)) (f.of_i64 (pos jobs))) (f.of_i64 (pos 1)))
        (f.ratio 30 100) in
    let resource_component = f.mul (resource_match_score f c request) (f.ratio 30 100) in
    f.add (f.add uptime_component jobs_component) resource_component

-- the scored candidates that pass the filters, in the order given
abbrev pub scored_from : F64Ops → ℕ → MatchRequest → List WorkerCandidate → List (F64 × ℕ)
scored_from f jobs request [] = []
scored_from f jobs request (c ∷ cs) =
    let rest = scored_from f jobs request cs in
    if eligible request c then (total_score f jobs request c, c.peer_id) ∷ rest else rest

-- `b.0.partial_cmp(&a.0).unwrap_or(Equal) == Greater`: `b` goes before `a`
abbrev pub outranks : F64Ops → F64 × ℕ → F64 × ℕ → Bool
outranks f b a = elim (f.partial_cmp b.0 a.0) [
  | none ↦ false
  | some o ↦ elim o [ Ordering.gt ↦ true | _ ↦ false ]
]

-- `sort_by`, which is stable
unfoldable pub sort_descending : F64Ops → List (F64 × ℕ) → List (F64 × ℕ)
sort_descending f xs = sort_by (outranks f) xs

abbrev pub peers : List (F64 × ℕ) → List ℕ
peers [] = []
peers ((_, p) ∷ xs) = p ∷ peers xs

unfoldable pub select_workers : F64Ops → List WorkerCandidate → MatchRequest → List ℕ
unfolding eligible total_score sort_descending
select_workers f candidates request =
    peers (take 3 (sort_descending f (scored_from f (max_jobs candidates) request candidates)))
