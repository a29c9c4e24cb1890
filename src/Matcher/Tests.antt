-- ===== src/Matcher/Tests.antt =====
-- A choice between three workers, and the theorems on `select_workers` at it.
use Prim.Native.Nat.{min}
use decentralized_gpu_p2p_ne.Base.{
  ℕ, true, false, List, [], ◌∷◌, ◌≡◌, refl, inl, inr, arith, In, length, filter,
}
use decentralized_gpu_p2p_ne.Base.Int.{pos}
use decentralized_gpu_p2p_ne.Float.{F64}
use decentralized_gpu_p2p_ne.Float.Fixed.{fixed}
use decentralized_gpu_p2p_ne.Types.GpuBackend.{cuda}
use decentralized_gpu_p2p_ne.Types.Capabilities.{WorkerCapabilities, GpuInfo}
use decentralized_gpu_p2p_ne.Matcher.{WorkerCandidate, MatchRequest, eligible, select_workers}
use decentralized_gpu_p2p_ne.Matcher.Sorting.{IsComparable}
use decentralized_gpu_p2p_ne.Matcher.Filters.{Suits, eligible_iff, select_workers_lem}
use decentralized_gpu_p2p_ne.Matcher.Best.{NoBetter, Compared, first_best}

fixed-IsComparable : (S : F64 → Type 0) → IsComparable fixed S
unfolding fixed
fixed-IsComparable S = record {
  transitive = λ x y z _ _ _ h k g. ground arith;
  asymmetric = λ x y _ _ h k. ground arith;
}

abbrev capabilities_of : List GpuInfo → WorkerCapabilities
capabilities_of gpus = record {
  gpus = gpus;
  cpu = record { model = "cpu"; cores = 4; threads = 8; freq_mhz = 3000 };
  ram_mb = 16000;
  disk_mb = 500000;
  os = "linux";
  worker_version = "0.1.0";
}

-- a worker with one GPU
abbrev worker : ℕ → ℕ → ℕ → WorkerCandidate
worker peer vram jobs = record {
  peer_id = peer;
  capabilities = capabilities_of (record { name = "gpu"; vram_mb = vram; backend = cuda } ∷ []);
  uptime_score = fixed.of_i64 (pos 100);
  jobs_completed = jobs;
  is_busy = false;
}

abbrev request : MatchRequest
request = record { required_backend = cuda; memory_limit_mb = 4000; max_duration_secs = 3600 }

-- the second has too little memory
abbrev workers : List WorkerCandidate
workers = worker 1 8000 0 ∷ worker 2 2000 9 ∷ worker 3 8000 5 ∷ []

chosen : select_workers fixed workers request ≡ 3 ∷ 1 ∷ []
unfolding select_workers fixed
chosen = refl

eligible_third : eligible request (worker 3 8000 5) ≡ true
unfolding eligible
eligible_third = refl

third-Suits : Suits request (worker 3 8000 5)
third-Suits = (eligible_iff request (worker 3 8000 5)).0 eligible_third

select_workers_lem_example :
    (length (select_workers fixed workers request)
      ≡ min 3 (length (filter (eligible request) workers)))
    × ((p : ℕ)
        → In p (select_workers fixed workers request)
        → (c : WorkerCandidate) × In c workers × (c.peer_id ≡ p) × Suits request c)
select_workers_lem_example = select_workers_lem fixed workers request

first_best_example : NoBetter fixed workers request (worker 3 8000 5) 3
first_best_example =
    first_best fixed workers request (fixed-IsComparable (Compared fixed workers request)) 3
      (rw chosen refl) (worker 3 8000 5) (inr (inr (inl refl))) third-Suits
