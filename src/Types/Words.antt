-- ===== src/Types/Words.antt =====
-- Printing and parsing the enums of crates/decentgpu-common/src/types.rs are inverse.
use text.Mathlib.TextEquality.{eq_iff}
use decentralized_gpu_p2p_ne.Base.{String, false, ◌≡◌, refl, ◌↔◌, arith}
use decentralized_gpu_p2p_ne.Error.{ok}
use decentralized_gpu_p2p_ne.Types.UserRole
use decentralized_gpu_p2p_ne.Types.UserRole.{UserRole, hirer, worker, both}
use decentralized_gpu_p2p_ne.Types.GpuBackend
use decentralized_gpu_p2p_ne.Types.GpuBackend.{GpuBackend, cpu_only, cuda, metal, rocm}
use decentralized_gpu_p2p_ne.Types.JobStatus
use decentralized_gpu_p2p_ne.Types.JobStatus.{
  JobStatus, pending, assigned, running, completed, failed, cancelled,
}
use decentralized_gpu_p2p_ne.Types.TxType
use decentralized_gpu_p2p_ne.Types.TxType.{TxType, deposit, job_charge, job_earn, refund}

role_print_parse : (r : UserRole) → UserRole.from_str (UserRole.as_str r) ≡ ok r
unfolding UserRole.from_str UserRole.as_str
role_print_parse hirer = refl
role_print_parse worker = refl
role_print_parse both = refl

role_parse_print : (s : String) (r : UserRole) → UserRole.from_str s ≡ ok r → s ≡ UserRole.as_str r
unfolding UserRole.from_str UserRole.as_str
role_parse_print s r h = ground (arith, eq_iff s "hirer", eq_iff s "worker", eq_iff s "both")

role_words : (s : String) (r : UserRole) → (UserRole.from_str s ≡ ok r) ↔ (s ≡ UserRole.as_str r)
role_words s r = (role_parse_print s r, λ e. rw e (role_print_parse r))

backend_print_parse : (b : GpuBackend) → GpuBackend.from_str (GpuBackend.as_str b) ≡ ok b
unfolding GpuBackend.from_str GpuBackend.as_str
backend_print_parse cpu_only = refl
backend_print_parse cuda = refl
backend_print_parse metal = refl
backend_print_parse rocm = refl

backend_parse_print :
    (s : String) (b : GpuBackend) → GpuBackend.from_str s ≡ ok b → s ≡ GpuBackend.as_str b
unfolding GpuBackend.from_str GpuBackend.as_str
backend_parse_print s b h =
    ground (arith, eq_iff s "cpu_only", eq_iff s "cuda", eq_iff s "metal", eq_iff s "rocm")

backend_words :
    (s : String) (b : GpuBackend) → (GpuBackend.from_str s ≡ ok b) ↔ (s ≡ GpuBackend.as_str b)
backend_words s b = (backend_parse_print s b, λ e. rw e (backend_print_parse b))

status_print_parse : (t : JobStatus) → JobStatus.from_str (JobStatus.as_str t) ≡ ok t
unfolding JobStatus.from_str JobStatus.as_str
status_print_parse pending = refl
status_print_parse assigned = refl
status_print_parse running = refl
status_print_parse completed = refl
status_print_parse failed = refl
status_print_parse cancelled = refl

status_parse_print :
    (s : String) (t : JobStatus) → JobStatus.from_str s ≡ ok t → s ≡ JobStatus.as_str t
unfolding JobStatus.from_str JobStatus.as_str
status_parse_print s t h = ground (
  arith,
  eq_iff s "pending",
  eq_iff s "assigned",
  eq_iff s "running",
  eq_iff s "completed",
  eq_iff s "failed",
  eq_iff s "cancelled",
)

status_words :
    (s : String) (t : JobStatus) → (JobStatus.from_str s ≡ ok t) ↔ (s ≡ JobStatus.as_str t)
status_words s t = (status_parse_print s t, λ e. rw e (status_print_parse t))

-- A word parses to a role of users, to a GPU backend or to a job status exactly when it is the word that
-- this value prints.
pub words_lem :
    (s : String)
    → ((r : UserRole) → (UserRole.from_str s ≡ ok r) ↔ (s ≡ UserRole.as_str r))
      × ((b : GpuBackend) → (GpuBackend.from_str s ≡ ok b) ↔ (s ≡ GpuBackend.as_str b))
      × ((t : JobStatus) → (JobStatus.from_str s ≡ ok t) ↔ (s ≡ JobStatus.as_str t))
words_lem s = (role_words s, backend_words s, status_words s)

-- The `CHECK` on the transaction table admits no word that `TxType::as_str` prints.
pub tx_words_refused : (t : TxType) → TxType.tx_type_check (TxType.as_str t) ≡ false
unfolding TxType.tx_type_check TxType.as_str
tx_words_refused deposit = refl
tx_words_refused job_charge = refl
tx_words_refused job_earn = refl
tx_words_refused refund = refl
