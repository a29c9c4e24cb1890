-- ===== src/Workers/Filters.antt =====
-- crates/decentgpu-master/src/db/workers.rs: `list_with_filters`. The backend of the request is a part of
-- the text of the query, so what PostgreSQL makes of it is a parameter. The size of the memory of a GPU
-- is taken to be below 2 ^ 63, where PostgreSQL reads it as a `bigint`.
use decentralized_gpu_p2p_ne.Workers.{by_online}
use decentralized_gpu_p2p_ne.P2p.Registration.{backend_str}
use decentralized_gpu_p2p_ne.Db.{Query, WorkerRow, statement, paged}
use decentralized_gpu_p2p_ne.Float.{F64Ops}
use decentralized_gpu_p2p_ne.Base.Int.{ℤ, leb_ℤ, pos}
use decentralized_gpu_p2p_ne.Types.Capabilities.{WorkerCapabilities, GpuInfo}
use decentralized_gpu_p2p_ne.Base.{
  ℕ, [], ◌∷◌, List, true, false, Bool, none, some, Option, ◌&&◌, ◌||◌, ◌-◌, ◌==◌, if◌then◌else◌,
  leb, ltb, not, ◌≡◌, String, any, codes, sort_by, filter,
}
use decentralized_gpu_p2p_ne.Error.{err, database}

abbrev pub same_codes : List ℕ → List ℕ → Bool
same_codes [] [] = true
same_codes [] (y ∷ ys) = false
same_codes (x ∷ xs) [] = false
same_codes (x ∷ xs) (y ∷ ys) = x == y && same_codes xs ys

-- `'`, `"` and `\`, which do not stand for themselves in the literal
abbrev pub is_plain : ℕ → Bool
is_plain c = not (c == b'\'' || (c == b'"' || c == b'\\'))

abbrev pub all_plain : List ℕ → Bool
all_plain [] = true
all_plain (c ∷ cs) = is_plain c && all_plain cs

-- `where_backend cap` is what `@> '[{"backend":"cap"}]'` says of the capabilities, if it can be read.
pub record JsonText : Type 0 where
  pub where_backend : List ℕ → Option (WorkerCapabilities → Bool)

abbrev pub has_backend : List ℕ → WorkerCapabilities → Bool
has_backend cap caps =
    any (λ (g : GpuInfo). same_codes (codes (backend_str g.backend)) cap) caps.gpus

-- A literal that holds none of these is that text, and one of the GPUs has it as its backend.
pub record IsJson (json : JsonText) : Type 0 where
  pub plain :
      (cap : List ℕ) → all_plain cap ≡ true → json.where_backend cap ≡ some (has_backend cap)

abbrev pub to_upper : ℕ → ℕ
to_upper c = if leb b'a' c && leb c b'z' then c - 32 else c

-- `b[..1].to_uppercase() + &b[1..]`; the slice panics within a character of several bytes
abbrev pub capitalised : List ℕ → Option (List ℕ)
capitalised [] = some []
capitalised (c ∷ cs) = if ltb c 128 then some (to_upper c ∷ cs) else none

abbrev pub enough_vram : Option ℤ → WorkerRow → Bool
enough_vram none w = true
enough_vram (some mb) w = any (λ (g : GpuInfo). leb_ℤ mb (pos g.vram_mb)) w.capabilities.gpus

abbrev pub passes : (WorkerCapabilities → Bool) → Option ℤ → Bool → WorkerRow → Bool
passes backend min_vram_mb online_only w =
    (not online_only || w.is_online) && (backend w.capabilities && enough_vram min_vram_mb w)

abbrev pub filtered_page :
    F64Ops → Option ℤ → Bool → ℤ → ℤ → Option (WorkerCapabilities → Bool) → Query (List WorkerRow)
filtered_page f min_vram_mb online_only limit offset none = statement (λ t. (err database, t))
filtered_page f min_vram_mb online_only limit offset (some backend) = statement (λ t. (
  paged limit offset
      (sort_by (by_online f) (filter (passes backend min_vram_mb online_only) t.workers)),
  t,
))

abbrev pub with_capitalised :
    JsonText
    → (Option (WorkerCapabilities → Bool) → Query (List WorkerRow))
    → Option (List ℕ)
    → Option (Query (List WorkerRow))
with_capitalised json run none = none
with_capitalised json run (some cap) = some (run (json.where_backend cap))

-- none: the call panics
unfoldable pub list_with_filters :
    F64Ops → JsonText → Option String → Option ℤ → Bool → ℤ → ℤ → Option (Query (List WorkerRow))
list_with_filters f json none min_vram_mb online_only limit offset =
    some (filtered_page f min_vram_mb online_only limit offset (some (λ caps. true)))
list_with_filters f json (some backend) min_vram_mb online_only limit offset =
    with_capitalised json (filtered_page f min_vram_mb online_only limit offset)
      (capitalised (codes backend))
