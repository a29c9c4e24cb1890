-- ===== src/WorkerNode/Capabilities.antt =====
-- What a worker sends of its capabilities is what the master's scheduler makes of the message.
use decentralized_gpu_p2p_ne.Base.{List, [], ◌∷◌, ◌≡◌, refl, ap, map, ◌∙◌}
use decentralized_gpu_p2p_ne.Types.GpuBackend.{GpuBackend, cuda, metal, rocm, cpu_only}
use decentralized_gpu_p2p_ne.Types.Capabilities.{WorkerCapabilities, GpuInfo}
use decentralized_gpu_p2p_ne.Scheduler.Wire.{backend_of_number, proto_caps_to_common, ProtoGpu}
use decentralized_gpu_p2p_ne.WorkerNode.{backend_to_proto, gpu_to_proto, capabilities_to_proto}

abbrev gpu_back : GpuInfo → GpuInfo
gpu_back g = record {
  name = g.name;
  vram_mb = g.vram_mb;
  backend = backend_of_number (backend_to_proto g.backend);
}

backend_back : (b : GpuBackend) → backend_of_number (backend_to_proto b) ≡ b
backend_back cuda = refl
backend_back metal = refl
backend_back rocm = refl
backend_back cpu_only = refl

gpu_same : (g : GpuInfo) → gpu_back g ≡ g
gpu_same g =
    ap (λ (b : GpuBackend). record { name = g.name; vram_mb = g.vram_mb; backend = b })
      (backend_back g.backend)

gpus_back : (gs : List GpuInfo) → map gpu_back gs ≡ gs
gpus_back [] = refl
gpus_back (g ∷ gs) = cc (gpu_same g, gpus_back gs)

map_back :
    (gs : List GpuInfo)
    → map
        (λ (p : ProtoGpu). record {
          name = p.name;
          vram_mb = p.vram_mb;
          backend = backend_of_number p.backend;
        })
        (map gpu_to_proto gs)
      ≡ map gpu_back gs
map_back [] = refl
map_back (g ∷ gs) = ap (λ rest. gpu_back g ∷ rest) (map_back gs)

-- The master's scheduler reads from the message of a worker the very capabilities that the worker has.
pub capabilities_roundtrip :
    (caps : WorkerCapabilities) → proto_caps_to_common (capabilities_to_proto caps) ≡ caps
unfolding capabilities_to_proto proto_caps_to_common
capabilities_roundtrip caps =
    ap
      (λ (gs : List GpuInfo). record {
        gpus = gs;
        cpu = caps.cpu;
        ram_mb = caps.ram_mb;
        disk_mb = caps.disk_mb;
        os = caps.os;
        worker_version = caps.worker_version;
      })
      (map_back caps.gpus ∙ gpus_back caps.gpus)
