-- ===== src/Server/Samples.antt =====
-- A server for the runs of the tests.
use cyan_flame_control_plane.Prelude.{ℕ, true, false, err}
use cyan_flame_control_plane.Cache.{new}
use cyan_flame_control_plane.Tcam.{adaptive, with_strategy}
use cyan_flame_control_plane.Prelude.Floats.{Floats}
use cyan_flame_control_plane.Server.Command.{ServerStats, ServerInternals, Readings}
use cyan_flame_control_plane.Server.Process.{Surroundings}

-- Whole numbers stand for the floats.
abbrev pub whole : Floats ℕ
whole = record {
  of_ℕ = λ n. n;
  literal = λ s. 0;
  add = λ a b. a;
  sub = λ a b. a;
  mul = λ a b. a;
  div = λ a b. a;
  sin = λ a. a;
  cos = λ a. a;
  pi = 3;
  less = λ a b. false;
}

abbrev pub around : Surroundings ℕ
around = record {
  floats_ = whole;
  score_less = λ a b. false;
  collapse = λ n. 0;
  runtime = record { has_current = true; may_block = false };
  version = "1.0.0";
  to_lowercase = λ s. s;
}

abbrev pub zero_stats : ServerStats
zero_stats = record {
  commands_processed = 0;
  vxlan_packets = 0;
  http_requests = 0;
  cache_hits = 0;
  cache_misses = 0;
  total_latency_ns = 0;
  start_time = 100;
}

abbrev pub server : ServerInternals ℕ
server = record {
  qagml = record {
    memory_amplification = 10000000;
    bus_width_amplification = 2080250;
    physical_memory_gb = 80;
    effective_memory_pb = 800000;
    physical_bus_width_bits = 256;
    effective_bus_width_bits = 0;
    cache_hit_rate = 0;
    total_allocations = 0;
    bytes_processed = 0;
    is_healthy = true;
  };
  qanban = err "poisoned";
  bandwidth_cascade = record {
    physical_bytes_processed = 0;
    cascade_effective_bytes = 0;
    memory_physical_bytes = 0;
    memory_effective_bytes = 0;
  };
  cache = new 1000 250;
  uao_qtcam = with_strategy adaptive;
  stats = zero_stats;
}

abbrev pub readings : Readings
readings = record { now = 200; now_ms = 200000; elapsed = 5; elapsed_at_end = 6 }
