-- ===== src/ResourcePressure/Tests.antt =====
-- Runs and instances for src/hermes_vylen_gateway/resource_pressure.py.
use hermes_vylen_gateway.Prelude.{ℕ, ◌+◌, ◌*◌, ◌≤◌, ◌≢◌, List, [], ◌∷◌, Option, some}
use hermes_vylen_gateway.ResourcePressure.{
  known, cpu_candidate, update_cpu, transition, memory_candidate, mib, update_memory,
}
use hermes_vylen_gateway.ResourcePressure.Hysteresis.{run, Held, cpu-change, sample_memory}

abbrev busy : List (Option ℕ × ℕ)
busy = (some 8000, 1000) ∷ []

cpu-changed :
    (run update_cpu ((some 8500, 31000) ∷ busy)).bucket ≢ (known (run update_cpu busy)).bucket
unfolding run update_cpu transition cpu_candidate
cpu-changed h = cc

cpu-change_example :
    (since : ℕ) × Held cpu_candidate
      (known (run update_cpu busy)).bucket
      (run update_cpu ((some 8500, 31000) ∷ busy)).bucket
      since
      ((some 8500, 31000) ∷ busy)
    × (since + (cpu_candidate (known (run update_cpu busy)).bucket 8500).1 ≤ 31000)
cpu-change_example = cpu-change busy 8500 31000 cpu-changed

abbrev short : ℕ × ℕ
short = (1500, 4096 * mib)

abbrev filled : List (Option (ℕ × ℕ) × ℕ)
filled = (some short, 1000) ∷ []

memory-changed :
    (run sample_memory ((some short, 31000) ∷ filled)).bucket
    ≢ (known (run sample_memory filled)).bucket
unfolding run update_memory transition memory_candidate
memory-changed h = cc
