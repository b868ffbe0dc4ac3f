-- ===== src/ResourcePressure.antt =====
-- src/hermes_vylen_gateway/resource_pressure.py: the buckets of the processor and memory load, with
-- their hysteresis. A percentage is counted in hundredths, a ratio in ten-thousandths and a time in
-- milliseconds.
pub mod Hysteresis
mod Tests
use hermes_vylen_gateway.Prelude.{
  ℕ, ◌+◌, ◌*◌, Bool, true, false, Option, none, some, ltb, leb, ◌&&◌, ◌||◌, if◌then◌else◌,
}

pub data Bucket : Type 0 where
  unknown : Bucket
  ok : Bucket
  warning : Bucket
  critical : Bucket

pub record ResourceMetrics : Type 0 where
  pub cpu_percent : Option ℕ
  pub memory_available_ratio : Option ℕ
  pub memory_available_bytes : Option ℕ

-- `_BucketState`
pub record BucketState : Type 0 where
  pub bucket : Bucket
  pub candidate : Option Bucket
  pub candidate_since : ℕ

-- `_BucketState.__init__`
abbrev pub new_bucket_state : BucketState
new_bucket_state = record { bucket = unknown; candidate = none; candidate_since = 0 }

abbrev pub bucket_beq : Bucket → Bucket → Bool
bucket_beq unknown unknown = true
bucket_beq ok ok = true
bucket_beq warning warning = true
bucket_beq critical critical = true
bucket_beq _ _ = false

abbrev pub is_candidate : Option Bucket → Bucket → Bool
is_candidate none b = false
is_candidate (some a) b = bucket_beq a b

-- `_set_immediate`
unfoldable pub set_immediate : BucketState → Bucket → BucketState
set_immediate s bucket = record { bucket = bucket; candidate = none; candidate_since = 0 }

-- `_transition`
unfoldable pub transition : BucketState → Option Bucket → ℕ → ℕ → BucketState
transition s none dwell now = record s { candidate = none; candidate_since = 0 }
transition s (some candidate) dwell now =
    if bucket_beq candidate s.bucket
    then record s { candidate = none; candidate_since = 0 }
    else if is_candidate s.candidate candidate
    then if leb (s.candidate_since + dwell) now
      then record { bucket = candidate; candidate = none; candidate_since = 0 }
      else s
    else record s { candidate = some candidate; candidate_since = now }

-- `if self.bucket == "unknown": self.bucket = "ok"`
abbrev pub known : BucketState → BucketState
known s = elim s.bucket [ unknown ↦ record s { bucket = ok } | _ ↦ s ]

-- What `_CPUState.update` asks `_transition` for, and the time for which it has to be asked for.
unfoldable pub cpu_candidate : Bucket → ℕ → Option Bucket × ℕ
cpu_candidate critical value =
    if ltb value 8000 then (some (if ltb value 6500 then ok else warning), 60000) else (none, 0)
cpu_candidate warning value =
    if leb 9000 value
    then (some critical, 15000)
    else if ltb value 6500
    then (some ok, 60000)
    else (none, 0)
cpu_candidate _ value =
    if leb 9000 value
    then (some critical, 15000)
    else if leb 7500 value
    then (some warning, 30000)
    else (none, 0)

-- `_CPUState.update`
unfoldable pub update_cpu : BucketState → Option ℕ → ℕ → BucketState
unfolding set_immediate
update_cpu s none now = set_immediate s unknown
update_cpu s (some value) now =
    let s' = known s in
    let (candidate, dwell) = cpu_candidate s'.bucket value in transition s' candidate dwell now

abbrev pub mib : ℕ
mib = 1024 * 1024

-- What `_MemoryState.update` asks `_transition` for.
unfoldable pub memory_candidate : Bucket → ℕ → ℕ → Option Bucket × ℕ
memory_candidate bucket ratio available_bytes =
    let critical_enter = leb ratio 800 || leb available_bytes (512 * mib) in
    let warning_enter = leb ratio 1500 || leb available_bytes (1536 * mib) in
    let critical_exit = leb 1200 ratio && leb (1024 * mib) available_bytes in
    let warning_exit = leb 2000 ratio && leb (2048 * mib) available_bytes in
    elim bucket [
      | critical ↦
          if critical_exit then (some (if warning_exit then ok else warning), 60000) else (none, 0)
      | warning ↦
          if critical_enter
          then (some critical, 15000)
          else if warning_exit
          then (some ok, 60000)
          else (none, 0)
      | _ ↦
          if critical_enter
          then (some critical, 15000)
          else if warning_enter
          then (some warning, 30000)
          else (none, 0)
    ]

-- `_MemoryState.update`
unfoldable pub update_memory : BucketState → Option ℕ → Option ℕ → ℕ → BucketState
unfolding set_immediate
update_memory s none bytes now = set_immediate s unknown
update_memory s (some ratio) none now = set_immediate s unknown
update_memory s (some ratio) (some bytes) now =
    let s' = known s in
    let (candidate, dwell) = memory_candidate s'.bucket ratio bytes in
    transition s' candidate dwell now

pub record ResourcePressureSampler : Type 0 where
  pub cpu : BucketState
  pub memory : BucketState

abbrev pub no_metrics : ResourceMetrics
no_metrics = record {
  cpu_percent = none;
  memory_available_ratio = none;
  memory_available_bytes = none;
}

abbrev pub metrics_or_none : Option ResourceMetrics → ResourceMetrics
metrics_or_none none = no_metrics
metrics_or_none (some metrics) = metrics

-- `ResourcePressureSampler.sample`: the metrics, or `none` where the provider raised
unfoldable pub sample :
    ResourcePressureSampler
    → Option ResourceMetrics
    → ℕ
    → ResourcePressureSampler × (Bucket × Bucket)
unfolding update_cpu update_memory
sample s provided now =
    let metrics = metrics_or_none provided in
    let cpu = update_cpu s.cpu metrics.cpu_percent now in
    let memory =
      update_memory s.memory metrics.memory_available_ratio metrics.memory_available_bytes now in
    (record { cpu = cpu; memory = memory }, (cpu.bucket, memory.bucket))
