-- ===== src/FastLane.antt =====
-- The fast lane of the admission gate: the narrow exemption for short, light work while the host is
-- red on CPU. sessionpressure/workfastlane.go. A percentage is a number of thousandths.
pub mod Verdict
use Prim.Native.String.{String}
use session_pressure.Common.{
  Bool, ℕ, Option, if◌then◌else◌, ◌==◌, not, some, ◌||◌, ltb, none, ◌&&◌, leb, ◌*◌,
}
use text.Mathlib.Text.{◌==◌ as str_eq}

pub data Refusal : Type 0 where
  disabled wrong_dimension too_heavy too_long calibration_missing : Refusal
  no_capacity coordinated_dominant : Refusal

pub record Inputs : Type 0 where
  pub enabled : Bool
  pub dimension : String
  pub weight : ℕ
  pub max_weight : ℕ
  pub calibrated_p95_runtime_ms : ℕ
  pub calibration_available : Bool
  pub max_runtime_ms : ℕ
  pub free_capacity : ℕ
  pub capacity : ℕ
  pub coordinated_cpu_available : Bool
  pub coordinated_cpu_percent : ℕ
  pub coordinated_cpu_ceiling : ℕ

-- The ceiling on the coordinated share, 50 percent where none is set.
abbrev pub cpu_ceiling : Inputs → ℕ
cpu_ceiling i = if i.coordinated_cpu_ceiling == 0 then 50_000 else i.coordinated_cpu_ceiling

-- The verdict, and why work does not qualify: `none` admits.
unfoldable pub evaluate_fast_lane : Inputs → Option Refusal
evaluate_fast_lane i =
    if not i.enabled
    then some disabled
    else if not (str_eq i.dimension "cpu")
    then some wrong_dimension
    else if i.max_weight == 0 || ltb i.max_weight i.weight
    then some too_heavy
    else if not i.calibration_available
    then some calibration_missing
    else if i.max_runtime_ms == 0 || ltb i.max_runtime_ms i.calibrated_p95_runtime_ms
    then some too_long
    else if ltb i.free_capacity i.weight
    then some no_capacity
    else if i.coordinated_cpu_available
    then if ltb (cpu_ceiling i) i.coordinated_cpu_percent then some coordinated_dominant else none
    else if ltb 0 i.capacity && leb i.capacity (i.free_capacity * 2)
    then none
    else some coordinated_dominant
