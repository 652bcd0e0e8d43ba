-- ===== src/Metrics/Quality/Order.antt =====
-- crates/notch-metrics/src/aggregate.rs: the worse of two qualities.
use llm_notch.Prelude.{ℕ, ◌≡◌, max, arith}
use llm_notch.Protocol.{AttributionQuality, MetricAvailability, IoQuality}
use llm_notch.Metrics.Quality.{worsen_attribution, worsen_cpu, worsen_io}

-- How bad an attribution is.
abbrev pub badness : AttributionQuality → ℕ
badness AttributionQuality.exact = 0
badness AttributionQuality.shared = 1
badness AttributionQuality.heuristic = 2
badness AttributionQuality.unknown = 3

abbrev pub cpu_badness : MetricAvailability → ℕ
cpu_badness MetricAvailability.available = 0
cpu_badness MetricAvailability.warming_up = 1
cpu_badness MetricAvailability.unavailable = 2

worsen_attribution-max :
    (a b : AttributionQuality) → badness (worsen_attribution a b) ≡ max (badness a) (badness b)
unfolding worsen_attribution
worsen_attribution-max a b = ground arith

worsen_cpu-max :
    (a b : MetricAvailability) → cpu_badness (worsen_cpu a b) ≡ max (cpu_badness a) (cpu_badness b)
unfolding worsen_cpu
worsen_cpu-max a b = ground arith

worsen_io_comm : (a b : IoQuality) → worsen_io a b ≡ worsen_io b a
unfolding worsen_io
worsen_io_comm a b = ground arith

worsen_io_assoc : (a b c : IoQuality) → worsen_io (worsen_io a b) c ≡ worsen_io a (worsen_io b c)
unfolding worsen_io
worsen_io_assoc a b c = ground arith

worsen_io_idem : (a : IoQuality) → worsen_io a a ≡ a
unfolding worsen_io
worsen_io_idem a = ground arith

-- The worse of two attributions, or of two availabilities, is the one that is worse in a fixed
-- order; the worse of two sources of traffic depends neither on their order nor on how three are
-- grouped, and of equal ones it is that one.
pub worsen_laws :
    ((a b : AttributionQuality) → badness (worsen_attribution a b) ≡ max (badness a) (badness b))
    × ((a b : MetricAvailability)
        → cpu_badness (worsen_cpu a b) ≡ max (cpu_badness a) (cpu_badness b))
    × ((a b : IoQuality) → worsen_io a b ≡ worsen_io b a)
    × ((a b c : IoQuality) → worsen_io (worsen_io a b) c ≡ worsen_io a (worsen_io b c))
    × ((a : IoQuality) → worsen_io a a ≡ a)
worsen_laws =
    (worsen_attribution-max, worsen_cpu-max, worsen_io_comm, worsen_io_assoc, worsen_io_idem)
