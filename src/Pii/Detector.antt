-- ===== src/Pii/Detector.antt =====
-- internal/pii/detector.go, and the input of a detector in internal/pii/types.go. A detector is
-- whatever answers; the registry keeps detectors in order.
use alfa_hakaton.Common.{
  Bool, Bytes, bytes_eq, List, [], ◌∷◌, ◌++◌, any, if◌then◌else◌, Option, ◌==◌, length,
}
use alfa_hakaton.Pii.Types.{Category, Span}

pub record Text : Type 0 where
  pub raw : Bytes
  pub lower : Bytes

-- Byte offsets into `raw` are valid in `lower`.
unfoldable pub lower_ok : Text → Bool
lower_ok t = length t.lower == length t.raw

-- `detect_lower` is there for a detector that implements `LowerDetector`.
pub record Detector : Type 0 where
  pub name : Bytes
  pub categories : List Category
  pub detect : Bytes → List Span
  pub detect_lower : Option (Text → List Span)

pub record Registry : Type 0 where
  pub detectors : List Detector

unfoldable pub new_registry : Registry
new_registry = record { detectors = [] }

unfoldable pub register : Registry → Detector → Registry
register r d = record r { detectors = r.detectors ++ d ∷ [] }

unfoldable pub all : Registry → List Detector
all r = r.detectors

abbrev has : List Bytes → Bytes → Bool
has keys k = any (λ j. bytes_eq j k) keys

unfoldable pub enabled_of : List Category → List Detector → List Detector
enabled_of categories [] = []
enabled_of categories (d ∷ ds) =
    if any (has categories) d.categories
    then d ∷ enabled_of categories ds
    else enabled_of categories ds

-- The detectors that produce at least one of the categories.
unfoldable pub enabled : Registry → List Category → List Detector
unfolding enabled_of
enabled r categories = enabled_of categories r.detectors
