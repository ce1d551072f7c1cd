-- ===== src/Db/Classes.antt =====
-- The classes of a match and the states of an exposure (src/vulnops/matching/models.py).
use vulnops_hub.Prelude.{String}

-- `match_class`
pub data MatchClass : Type 0 where
  confirmed deterministic corroborated candidate not_affected : MatchClass
  unlisted_class : String → MatchClass

-- `Exposure.state`
pub data ExposureState : Type 0 where
  active_exposure candidate_exposure not_affected_exposure : ExposureState
  unlisted_state : String → ExposureState
