-- ===== src/Workers/Handlers/Shared.antt =====
-- What the handlers of src/vulnops/workers/orchestration.py share: the lookup and the match.
use vulnops_hub.Prelude.{String, Bool, true, false, Option, List}
use vulnops_hub.Session.{Action, pure, gets, lift, uuid4, ◌>>=◌}
use vulnops_hub.Matching.Versioning.{Packaging}
use vulnops_hub.Matching.Identity.{Component}
use vulnops_hub.Matching.Service.{Advisory, ScannerEvidence, ExposureResult, evaluate}
use vulnops_hub.Workers.Advisories.{AdvisoryRecord}
use vulnops_hub.Workers.Cases.{Query, Sources}

-- An identifier is drawn where the match opens a case.
abbrev pub drawing : ExposureResult → Bool → Action ExposureResult
drawing r false = pure r
drawing r true = do id ← uuid4; pure r

module _ (p : Packaging) (sources : Sources) where
  unfoldable pub lookup : List Query → Action (List AdvisoryRecord)
  lookup queries = do answer ← gets (sources.lookup_batch queries); lift answer

  -- `self.matcher.evaluate`, without an asset context
  unfoldable pub evaluate_match :
      Component → Advisory → Option ScannerEvidence → Option String → Action ExposureResult
  evaluate_match c adv evidence vex = do
    r ← gets (λ s. evaluate p (s.world.uuid s.draws) c adv false evidence vex)
    drawing r r.should_create_case
