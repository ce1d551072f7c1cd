-- ===== src/Workers/Cases/Enriched.antt =====
-- The priority that a match gets (`_priority_for` of src/vulnops/workers/orchestration.py).
use vulnops_hub.Prelude.{
  ◌&&◌, arith, ℕ, String, Bool, false, Option, none, some, Bool-cases, ◌≡◌, refl, inl, inr,
}
use vulnops_hub.Db.{Priority}
use vulnops_hub.Db.Classes.{MatchClass}
use vulnops_hub.Session.{Session, Result, ok, run}
use vulnops_hub.Session.Keeps.{ReadsOnly, reads_only}
use vulnops_hub.Risk.Policy.{evaluate}
use vulnops_hub.Workers.Exposures.{is_case_class}
use vulnops_hub.Workers.Cases.{
  Sources, Epss, EpssRecord, Ranked, is_p4, floored, rank, policy_input, ask_kev, ask_epss,
  priority_for,
}

floored_strong : (c : MatchClass) (p : Priority) → (is_case_class c && is_p4 (floored c p)) ≡ false
unfolding floored
floored_strong c p = elim (Bool-cases (is_p4 p)) [
  | inl low ↦ elim (Bool-cases (is_case_class c)) [
    | inl strong ↦ rw (low, strong) refl
    | inr weak ↦ rw weak refl
  ]
  | inr high ↦ ground (arith, high)
]

ask_epss_runs :
    (ask : Option (String → Session → Result (Option EpssRecord))) (id : String) (s : Session)
    → (epss : Epss) × (ask_epss ask id s ≡ (ok epss, s))
unfolding run
ask_epss_runs none id s = (_, refl)
ask_epss_runs (some ask) id s = (_, refl)

-- Where the KEV source answers, a priority is found whatever the EPSS source does, and the
-- session is as it was; the priority is not P4 for a match of a class that opens cases.
pub priority_for-runs :
    (sources : Sources) (id : String) (c : MatchClass) (confidence : ℕ) (kev : Bool) (s : Session)
    → ask_kev sources.is_kev id s ≡ (ok kev, s)
    → (r : Ranked) × (priority_for sources id c confidence s ≡ (ok r, s))
      × (r.kev ≡ kev)
      × ((is_case_class c && is_p4 r.priority) ≡ false)
unfolding priority_for rank run
priority_for-runs sources id c confidence kev s asked =
    let (epss, scored) = ask_epss_runs sources.get_score id s in
    (
      rank sources.policy id c confidence kev epss,
      rw (asked, scored) refl,
      refl,
      floored_strong c (evaluate sources.policy (policy_input id c confidence kev epss)).priority,
    )

ask_kev-ReadsOnly :
    (ask : Option (String → Session → Result Bool)) (id : String) → ReadsOnly (ask_kev ask id)
ask_kev-ReadsOnly none id = search reads_only depth 8
ask_kev-ReadsOnly (some ask) id = search reads_only depth 8

ask_epss-ReadsOnly :
    (ask : Option (String → Session → Result (Option EpssRecord))) (id : String)
    → ReadsOnly (ask_epss ask id)
ask_epss-ReadsOnly none id = search reads_only depth 8
ask_epss-ReadsOnly (some ask) id = search reads_only depth 8

pub priority_for-ReadsOnly :
    (sources : Sources) (id : String) (c : MatchClass) (confidence : ℕ)
    → ReadsOnly (priority_for sources id c confidence)
unfolding priority_for
priority_for-ReadsOnly sources id c confidence =
    search (reads_only, ask_kev-ReadsOnly, ask_epss-ReadsOnly) depth 12
