-- ===== src/Cases/Expiry.antt =====
-- Datetimes and their failures (the helpers `_safe_utcoffset`, `_ensure_aware`, `_normalize_utc`
-- and the validators of src/vulnops/cases/service.py).
use vulnops_hub.Prelude.{
  ℕ, ◌+◌, ◌-◌, ◌*◌, String, Bool, true, false, not, Option, none, some, any, is_empty, leb, truthy,
  strip, if◌then◌else◌,
}
use vulnops_hub.Db.{
  Offset, raises, missing, east, west, naive, utc, zone, Datetime, Expiry, no_expiry, not_datetime,
  at_datetime, EvidenceId, evidence_text, not_text, EvidenceIds, not_list, evidence_list,
  DecisionType, unlisted_type,
}
use vulnops_hub.Session.{
  World, Action, Result, ok, err, value_error, datetime_error, raise, gets, lift, utcnow, raise_if,
  ◌>>=◌, ◌>>◌, expiry_timezone, expiry_required, expiry_past, unsupported_type, reason_required,
  no_evidence, blank_evidence,
}

abbrev pub utc_datetime : ℕ → Datetime
utc_datetime n = record { reading = n; tzinfo = utc }

-- `_ensure_aware`, for a value that is not `None`
unfoldable pub ensure_aware : Datetime → Datetime
ensure_aware d = elim d.tzinfo [ naive ↦ utc_datetime d.reading | _ ↦ d ]

-- `dt.utcoffset()`
unfoldable pub utcoffset : Datetime → Offset
utcoffset d = elim d.tzinfo [ naive ↦ missing | utc ↦ east 0 | zone z ↦ z.utcoffset ]

-- `_safe_utcoffset`: an offset, or `None`
unfoldable pub safe_utcoffset : Datetime → Result (Option Offset)
unfolding utcoffset
safe_utcoffset d = elim (utcoffset d) [
  | raises ↦ err (value_error expiry_timezone)
  | missing ↦ ok none
  | offset ↦ ok (some offset)
]

-- `datetime.max`, in whole seconds
abbrev max_reading : ℕ
max_reading = 3652059 * 86400 - 1

-- The conversion of a reading by an offset. A result before `datetime.min` or past `datetime.max` is
-- an `OverflowError`.
abbrev to_utc : World → ℕ → Offset → Option ℕ
to_utc w reading raises = none
to_utc w reading missing = w.system_utc reading
to_utc w reading (east k) = if leb k reading then some (reading - k) else none
to_utc w reading (west k) = if leb (reading + k) max_reading then some (reading + k) else none

-- `aware.astimezone(UTC)`, `none` where it raises; a zone that answers no offset is taken as the
-- system's
abbrev astimezone_utc : World → Datetime → Option ℕ
astimezone_utc w d = elim d.tzinfo [
  | naive ↦ w.system_utc d.reading
  | utc ↦ some d.reading
  | zone z ↦ if z.astimezone_raises then none else to_utc w d.reading z.utcoffset
]

abbrev or_timezone_error : Option ℕ → Result Datetime
or_timezone_error none = err (value_error expiry_timezone)
or_timezone_error (some n) = ok (utc_datetime n)

abbrev convert_aware : World → Datetime → Result (Option Offset) → Result Datetime
convert_aware w d (err e) = err e
convert_aware w d (ok _) = or_timezone_error (astimezone_utc w d)

-- `_normalize_utc`, for a value that is not `None`
unfoldable pub normalize_utc : World → Datetime → Result Datetime
unfolding ensure_aware safe_utcoffset
normalize_utc w d = convert_aware w (ensure_aware d) (safe_utcoffset (ensure_aware d))

-- `test d other`, for a comparison and an `other` in UTC; a naive `d` is a `TypeError`
unfoldable pub compare_instant : (ℕ → ℕ → Bool) → Datetime → ℕ → Result Bool
compare_instant test d now = elim d.tzinfo [
  | naive ↦ err datetime_error
  | utc ↦ ok (test d.reading now)
  | zone z ↦ if z.compare_raises then err datetime_error else elim z.utcoffset [
    | raises ↦ err datetime_error
    | missing ↦ err datetime_error
    | east k ↦ ok (test d.reading (now + k))
    | west k ↦ ok (test (d.reading + k) now)
  ]
]

-- `try: expired = ...` / `except _TIMEZONE_ERRORS: raise ValueError(...)`
abbrev or_timezone : Result Bool → Result Bool
or_timezone (err _) = err (value_error expiry_timezone)
or_timezone (ok b) = ok b

abbrev pub is_supported : DecisionType → Bool
is_supported (unlisted_type _) = false
is_supported _ = true

-- `isinstance(reason, str) and reason.strip()`
abbrev pub has_content : Option String → Bool
has_content none = false
has_content (some s) = truthy (strip s)

abbrev is_blank_id : EvidenceId → Bool
is_blank_id (evidence_text s) = not (truthy (strip s))
is_blank_id not_text = true

unfoldable pub validate_evidence_ids : EvidenceIds → Action (Unit {0})
unfolding raise
validate_evidence_ids not_list = raise (value_error no_evidence)
validate_evidence_ids (evidence_list ids) = do
  raise_if (is_empty ids) no_evidence
  raise_if (any is_blank_id ids) blank_evidence

-- The last steps of both validators: the expiry is compared with the clock.
unfoldable pub require_future : Datetime → Action (Unit {0})
require_future d = do
  now ← utcnow
  expired_now ← lift (or_timezone (compare_instant leb d now))
  raise_if expired_now expiry_past

abbrev is_missing_offset : Option Offset → Bool
is_missing_offset none = true
is_missing_offset (some _) = false

abbrev is_naive : Datetime → Bool
is_naive d = elim d.tzinfo [ naive ↦ true | _ ↦ false ]

unfoldable pub validate_request_expiry : Expiry → Action (Unit {0})
unfolding raise
validate_request_expiry no_expiry = raise (value_error expiry_required)
validate_request_expiry not_datetime = raise (value_error expiry_timezone)
validate_request_expiry (at_datetime d) = do
  raise_if (is_naive d) expiry_timezone
  offset ← lift (safe_utcoffset d)
  raise_if (is_missing_offset offset) expiry_timezone
  require_future d

-- `_validate_risk_decision_request`
unfoldable pub validate_risk_decision_request :
    DecisionType → Option String → EvidenceIds → Expiry → Action (Unit {0})
validate_risk_decision_request type reason evidence_ids expires_at = do
  raise_if (not (is_supported type)) unsupported_type
  raise_if (not (has_content reason)) reason_required
  validate_evidence_ids evidence_ids
  validate_request_expiry expires_at

-- `_validate_risk_decision_expiry`
unfoldable pub validate_risk_decision_expiry : Expiry → Action (Unit {0})
unfolding raise
validate_risk_decision_expiry no_expiry = raise (value_error expiry_required)
validate_risk_decision_expiry not_datetime = raise (value_error expiry_timezone)
validate_risk_decision_expiry (at_datetime d) = do
  w ← gets (λ s. s.world)
  effective ← lift (normalize_utc w d)
  require_future effective
