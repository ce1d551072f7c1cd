-- ===== src/Workers/Payload.antt =====
-- How the handlers of src/vulnops/workers/orchestration.py read the payload of an event. Its values
-- are those that the producers write: identifiers are texts, and a value of another shape reads as
-- absent.
use vulnops_hub.Prelude.{
  ℕ, zero, suc, ◌/◌, ◌%◌, String, Bool, true, false, not, Option, none, some, List, [], ◌∷◌, concat,
  first_chars, drop_chars, str_eq, truthy, is_empty, ltb, ◌==◌, if◌then◌else◌, ◌≡◌, refl,
}
use vulnops_hub.Db.{Json, text, number, flag, texts, expiry, coverage_dict, dict, Expiry}
use vulnops_hub.Db.Classes.{
  MatchClass, confirmed, deterministic, corroborated, candidate, not_affected, unlisted_class,
}

abbrev pub Payload : Type 0
Payload = List (String × Json)

abbrev pub get : String → Payload → Option Json
get key [] = none
get key ((k, v) ∷ rest) = if str_eq k key then some v else get key rest

abbrev as_text : Option Json → Option String
as_text (some (text s)) = some s
as_text _ = none

abbrev as_dict : Option Json → List (String × Option String)
as_dict (some (dict d)) = d
as_dict _ = []

abbrev pub text_at : String → Payload → Option String
text_at key payload = as_text (get key payload)

-- `payload.get(key) or {}`
abbrev pub dict_at : String → Payload → List (String × Option String)
dict_at key payload = as_dict (get key payload)

abbrev pub entry_at : String → List (String × Option String) → Option String
entry_at key [] = none
entry_at key ((k, v) ∷ rest) = if str_eq k key then v else entry_at key rest

-- `value or default`
abbrev pub or_default : Option String → String → String
or_default none default = default
or_default (some s) default = if truthy s then s else default

-- `str(value)` of a text or `None`
abbrev pub str_of : Option String → String
str_of none = "None"
str_of (some s) = s

abbrev json_truth : Option Json → Bool
json_truth (some (text s)) = truthy s
json_truth (some (number n)) = not (n == 0)
json_truth (some (flag b)) = b
json_truth (some (texts xs)) = not (is_empty xs)
json_truth (some (dict d)) = not (is_empty d)
json_truth (some (expiry (Expiry.no_expiry))) = false
json_truth (some (expiry _)) = true
json_truth (some (coverage_dict _)) = true
json_truth _ = false

-- `bool(payload.get(key))`
abbrev pub truth_at : String → Payload → Bool
truth_at key payload = json_truth (get key payload)

abbrev digit : ℕ → String
digit n = first_chars 1 (drop_chars n "0123456789")

-- `str(n)`; a number has fewer digits than its value and one more
unfoldable decimal_by : ℕ → ℕ → String
decimal_by zero n = ""
decimal_by (suc fuel) n =
    let rest = decimal_by fuel (n / 10) in
    if ltb n 10 then digit n else concat rest (digit (n % 10))

unfoldable pub decimal : ℕ → String
unfolding decimal_by
decimal n = decimal_by (suc n) n

abbrev pub class_text : MatchClass → String
class_text confirmed = "confirmed"
class_text deterministic = "deterministic"
class_text corroborated = "corroborated"
class_text candidate = "candidate"
class_text not_affected = "not_affected"
class_text (unlisted_class s) = s

decimal_sample : decimal 1204 ≡ "1204"
unfolding decimal drop_chars
decimal_sample = refl
