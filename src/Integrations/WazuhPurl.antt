-- ===== src/Integrations/WazuhPurl.antt =====
-- The purl of a package that Wazuh reports (src/vulnops/integrations/wazuh_purl.py). The values of a
-- package and of an agent are texts. `quote` is that of `urllib.parse`, a parameter: the characters
-- that it keeps, and the text.
use vulnops_hub.Prelude.{
  String, Bool, ◌||◌, Option, none, some, List, [], ◌∷◌, mem_text, str_eq, strip, lower, truthy,
  concat, starts_with, if◌then◌else◌,
}

pub record Package : Type 0 where
  pub purl : Option String
  pub name : Option String
  pub version : Option String
  pub format : Option String
  pub architecture : Option String
  pub vendor : Option String

pub record OsInfo : Type 0 where
  pub name : Option String
  pub version : Option String
  pub platform : Option String

pub record Agent : Type 0 where
  pub os : Option OsInfo
  pub os_name : Option String
  pub os_version : Option String
  pub platform : Option String

pub data DerivationStatus : Type 0 where
  present derived skipped : DerivationStatus

pub record PurlDerivationResult : Type 0 where
  pub status : DerivationStatus
  pub purl : Option String
  pub reason : Option String

abbrev pub invalid_versions : List String
invalid_versions = "" ∷ "-" ∷ "(none)" ∷ "unknown" ∷ "n/a" ∷ []

-- `_RPM_VENDOR_NEEDLES`: the longest first, those of a length in order
abbrev pub rpm_vendor_needles : List (String × String)
rpm_vendor_needles =
    ("almalinux", "almalinux")
    ∷ ("opensuse", "opensuse")
    ∷ ("red hat", "redhat")
    ∷ ("amazon", "amazon")
    ∷ ("centos", "centos")
    ∷ ("fedora", "fedora")
    ∷ ("oracle", "oracle")
    ∷ ("redhat", "redhat")
    ∷ ("rocky", "rocky")
    ∷ ("amzn", "amazon")
    ∷ ("rhel", "redhat")
    ∷ ("suse", "suse")
    ∷ []

-- `_clean`
abbrev pub clean : Option String → Option String
clean none = none
clean (some s) = if truthy (strip s) then some (strip s) else none

-- `needle in text`
unfoldable pub contains_text : String → String → Bool
unfolding starts_with
contains_text needle String.[] = starts_with needle String.[]
contains_text needle (String.◌∷◌ c s) =
    starts_with needle (String.◌∷◌ c s) || contains_text needle s

abbrev given_texts : List (Option String) → List String
given_texts [] = []
given_texts (none ∷ rest) = given_texts rest
given_texts (some s ∷ rest) = if truthy s then s ∷ given_texts rest else given_texts rest

-- `" ".join(parts)`
unfoldable pub spaced : List String → String
spaced [] = ""
spaced (s ∷ []) = s
spaced (s ∷ t ∷ rest) = concat s (concat " " (spaced (t ∷ rest)))

abbrev os_texts : Option OsInfo → List (Option String) → List (Option String)
os_texts none rest = rest
os_texts (some os) rest = os.name ∷ os.version ∷ os.platform ∷ rest

-- `_agent_distro_text`
unfoldable pub agent_distro_text : Option Agent → String
unfolding spaced
agent_distro_text none = ""
agent_distro_text (some a) =
    lower (spaced (given_texts (os_texts a.os (a.os_name ∷ a.os_version ∷ a.platform ∷ []))))

-- `_deb_namespace_from_distro`
unfoldable pub deb_namespace_from_distro : String → Option String
unfolding contains_text
deb_namespace_from_distro distro =
    if contains_text "ubuntu" distro
    then some "ubuntu"
    else if contains_text "debian" distro
    then some "debian"
    else none

abbrev first_needle : List (String × String) → String → Option String
first_needle [] vendor = none
first_needle ((needle, namespace) ∷ rest) vendor =
    if contains_text needle vendor then some namespace else first_needle rest vendor

-- `_rpm_namespace`
unfoldable pub rpm_namespace : Option String → Option String
unfolding contains_text
rpm_namespace none = none
rpm_namespace (some vendor) = first_needle rpm_vendor_needles (lower vendor)

-- `base`, or `skip_reason`
pub data Base : Type 0 where
  base skip : String → Base

abbrev skipped_for : String → PurlDerivationResult
skipped_for reason = record { status = skipped; purl = none; reason = some reason }

abbrev pub in_namespace : String → String → String → Option String → Base
in_namespace prefix rest reason none = skip reason
in_namespace prefix rest reason (some namespace) =
    base (concat prefix (concat namespace (concat "/" rest)))

-- The branches on the format, for `{encoded_name}@{encoded_version}`.
unfoldable pub base_of : String → String → Package → Option Agent → Base
unfolding agent_distro_text deb_namespace_from_distro rpm_namespace
base_of fmt named p agent =
    if str_eq fmt "deb"
    then in_namespace "pkg:deb/" named "deb_distro_unknown"
        (deb_namespace_from_distro (agent_distro_text agent))
    else if str_eq fmt "apk"
    then base (concat "pkg:apk/alpine/" named)
    else if str_eq fmt "rpm"
    then in_namespace "pkg:rpm/" named "rpm_namespace_unknown" (rpm_namespace (clean p.vendor))
    else if truthy fmt
    then skip (concat "unsupported_format:" fmt)
    else skip "missing_format"

abbrev pub format_of : Package → String
format_of p = elim (clean p.format) [ none ↦ lower "" | some f ↦ lower f ]

module _ (quote : String → String → String) where
  -- `base`, with the architecture where there is one
  abbrev pub with_arch : Option String → String → String
  with_arch none purl = purl
  with_arch (some arch) purl = concat purl (concat "?arch=" (quote "" (lower arch)))

  abbrev pub finish : String → Package → Base → PurlDerivationResult
  finish fmt p (skip reason) = skipped_for reason
  finish fmt p (base b) = record {
    status = derived;
    purl = some (with_arch (clean p.architecture) b);
    reason = some fmt;
  }

  abbrev pub named_purl : String → String → String
  named_purl name version = concat (quote "._-+" name) (concat "@" (quote "._-+~" version))

  abbrev pub derive_named : Package → Option Agent → String → String → PurlDerivationResult
  derive_named p agent name version =
      if mem_text (lower version) invalid_versions
      then skipped_for "invalid_version"
      else finish (format_of p) p (base_of (format_of p) (named_purl name version) p agent)

  abbrev pub derive_absent :
      Package → Option Agent → Option String → Option String → PurlDerivationResult
  derive_absent p agent (some name) (some version) = derive_named p agent name version
  derive_absent p agent _ _ = skipped_for "missing_name_or_version"

  abbrev pub derive_by : Package → Option Agent → Option String → PurlDerivationResult
  derive_by p agent (some existing) = record {
    status = present;
    purl = some existing;
    reason = none;
  }
  derive_by p agent none = derive_absent p agent (clean p.name) (clean p.version)

  unfoldable pub derive_purl_from_wazuh_package : Package → Option Agent → PurlDerivationResult
  unfolding base_of
  derive_purl_from_wazuh_package p agent = derive_by p agent (clean p.purl)

  abbrev merged : Package → PurlDerivationResult → Package
  merged p r = elim r.status [ derived ↦ record p { purl = r.purl } | present ↦ p | skipped ↦ p ]

  unfoldable pub enrich_wazuh_package : Package → Option Agent → Package × PurlDerivationResult
  unfolding derive_purl_from_wazuh_package
  enrich_wazuh_package p agent = let r = derive_purl_from_wazuh_package p agent in (merged p r, r)
