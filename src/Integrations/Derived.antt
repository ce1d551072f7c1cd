-- ===== src/Integrations/Derived.antt =====
-- A derived purl and the worker that reads it (src/vulnops/integrations/wazuh_purl.py, and
-- `_component_from_fields` of src/vulnops/workers/orchestration.py).
use vulnops_hub.Prelude.{
  String, Option, none, some, mem_text, str_eq, truthy, concat, subst, drop_chars, before,
  starts_with, lower, eq_iff, cons-append, append-nil, append_assoc_text, if-holds, ◌≡◌, refl, sym,
  ap, ◌∙◌, some-injective,
}
use vulnops_hub.Workers.Advisories.{purl_ecosystem}
use vulnops_hub.Integrations.WazuhPurl.{
  Package, Agent, derived, PurlDerivationResult, Base, base, skip, base_of, in_namespace, clean,
  with_arch, finish, deb_namespace_from_distro, agent_distro_text, rpm_namespace, invalid_versions,
  format_of, named_purl, derive_absent, derive_by, derive_purl_from_wazuh_package,
}

eco_deb : (x : String) → purl_ecosystem (some (concat "pkg:deb/" x)) ≡ some "deb"
unfolding purl_ecosystem starts_with drop_chars before lower
eco_deb x =
    rw
      (
        cons-append "p" "kg:deb/" x,
        cons-append "k" "g:deb/" x,
        cons-append "g" ":deb/" x,
        cons-append ":" "deb/" x,
        cons-append "d" "eb/" x,
        cons-append "e" "b/" x,
        cons-append "b" "/" x,
        cons-append "/" "" x,
      )
      refl

eco_apk : (x : String) → purl_ecosystem (some (concat "pkg:apk/alpine/" x)) ≡ some "apk"
unfolding purl_ecosystem starts_with drop_chars before lower
eco_apk x =
    rw
      (
        cons-append "p" "kg:apk/alpine/" x,
        cons-append "k" "g:apk/alpine/" x,
        cons-append "g" ":apk/alpine/" x,
        cons-append ":" "apk/alpine/" x,
        cons-append "a" "pk/alpine/" x,
        cons-append "p" "k/alpine/" x,
        cons-append "k" "/alpine/" x,
        cons-append "/" "alpine/" x,
      )
      refl

eco_rpm : (x : String) → purl_ecosystem (some (concat "pkg:rpm/" x)) ≡ some "rpm"
unfolding purl_ecosystem starts_with drop_chars before lower
eco_rpm x =
    rw
      (
        cons-append "p" "kg:rpm/" x,
        cons-append "k" "g:rpm/" x,
        cons-append "g" ":rpm/" x,
        cons-append ":" "rpm/" x,
        cons-append "r" "pm/" x,
        cons-append "p" "m/" x,
        cons-append "m" "/" x,
        cons-append "/" "" x,
      )
      refl

-- A purl, with whatever stands after it, is read as one of the format.
abbrev Reads : String → String → Type 0
Reads fmt purl = (suffix : String) → purl_ecosystem (some (concat purl suffix)) ≡ some fmt

-- A text that begins with a prefix that is read so.
Reads-prefix :
    (fmt prefix x : String)
    → ((y : String) → purl_ecosystem (some (concat prefix y)) ≡ some fmt)
    → Reads fmt (concat prefix x)
Reads-prefix fmt prefix x eco suffix =
    ap (λ t. purl_ecosystem (some t)) (append_assoc_text prefix x suffix) ∙ eco (concat x suffix)

abbrev BaseReads : String → Base → Type 0
BaseReads fmt (base b) = Reads fmt b
BaseReads fmt (skip reason) = Unit

in_namespace-BaseReads :
    (fmt prefix rest reason : String) (namespace : Option String)
    → ((y : String) → purl_ecosystem (some (concat prefix y)) ≡ some fmt)
    → BaseReads fmt (in_namespace prefix rest reason namespace)
in_namespace-BaseReads fmt prefix rest reason none eco = tt
in_namespace-BaseReads fmt prefix rest reason (some namespace) eco =
    Reads-prefix fmt prefix (concat namespace (concat "/" rest)) eco

base_of-BaseReads :
    (fmt named : String) (p : Package) (agent : Option Agent)
    → BaseReads fmt (base_of fmt named p agent)
unfolding base_of
base_of-BaseReads fmt named p agent =
    let deb = deb_namespace_from_distro (agent_distro_text agent) in
    let rpm = rpm_namespace (clean p.vendor) in
    if-holds (BaseReads fmt) (str_eq fmt "deb")
      (λ is_deb.
        subst (λ f. BaseReads f (in_namespace "pkg:deb/" named "deb_distro_unknown" deb))
          (sym ((eq_iff fmt "deb").0 is_deb))
          (in_namespace-BaseReads "deb" "pkg:deb/" named "deb_distro_unknown" deb eco_deb))
      (λ _.
        if-holds (BaseReads fmt) (str_eq fmt "apk")
          (λ is_apk.
            subst (λ f. BaseReads f (base (concat "pkg:apk/alpine/" named)))
              (sym ((eq_iff fmt "apk").0 is_apk))
              (Reads-prefix "apk" "pkg:apk/alpine/" named eco_apk))
          (λ _.
            if-holds (BaseReads fmt) (str_eq fmt "rpm")
              (λ is_rpm.
                subst (λ f. BaseReads f (in_namespace "pkg:rpm/" named "rpm_namespace_unknown" rpm))
                  (sym ((eq_iff fmt "rpm").0 is_rpm))
                  (in_namespace-BaseReads "rpm" "pkg:rpm/" named "rpm_namespace_unknown" rpm
                    eco_rpm))
              (λ _. if-holds (BaseReads fmt) (truthy fmt) (λ _. tt) (λ _. tt))))

module _ (quote : String → String → String) where
  with_arch-Reads :
      (fmt purl : String) (arch : Option String)
      → Reads fmt purl
      → purl_ecosystem (some (with_arch quote arch purl)) ≡ some fmt
  with_arch-Reads fmt purl none reads =
      ap (λ t. purl_ecosystem (some t)) (sym (append-nil purl)) ∙ reads ""
  with_arch-Reads fmt purl (some arch) reads = reads _

  -- A derived result is read by the worker as one of its format.
  abbrev IsRead : PurlDerivationResult → Type 0
  IsRead r =
      (purl : String)
      → r.status ≡ derived
      → r.purl ≡ some purl
      → (fmt : String) × (r.reason ≡ some fmt) × (purl_ecosystem (some purl) ≡ some fmt)

  finish-IsRead :
      (fmt : String) (p : Package) (b : Base) → BaseReads fmt b → IsRead (finish quote fmt p b)
  finish-IsRead fmt p (skip reason) reads purl status found = cc
  finish-IsRead fmt p (base b) reads purl status found = (
    fmt,
    refl,
    ap (λ t. purl_ecosystem (some t)) (sym (some-injective found))
        ∙ with_arch-Reads fmt b (clean p.architecture) reads,
  )

  derive_absent-IsRead :
      (p : Package) (agent : Option Agent) (name version : Option String)
      → IsRead (derive_absent quote p agent name version)
  derive_absent-IsRead p agent none version = λ purl status found. cc
  derive_absent-IsRead p agent (some name) none = λ purl status found. cc
  derive_absent-IsRead p agent (some name) (some version) =
      if-holds IsRead (mem_text (lower version) invalid_versions) (λ _ purl status found. cc)
        (λ _.
          finish-IsRead (format_of p) p _
            (base_of-BaseReads (format_of p) (named_purl quote name version) p agent))

  derive_by-IsRead :
      (p : Package) (agent : Option Agent) (existing : Option String)
      → IsRead (derive_by quote p agent existing)
  derive_by-IsRead p agent (some existing) = λ purl status found. cc
  derive_by-IsRead p agent none = derive_absent-IsRead p agent (clean p.name) (clean p.version)

-- Where a purl is derived for a package of Wazuh, the ecosystem that the worker reads from that
-- purl is the format that the derivation names, however the texts are quoted.
pub derive_purl_ecosystem :
    (quote : String → String → String) (p : Package) (agent : Option Agent) (purl : String)
    → (derive_purl_from_wazuh_package quote p agent).status ≡ derived
    → (derive_purl_from_wazuh_package quote p agent).purl ≡ some purl
    → (fmt : String) × ((derive_purl_from_wazuh_package quote p agent).reason ≡ some fmt)
      × (purl_ecosystem (some purl) ≡ some fmt)
unfolding derive_purl_from_wazuh_package
derive_purl_ecosystem quote p agent purl status found =
    derive_by-IsRead quote p agent (clean p.purl) purl status found
