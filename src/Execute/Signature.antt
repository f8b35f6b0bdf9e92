-- ===== src/Execute/Signature.antt =====
-- Signatures of values, and the interface that addresses and services share
-- (src/app/modules/execute/services/rule_values_resolver.py, `CoverableMatchableObject`,
-- `_ResolvedCoverageValue` and `_distinct_resolved_values`).
use native.Mathlib.Decide.{ℕ_discrete}
use nsp_migrator.Prelude.{ℕ, Bool, Option, none, some, List, [], ◌∷◌}
use nsp_migrator.Prelude.Eq.{Eq}
use nsp_migrator.Prelude.Dict.{Dict, set_default, values}
use nsp_migrator.Prelude.Text.{Text, text_leb}
use nsp_migrator.Prelude.Sort.{sorted}
use nsp_migrator.Catalog.{SdwanServiceL4Proto}
use nsp_migrator.Execute.Rules.{CoverageValue}
use nsp_migrator.Execute.Values.{AddressValue, span, name, address_covers}
use nsp_migrator.Execute.Services.{ServiceValue, service_covers}

-- The results of the `signature()` methods.
pub data Signature : Type 0 where
  ipv4 : ℕ → ℕ → Signature
  fqdn : Text → Signature
  service : SdwanServiceL4Proto → Option ℕ → Option ℕ → Option (List Text) → Signature

signature_dec : Discrete Signature
signature_dec = hlevel ℕ_discrete

instance unfoldable pub signature_eq : Eq Signature
unfolding signature_dec
signature_eq = record { dec = signature_dec }

-- `CoverableMatchableObject`
pub record Coverable (A : Type 0) : Type 0 where
  pub covers : A → A → Bool
  pub signature : A → Signature

unfoldable pub address_signature : AddressValue → Signature
address_signature (span a) = ipv4 a.start a.end
address_signature (name a) = fqdn a.domain

-- The codes of an ICMP service are sorted.
unfoldable pub service_signature : ServiceValue → Signature
unfolding sorted text_leb
service_signature a =
    service a.proto a.port_start a.port_end
      (elim a.codes [ none ↦ none | some cs ↦ some (sorted text_leb cs) ])

instance abbrev pub address_coverable : Coverable AddressValue
address_coverable = record { covers = address_covers; signature = address_signature }

instance abbrev pub service_coverable : Coverable ServiceValue
service_coverable = record { covers = service_covers; signature = service_signature }

-- `_ResolvedCoverageValue`
pub record ResolvedCoverageValue (A : Type 0) : Type 0 where
  pub value : A
  pub evidence : CoverageValue

module _ {A : Type 0} ⦃c : Coverable A⦄ where
  unfoldable pub set_defaults :
      List (ResolvedCoverageValue A)
      → Dict Signature (ResolvedCoverageValue A)
      → Dict Signature (ResolvedCoverageValue A)
  unfolding set_default signature_eq
  set_defaults [] d = d
  set_defaults (x ∷ xs) d = set_defaults xs (set_default (c.signature x.value) x d)

  -- `_distinct_resolved_values`
  unfoldable pub distinct_resolved_values :
      List (ResolvedCoverageValue A) → List (ResolvedCoverageValue A)
  unfolding set_defaults values
  distinct_resolved_values xs = values (set_defaults xs [])
