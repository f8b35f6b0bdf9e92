-- ===== src/Cisco/Acls/Tail.antt =====
-- The service and the modifiers at the end of an access rule, as they are written.
use nsp_migrator.Prelude.{
  ◌≡◌, refl, inl, inr, Bool, true, false, Option, none, some, List, [], ◌∷◌, ◌++◌, arith,
  Bool-cases,
}
use nsp_migrator.Prelude.Eq.{◌==◌, list_eq, nat_eq}
use nsp_migrator.Prelude.Text.{Text, codes, lower}
use nsp_migrator.Cisco.Config.{literal, ip_protocol_number, operand_kind_eq}
use nsp_migrator.Cisco.Operands.{ParsedProtocolOperand}
use nsp_migrator.Cisco.Endpoints.{
  after_last, token_after, range_after, extract_service_ref, icmp_ref,
}
use native.Mathlib.Decide.{ℕ_discrete}

pub data PortOperator : Type 0 where
  eq lt gt neq : PortOperator

abbrev pub operator_text : PortOperator → Text
operator_text eq = codes "eq"
operator_text lt = codes "lt"
operator_text gt = codes "gt"
operator_text neq = codes "neq"

pub data Service : Type 0 where
  any_service : Service
  port : PortOperator → Text → Service
  port_range : Text → Text → Service
  service_named service_group_named : Text → Service

abbrev pub service_tokens : Service → List Text
service_tokens any_service = []
service_tokens (port op p) = operator_text op ∷ p ∷ []
service_tokens (port_range first last) = codes "range" ∷ first ∷ last ∷ []
service_tokens (service_named name) = codes "object" ∷ name ∷ []
service_tokens (service_group_named name) = codes "object-group" ∷ name ∷ []

abbrev pub service_ref_of : Service → Option Text
service_ref_of any_service = none
service_ref_of (port op p) = some p
service_ref_of (port_range first last) = some (first ++ (codes "-" ++ last))
service_ref_of (service_named name) = some name
service_ref_of (service_group_named name) = some name

-- A token that is none of the words of the rule.
pub record IsPlain (t : Text) : Type 0 where
  pub object_group : (lower t == codes "object-group") ≡ false
  pub object : (lower t == codes "object") ≡ false
  pub eq : (lower t == codes "eq") ≡ false
  pub lt : (lower t == codes "lt") ≡ false
  pub gt : (lower t == codes "gt") ≡ false
  pub neq : (lower t == codes "neq") ≡ false
  pub range : (lower t == codes "range") ≡ false
  pub inactive : (lower t == codes "inactive") ≡ false
  pub log : (lower t == codes "log") ≡ false
  pub time_range : (lower t == codes "time-range") ≡ false

abbrev pub IsService : Service → Type 0
IsService any_service = Unit
IsService (port op p) = IsPlain p
IsService (port_range first last) = IsPlain first × IsPlain last
IsService (service_named name) = IsPlain name
IsService (service_group_named name) = IsPlain name

abbrev pub log_tokens : Bool → List Text
log_tokens true = codes "log" ∷ []
log_tokens false = []

after_last-skip :
    (w t : Text) (ts : List Text)
    → (lower t == w) ≡ false
    → after_last w ts ≡ none
    → after_last w (t ∷ ts) ≡ none
unfolding after_last
after_last-skip w t ts differs none_later = rw (none_later, after_last) (rw differs refl)

after_last-hit :
    (w t : Text) (ts : List Text)
    → (lower t == w) ≡ true
    → after_last w ts ≡ none
    → after_last w (t ∷ ts) ≡ some ts
unfolding after_last
after_last-hit w t ts same none_later = rw (none_later, after_last) (rw same refl)

after_last-log :
    (w : Text) (log : Bool)
    → (lower (codes "log") == w) ≡ false
    → after_last w (log_tokens log) ≡ none
unfolding after_last
after_last-log w true h = after_last-skip w (codes "log") [] h refl
after_last-log w false h = refl

-- What stands after the first word of a service of two tokens.
module _ (first p : Text) (log : Bool) (w : Text) (quiet : (lower (codes "log") == w) ≡ false)
    (plain : (lower p == w) ≡ false) where
  two_miss : (lower first == w) ≡ false → token_after w (first ∷ p ∷ log_tokens log) ≡ none
  unfolding token_after
  two_miss differs =
      rw
        (
          after_last-skip w first (p ∷ log_tokens log) differs
              (after_last-skip w p (log_tokens log) plain (after_last-log w log quiet)),
          token_after,
        )
        refl

  two_hit : (lower first == w) ≡ true → token_after w (first ∷ p ∷ log_tokens log) ≡ some p
  unfolding token_after
  two_hit same =
      rw
        (
          after_last-hit w first (p ∷ log_tokens log) same
              (after_last-skip w p (log_tokens log) plain (after_last-log w log quiet)),
          token_after,
        )
        refl

-- Nothing stands after any other word of a range.
range_miss :
    (p q : Text) (log : Bool) (w : Text)
    → (lower (codes "log") == w) ≡ false
    → (lower p == w) ≡ false
    → (lower q == w) ≡ false
    → (lower (codes "range") == w) ≡ false
    → token_after w (codes "range" ∷ p ∷ q ∷ log_tokens log) ≡ none
unfolding token_after
range_miss p q log w quiet hp hq differs =
    rw
      (
        after_last-skip w (codes "range") (p ∷ q ∷ log_tokens log) differs (
            after_last-skip w p (q ∷ log_tokens log) hp
              (after_last-skip w q (log_tokens log) hq (after_last-log w log quiet))),
        token_after,
      )
      refl

range_hit :
    (p q : Text) (log : Bool)
    → IsPlain p
    → IsPlain q
    → range_after (codes "range" ∷ p ∷ q ∷ log_tokens log) ≡ some (p ++ (codes "-" ++ q))
unfolding range_after ℕ_discrete
range_hit p q log hp hq =
    rw
      (
        after_last-hit (codes "range") (codes "range") (p ∷ q ∷ log_tokens log) refl (
            after_last-skip (codes "range") p (q ∷ log_tokens log) hp.range (
              after_last-skip (codes "range") q (log_tokens log) hq.range
                (after_last-log (codes "range") log refl))),
        range_after,
      )
      refl

-- The service is read, whether `log` follows or not, unless the protocol is a number.
pub extract_service_ref-tokens :
    (operand : ParsedProtocolOperand) (s : Service) (log : Bool)
    → (operand.kind == ip_protocol_number) ≡ false
    → IsService s
    → extract_service_ref operand (service_tokens s ++ log_tokens log) ≡ service_ref_of s
unfolding extract_service_ref icmp_ref token_after range_after after_last ℕ_discrete
extract_service_ref-tokens operand any_service true k h =
    rw (k, extract_service_ref)
      (elim (Bool-cases (operand.kind == literal)) [
        | inl b ↦ ground arith
        | inr b ↦ rw (b, icmp_ref) refl
      ])
extract_service_ref-tokens operand any_service false k h = rw (k, extract_service_ref) refl
extract_service_ref-tokens operand (port eq p) log k h =
    rw
      (
        k,
        two_miss (codes "eq") p log (codes "object-group") refl h.object_group refl,
        two_miss (codes "eq") p log (codes "object") refl h.object refl,
        two_hit (codes "eq") p log (codes "eq") refl h.eq refl,
        extract_service_ref,
      )
      refl
extract_service_ref-tokens operand (port lt p) log k h =
    rw
      (
        k,
        two_miss (codes "lt") p log (codes "object-group") refl h.object_group refl,
        two_miss (codes "lt") p log (codes "object") refl h.object refl,
        two_miss (codes "lt") p log (codes "eq") refl h.eq refl,
        two_hit (codes "lt") p log (codes "lt") refl h.lt refl,
        extract_service_ref,
      )
      refl
extract_service_ref-tokens operand (port gt p) log k h =
    rw
      (
        k,
        two_miss (codes "gt") p log (codes "object-group") refl h.object_group refl,
        two_miss (codes "gt") p log (codes "object") refl h.object refl,
        two_miss (codes "gt") p log (codes "eq") refl h.eq refl,
        two_miss (codes "gt") p log (codes "lt") refl h.lt refl,
        two_hit (codes "gt") p log (codes "gt") refl h.gt refl,
        extract_service_ref,
      )
      refl
extract_service_ref-tokens operand (port neq p) log k h =
    rw
      (
        k,
        two_miss (codes "neq") p log (codes "object-group") refl h.object_group refl,
        two_miss (codes "neq") p log (codes "object") refl h.object refl,
        two_miss (codes "neq") p log (codes "eq") refl h.eq refl,
        two_miss (codes "neq") p log (codes "lt") refl h.lt refl,
        two_miss (codes "neq") p log (codes "gt") refl h.gt refl,
        two_hit (codes "neq") p log (codes "neq") refl h.neq refl,
        extract_service_ref,
      )
      refl
extract_service_ref-tokens operand (port_range first last) log k (h, g) =
    rw
      (
        k,
        range_miss first last log (codes "object-group") refl h.object_group g.object_group refl,
        range_miss first last log (codes "object") refl h.object g.object refl,
        range_miss first last log (codes "eq") refl h.eq g.eq refl,
        range_miss first last log (codes "lt") refl h.lt g.lt refl,
        range_miss first last log (codes "gt") refl h.gt g.gt refl,
        range_miss first last log (codes "neq") refl h.neq g.neq refl,
        range_hit first last log h g,
        extract_service_ref,
      )
      refl
extract_service_ref-tokens operand (service_named name) log k h =
    rw
      (
        k,
        two_miss (codes "object") name log (codes "object-group") refl h.object_group refl,
        two_hit (codes "object") name log (codes "object") refl h.object refl,
        extract_service_ref,
      )
      refl
extract_service_ref-tokens operand (service_group_named name) log k h =
    rw
      (
        k,
        two_hit (codes "object-group") name log (codes "object-group") refl h.object_group refl,
        extract_service_ref,
      )
      refl
