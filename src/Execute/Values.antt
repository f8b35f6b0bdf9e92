-- ===== src/Execute/Values.antt =====
-- Normalized values of a rule and their order by coverage
-- (src/app/modules/execute/services/rule_values_resolver.py: errors and address values).
use nsp_migrator.Prelude.{
  ℕ, ◌/◌, ◌%◌, ◌^◌, Bool, false, ◌&&◌, [], ◌∷◌, ◌++◌, ltb, leb, if◌then◌else◌,
}
use nsp_migrator.Prelude.Eq.{◌==◌, nat_eq, list_eq, option_eq}
use nsp_migrator.Prelude.Result.{Result, ok, err}
use nsp_migrator.Prelude.Text.{Text, codes, strip, lower, show, join}
use nsp_migrator.Catalog.{
  Ipv4Network, broadcast_address, SdwanServiceL4Proto, proto_eq, SdwanAddrObjectType,
}
use nsp_migrator.Catalog.Groups.{GroupError}

-- `RuleValueNormalizationError`, with what its text names.
pub data NormalizationError : Type 0 where
  invalid_range : ℕ → ℕ → NormalizationError
  not_a_port_protocol : SdwanServiceL4Proto → NormalizationError
  invalid_port_range : SdwanServiceL4Proto → ℕ → ℕ → NormalizationError
  unknown_zone : ℕ → NormalizationError
  unknown_service : ℕ → NormalizationError
  unresolved_address : GroupError → NormalizationError
  missing_value : SdwanAddrObjectType → ℕ → NormalizationError
  unexpanded_group : NormalizationError
  no_port_ranges : ℕ → NormalizationError

pub record AddressSpan : Type 0 where
  pub start : ℕ
  pub end : ℕ

pub record FqdnValue : Type 0 where
  pub domain : Text

pub data AddressValue : Type 0 where
  span : AddressSpan → AddressValue
  name : FqdnValue → AddressValue

unfoldable pub from_network : Ipv4Network → AddressSpan
unfolding broadcast_address
from_network n = record { start = n.network_address; end = broadcast_address n }

unfoldable pub from_host : ℕ → AddressSpan
from_host address = record { start = address; end = address }

unfoldable pub from_range : ℕ → ℕ → Result NormalizationError AddressSpan
from_range start stop =
    if ltb stop start
    then err (invalid_range start stop)
    else ok (record { start = start; end = stop })

-- `FqdnValue.from_raw`
unfoldable pub from_raw : Text → FqdnValue
unfolding strip lower
from_raw value = record { domain = lower (strip value) }

-- `AddressSpan.covers` and `FqdnValue.covers`, by the classes of the two values
unfoldable pub address_covers : AddressValue → AddressValue → Bool
unfolding list_eq nat_eq
address_covers (span a) (span b) = leb a.start b.start && leb b.end a.end
address_covers (name a) (name b) = a.domain == b.domain
address_covers _ _ = false

-- The text of an IPv4 address.
unfoldable pub show_address : ℕ → Text
unfolding show join
show_address a = join (codes ".") (
    show (a / 2 ^ 24 % 256)
    ∷ show (a / 2 ^ 16 % 256)
    ∷ show (a / 2 ^ 8 % 256)
    ∷ show (a % 256)
    ∷ [])

unfoldable pub display_address : AddressValue → Text
unfolding show_address
display_address (span a) =
    if a.start == a.end
    then show_address a.start
    else show_address a.start ++ (codes "-" ++ show_address a.end)
display_address (name a) = a.domain
