-- ===== src/Execute/Services.antt =====
-- Normalized services
-- (src/app/modules/execute/services/rule_values_resolver.py, `ServiceValue`).
use nsp_migrator.Prelude.{
  or_empty, ℕ, Bool, true, false, ◌&&◌, ◌||◌, not, Option, none, some, List, ◌++◌, map, ltb, leb,
  if◌then◌else◌,
}
use nsp_migrator.Prelude.Eq.{◌==◌, nat_eq, list_eq, option_eq}
use nsp_migrator.Prelude.Result.{Result, ok, err}
use nsp_migrator.Prelude.Text.{Text, codes, show, join, text_leb}
use nsp_migrator.Prelude.Sort.{sorted}
use nsp_migrator.Catalog.{SdwanServiceL4Proto, tcp, udp, icmp, any, ip_ip, proto_eq, is_none}
use nsp_migrator.Execute.Names.{normalize_text, frozenset, is_superset}
use nsp_migrator.Execute.Values.{NormalizationError, not_a_port_protocol, invalid_port_range}

pub record ServiceValue : Type 0 where
  pub proto : SdwanServiceL4Proto
  pub port_start : Option ℕ
  pub port_end : Option ℕ
  pub codes : Option (List Text)

-- `ServiceValue.any`
abbrev pub any_service : ServiceValue
any_service = record { proto = any; port_start = none; port_end = none; codes = none }

unfoldable pub protocol_only : SdwanServiceL4Proto → ServiceValue
unfolding proto_eq
protocol_only proto =
    if proto == any
    then any_service
    else record { proto = proto; port_start = none; port_end = none; codes = none }

unfoldable pub port_range : SdwanServiceL4Proto → ℕ → ℕ → Result NormalizationError ServiceValue
unfolding proto_eq
port_range proto start end =
    if not (proto == tcp || proto == udp)
    then err (not_a_port_protocol proto)
    else if ltb 65535 end || ltb end start
    then err (invalid_port_range proto start end)
    else ok (record { proto = proto; port_start = some start; port_end = some end; codes = none })

unfoldable pub icmp_service : Option (List Text) → ServiceValue
unfolding normalize_text frozenset list_eq nat_eq
icmp_service messages = record {
  proto = icmp;
  port_start = none;
  port_end = none;
  codes = some (frozenset (map normalize_text (or_empty messages)));
}

-- The comparison of ports. Values of TCP and UDP always have both ports: on `None` the code would
-- raise a `TypeError`, and here the answer is false.
unfoldable pub ports_cover : ServiceValue → ServiceValue → Bool
ports_cover a b = elim a.port_start [
  | none ↦ false
  | some s ↦ elim a.port_end [
    | none ↦ false
    | some e ↦ elim b.port_start [
      | none ↦ false
      | some s' ↦ elim b.port_end [ none ↦ false | some e' ↦ leb s s' && leb e' e ]
    ]
  ]
]

-- `ServiceValue.covers`
unfoldable pub service_covers : ServiceValue → ServiceValue → Bool
unfolding ports_cover is_superset proto_eq list_eq nat_eq is_none
service_covers a b =
    if a.proto == any
    then true
    else if b.proto == any
    then false
    else if not (a.proto == b.proto)
    then false
    else if a.proto == icmp
    then is_superset (or_empty a.codes) (or_empty b.codes)
    else if a.proto == tcp || a.proto == udp
    then ports_cover a b
    else is_none a.port_start
      && (is_none a.port_end
          && (is_none b.port_start && (is_none b.port_end && (is_none a.codes && is_none b.codes))))

-- `proto.value`
unfoldable pub proto_text : SdwanServiceL4Proto → Text
proto_text tcp = codes "tcp"
proto_text udp = codes "udp"
proto_text icmp = codes "icmp"
proto_text any = codes "any"
proto_text ip_ip = codes "ip_ip"

-- An optional port as an f-string prints it.
abbrev pub show_port : Option ℕ → Text
show_port none = codes "None"
show_port (some p) = show p

unfoldable pub display_service : ServiceValue → Text
unfolding proto_text show join sorted text_leb proto_eq option_eq nat_eq
display_service a =
    if a.proto == any
    then codes "any"
    else if a.proto == tcp || a.proto == udp
    then (if a.port_start == a.port_end
        then proto_text a.proto ++ (codes "/" ++ show_port a.port_start)
        else proto_text a.proto
          ++ (codes "/" ++ (show_port a.port_start ++ (codes "-" ++ show_port a.port_end))))
    else if a.proto == icmp
    then codes "icmp/" ++ join (codes ",") (sorted text_leb (or_empty a.codes))
    else proto_text a.proto
