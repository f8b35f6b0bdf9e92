-- ===== src/Cisco/Acls/RoundTrip.antt =====
-- A written rule is read back.
use nsp_migrator.Prelude.{
  ◌≡◌, refl, ap, ◌∙◌, inl, inr, Bool, true, false, Option, none, some, List, [], ◌∷◌, ◌++◌, arith,
  All, All-append, append_assoc, Bool-cases,
}
use nsp_migrator.Prelude.Eq.{◌==◌, contains, list_eq, nat_eq}
use nsp_migrator.Prelude.Text.{Text, codes, lower, truthy, is_digits}
use nsp_migrator.Cisco.Config.{protocol_group, service_object, literal, operand_kind_eq}
use nsp_migrator.Cisco.Tokens.{AclModifiers, no_modifiers, scan_modifiers, parse_modifiers}
use nsp_migrator.Cisco.Operands.{
  ParsedProtocolOperand, plain_operand, known_literal_protocols, named_protocol,
  parse_protocol_operand,
}
use nsp_migrator.Cisco.Endpoints.{extract_service_ref, is_ipv4}
use nsp_migrator.Cisco.Acls.{parse_parts}
use nsp_migrator.Cisco.Zones.{or_text}
use nsp_migrator.Cisco.Acls.Written.{
  Endpoint, anywhere, object_named, group_named, host_at, interface_named, network_at,
  endpoint_tokens, endpoint_ref, IsEndpoint, is_ipv4-not_word, parse_endpoint-tokens,
}
use nsp_migrator.Cisco.Acls.Tail.{
  eq, lt, gt, neq, Service, any_service, port, port_range, service_named, service_group_named,
  service_tokens, service_ref_of, IsPlain, IsService, log_tokens, extract_service_ref-tokens,
}
use native.Mathlib.Decide.{ℕ_discrete}

-- A token that is no modifier.
abbrev pub IsQuiet : Text → Type 0
IsQuiet t =
    ((lower t == codes "inactive") ≡ false)
    × ((lower t == codes "log") ≡ false)
    × ((lower t == codes "time-range") ≡ false)

abbrev time_tokens : Option Text → List Text
time_tokens none = []
time_tokens (some name) = codes "time-range" ∷ name ∷ []

abbrev inactive_tokens : Bool → List Text
inactive_tokens true = codes "inactive" ∷ []
inactive_tokens false = []

abbrev modifier_tokens : Bool → Option Text → Bool → List Text
modifier_tokens log time inactive = log_tokens log ++ (time_tokens time ++ inactive_tokens inactive)

scan_modifiers-quiet :
    (xs ys : List Text) (m : AclModifiers)
    → All IsQuiet xs
    → scan_modifiers (xs ++ ys) m ≡ (xs ++ (scan_modifiers ys m).0, (scan_modifiers ys m).1)
unfolding scan_modifiers
scan_modifiers-quiet [] ys m h = refl
scan_modifiers-quiet (x ∷ []) [] m ((a, b, c), _) = rw (a, b) refl
scan_modifiers-quiet (x ∷ []) (y ∷ ys) m ((a, b, c), _) = rw (a, b, c, scan_modifiers) refl
scan_modifiers-quiet (x ∷ z ∷ xs) ys m ((a, b, c), h) =
    rw (a, b, c, scan_modifiers-quiet (z ∷ xs) ys m h, scan_modifiers) refl

scan_modifiers-tail :
    (log : Bool) (time : Option Text) (inactive : Bool)
    → parse_modifiers (modifier_tokens log time inactive)
      ≡ (log_tokens log, record { inactive = inactive; log = log; time_range = time })
unfolding parse_modifiers ℕ_discrete
scan_modifiers-tail true none true = refl
scan_modifiers-tail true none false = refl
scan_modifiers-tail true (some t) true = refl
scan_modifiers-tail true (some t) false = refl
scan_modifiers-tail false none true = refl
scan_modifiers-tail false none false = refl
scan_modifiers-tail false (some t) true = refl
scan_modifiers-tail false (some t) false = refl

-- The protocol of a rule: a name, or what stands for one.
pub data Protocol : Type 0 where
  protocol_named protocol_object protocol_group_named : Text → Protocol

abbrev pub protocol_token : Protocol → Text
protocol_token (protocol_named p) = p
protocol_token (protocol_object name) = codes "object"
protocol_token (protocol_group_named name) = codes "object-group"

abbrev pub protocol_rest : Protocol → List Text
protocol_rest (protocol_named p) = []
protocol_rest (protocol_object name) = name ∷ []
protocol_rest (protocol_group_named name) = name ∷ []

unfoldable pub operand_of : Protocol → ParsedProtocolOperand
unfolding lower
operand_of (protocol_named p) = plain_operand literal (lower p)
operand_of (protocol_object name) = record (plain_operand service_object (codes "service-object")) {
  service_ref = some name;
}
operand_of (protocol_group_named name) =
    record (plain_operand protocol_group (codes "protocol-group")) { group_ref = some name }

unfoldable pub IsProtocol : Protocol → Type 0
unfolding is_digits
IsProtocol (protocol_named p) =
    ((lower p == codes "object-group") ≡ false)
    × ((lower p == codes "object") ≡ false)
    × (is_digits (lower p) ≡ false)
IsProtocol (protocol_object name) = IsQuiet name × (truthy (some name) ≡ some name)
IsProtocol (protocol_group_named name) = IsQuiet name

-- A protocol that is no number is read as a literal.
named_protocol-literal :
    (t : Text) → is_digits t ≡ false → named_protocol t ≡ plain_operand literal t
unfolding named_protocol
named_protocol-literal t h = elim (Bool-cases (contains t known_literal_protocols)) [
  | inl b ↦ rw (h, b, named_protocol) refl
  | inr b ↦ rw (h, b, named_protocol) refl
]

parse_protocol_operand-tokens :
    (p : Protocol) (rest : List Text)
    → IsProtocol p
    → parse_protocol_operand (protocol_token p) (protocol_rest p ++ rest) ≡ (operand_of p, rest)
unfolding parse_protocol_operand ℕ_discrete IsProtocol operand_of
parse_protocol_operand-tokens (protocol_named p) [] (a, b, k) =
    rw (a, b, named_protocol-literal (lower p) k) refl
parse_protocol_operand-tokens (protocol_named p) (t ∷ ts) (a, b, k) =
    rw (a, b, named_protocol-literal (lower p) k) refl
parse_protocol_operand-tokens (protocol_object name) rest h = refl
parse_protocol_operand-tokens (protocol_group_named name) rest h = refl

-- The names in an endpoint are no modifiers.
abbrev pub IsQuietEndpoint : Endpoint → Type 0
IsQuietEndpoint anywhere = Unit
IsQuietEndpoint (object_named name) = IsQuiet name
IsQuietEndpoint (group_named name) = IsQuiet name
IsQuietEndpoint (host_at ip) = IsQuiet ip
IsQuietEndpoint (interface_named name) = IsQuiet name
IsQuietEndpoint (network_at ip mask) = Unit

ipv4-IsQuiet : (t : Text) → is_ipv4 t ≡ true → IsQuiet t
ipv4-IsQuiet t h = (
  is_ipv4-not_word t b'i' (codes "nactive") (omega arith) h,
  is_ipv4-not_word t b'l' (codes "og") (omega arith) h,
  is_ipv4-not_word t b't' (codes "ime-range") (omega arith) h,
)

plain-IsQuiet : (t : Text) → IsPlain t → IsQuiet t
plain-IsQuiet t h = (h.inactive, h.log, h.time_range)

endpoint_tokens-IsQuiet :
    (e : Endpoint) → IsEndpoint e → IsQuietEndpoint e → All IsQuiet (endpoint_tokens e)
unfolding lower ℕ_discrete list_eq nat_eq
endpoint_tokens-IsQuiet anywhere h q = ((refl, refl, refl), tt)
endpoint_tokens-IsQuiet (object_named name) h q = ((refl, refl, refl), (q, tt))
endpoint_tokens-IsQuiet (group_named name) h q = ((refl, refl, refl), (q, tt))
endpoint_tokens-IsQuiet (host_at ip) h q = ((refl, refl, refl), (q, tt))
endpoint_tokens-IsQuiet (interface_named name) h q = ((refl, refl, refl), (q, tt))
endpoint_tokens-IsQuiet (network_at ip mask) h q =
    (ipv4-IsQuiet ip h.0, (ipv4-IsQuiet mask h.1, tt))

service_tokens-IsQuiet : (s : Service) → IsService s → All IsQuiet (service_tokens s)
unfolding lower ℕ_discrete list_eq nat_eq
service_tokens-IsQuiet any_service h = tt
service_tokens-IsQuiet (port eq p) h = ((refl, refl, refl), (plain-IsQuiet p h, tt))
service_tokens-IsQuiet (port lt p) h = ((refl, refl, refl), (plain-IsQuiet p h, tt))
service_tokens-IsQuiet (port gt p) h = ((refl, refl, refl), (plain-IsQuiet p h, tt))
service_tokens-IsQuiet (port neq p) h = ((refl, refl, refl), (plain-IsQuiet p h, tt))
service_tokens-IsQuiet (port_range first last) (h, g) =
    ((refl, refl, refl), (plain-IsQuiet first h, (plain-IsQuiet last g, tt)))
service_tokens-IsQuiet (service_named name) h = ((refl, refl, refl), (plain-IsQuiet name h, tt))
service_tokens-IsQuiet (service_group_named name) h =
    ((refl, refl, refl), (plain-IsQuiet name h, tt))

protocol_rest-IsQuiet : (p : Protocol) → IsProtocol p → All IsQuiet (protocol_rest p)
unfolding IsProtocol
protocol_rest-IsQuiet (protocol_named p) h = tt
protocol_rest-IsQuiet (protocol_object name) h = (h.0, tt)
protocol_rest-IsQuiet (protocol_group_named name) h = (h, tt)

-- An access rule as it is written.
pub record WrittenRule : Type 0 where
  pub protocol : Protocol
  pub src : Endpoint
  pub dst : Endpoint
  pub service : Service
  pub log : Bool
  pub time_range : Option Text
  pub inactive : Bool

-- The tokens before the modifiers.
abbrev body_tokens : WrittenRule → List Text
body_tokens r =
    protocol_rest r.protocol
    ++ (endpoint_tokens r.src ++ (endpoint_tokens r.dst ++ service_tokens r.service))

abbrev pub rule_tokens : WrittenRule → List Text
rule_tokens r = body_tokens r ++ modifier_tokens r.log r.time_range r.inactive

pub record IsWritten (r : WrittenRule) : Type 0 where
  pub protocol : IsProtocol r.protocol
  pub src : IsEndpoint r.src
  pub quiet_src : IsQuietEndpoint r.src
  pub dst : IsEndpoint r.dst
  pub quiet_dst : IsQuietEndpoint r.dst
  pub service : IsService r.service

-- A service in the place of the protocol is that of the rule.
abbrev pub rule_service : Protocol → Service → Option Text
rule_service (protocol_named p) s = service_ref_of s
rule_service (protocol_object name) s = some name
rule_service (protocol_group_named name) s = service_ref_of s

body_tokens-IsQuiet : (r : WrittenRule) → IsWritten r → All IsQuiet (body_tokens r)
body_tokens-IsQuiet r h =
    All-append IsQuiet (protocol_rest r.protocol) _ (protocol_rest-IsQuiet r.protocol h.protocol) (
      All-append IsQuiet (endpoint_tokens r.src) _ (endpoint_tokens-IsQuiet r.src h.src h.quiet_src)
        (All-append IsQuiet (endpoint_tokens r.dst) _
          (endpoint_tokens-IsQuiet r.dst h.dst h.quiet_dst)
          (service_tokens-IsQuiet r.service h.service)))

modifiers-rule_tokens :
    (r : WrittenRule)
    → IsWritten r
    → parse_modifiers (rule_tokens r) ≡ (
      body_tokens r ++ log_tokens r.log,
      record { inactive = r.inactive; log = r.log; time_range = r.time_range },
    )
unfolding parse_modifiers
modifiers-rule_tokens r h =
    let tail = modifier_tokens r.log r.time_range r.inactive in
    let last : scan_modifiers tail no_modifiers ≡ (log_tokens r.log, _) =
      scan_modifiers-tail r.log r.time_range r.inactive in
    rw (scan_modifiers-quiet (body_tokens r) tail no_modifiers (body_tokens-IsQuiet r h), last) refl

service-tokens :
    (p : Protocol) (s : Service) (log : Bool)
    → IsProtocol p
    → IsService s
    → or_text
        (operand_of p).service_ref
        (extract_service_ref (operand_of p) (service_tokens s ++ log_tokens log))
      ≡ rule_service p s
unfolding IsProtocol operand_of operand_kind_eq
service-tokens (protocol_named p) s log k h =
    extract_service_ref-tokens (operand_of (protocol_named p)) s log refl h
service-tokens (protocol_object name) s log (_, some_name) h = rw some_name refl
service-tokens (protocol_group_named name) s log k h =
    extract_service_ref-tokens (operand_of (protocol_group_named name)) s log refl h

append_four : (a b c d e : List Text) → (a ++ (b ++ (c ++ d))) ++ e ≡ a ++ (b ++ (c ++ (d ++ e)))
append_four a b c d e =
    append_assoc a (b ++ (c ++ d)) e
    ∙ ap (λ x. a ++ x) (append_assoc b (c ++ d) e ∙ ap (λ x. b ++ x) (append_assoc c d e))

-- A rule that is written out as tokens, of a protocol, two endpoints, a service and its modifiers, is
-- read back from them: its operand, which for a protocol in its own name is a literal of that name in
-- lower case, its endpoints, its service and its modifiers. The condition is that its networks are
-- written as IPv4 addresses, that no name in it reads like a keyword that is sought in its place, that
-- a service in the place of the protocol has a name, and that a protocol in its own name is no number
-- and no keyword.
pub parse_parts-rule_tokens :
    (r : WrittenRule)
    → IsWritten r
    → parse_parts (protocol_token r.protocol) (rule_tokens r) ≡ record {
      operand = operand_of r.protocol;
      src_ref = endpoint_ref r.src;
      dst_ref = endpoint_ref r.dst;
      service_ref = rule_service r.protocol r.service;
      mods = record { inactive = r.inactive; log = r.log; time_range = r.time_range };
    }
unfolding parse_parts
parse_parts-rule_tokens r h =
    let log = log_tokens r.log in
    let service = service_tokens r.service ++ log in
    let dst = endpoint_tokens r.dst ++ service in
    let src = endpoint_tokens r.src ++ dst in
    rw
      (
        modifiers-rule_tokens r h,
        append_four (protocol_rest r.protocol) (endpoint_tokens r.src) (endpoint_tokens r.dst)
            (service_tokens r.service) log,
        parse_protocol_operand-tokens r.protocol src h.protocol,
        parse_endpoint-tokens r.src dst h.src,
        parse_endpoint-tokens r.dst service h.dst,
        service-tokens r.protocol r.service r.log h.protocol h.service,
        parse_parts,
      )
      refl
