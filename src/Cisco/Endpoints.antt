-- ===== src/Cisco/Endpoints.antt =====
-- The endpoints and the service of an access rule
-- (src/app/modules/imports/cisco_asa/parsing/extractors/acls.py, `_parse_endpoint` and
-- `_extract_service_ref`). A position in the tokens is given as the tokens from there on.
use nsp_migrator.Prelude.{
  ℕ, zero, suc, Bool, true, false, ◌&&◌, ◌||◌, not, Option, none, some, List, [], ◌∷◌, ◌++◌,
  if◌then◌else◌,
}
use nsp_migrator.Prelude.Eq.{◌==◌, contains, list_eq, nat_eq}
use nsp_migrator.Prelude.Text.{Text, codes, lower, is_digit}
use nsp_migrator.Cisco.Config.{literal, ip_protocol_number, operand_kind_eq}
use nsp_migrator.Cisco.Operands.{ParsedProtocolOperand}

-- `\d{1,3}(?:\.\d{1,3}){3}` to the end, with the digits read of the current part and the parts left
unfoldable pub ipv4_parts : ℕ → ℕ → Text → Bool
unfolding is_digit nat_eq
ipv4_parts parts digits [] = parts == 0 && not (digits == 0)
ipv4_parts parts digits (c ∷ s) = elim (is_digit c) [
  | true ↦ not (digits == 3) && ipv4_parts parts (suc digits) s
  | false ↦ elim parts [
    | zero ↦ false
    | suc more ↦ c == b'.' && (not (digits == 0) && ipv4_parts more 0 s)
  ]
]

-- `_is_ipv4`
unfoldable pub is_ipv4 : Text → Bool
unfolding ipv4_parts
is_ipv4 token = ipv4_parts 3 0 token

-- `_parse_endpoint`, of the tokens from `start` on; it returns those from the next position on
unfoldable pub parse_endpoint : List Text → Text × List Text
unfolding lower is_ipv4 list_eq nat_eq
parse_endpoint [] = (codes "any", [])
parse_endpoint (token ∷ []) =
    let lowered = lower token in
    if lowered == codes "any" || (lowered == codes "any4" || lowered == codes "any6")
    then (codes "any", [])
    else (token, [])
parse_endpoint (token ∷ next ∷ ts) =
    let lowered = lower token in
    if lowered == codes "any" || (lowered == codes "any4" || lowered == codes "any6")
    then (codes "any", next ∷ ts)
    else if lowered == codes "object-group"
    then (next, ts)
    else if lowered == codes "object"
    then (next, ts)
    else if lowered == codes "host"
    then (codes "host:" ++ next, ts)
    else if lowered == codes "interface"
    then (codes "interface:" ++ next, ts)
    else if is_ipv4 token && is_ipv4 next
    then (codes "net:" ++ (token ++ (codes "/" ++ next)), ts)
    else (token, next ∷ ts)

-- the tokens after the last token that reads `word` in lower case, if there is one
unfoldable pub after_last : Text → List Text → Option (List Text)
unfolding lower list_eq nat_eq
after_last word [] = none
after_last word (t ∷ ts) = elim (after_last word ts) [
  | some later ↦ some later
  | none ↦ if lower t == word then some ts else none
]

-- the token after the last such one, if it is there
unfoldable pub token_after : Text → List Text → Option Text
unfolding after_last
token_after word tail = elim (after_last word tail) [
  | none ↦ none
  | some [] ↦ none
  | some (◌∷◌ t _) ↦ some t
]

unfoldable pub range_after : List Text → Option Text
unfolding after_last
range_after tail = elim (after_last (codes "range") tail) [
  | none ↦ none
  | some [] ↦ none
  | some (◌∷◌ first []) ↦ none
  | some (◌∷◌ first (◌∷◌ last _)) ↦ some (first ++ (codes "-" ++ last))
]

-- the first of two results that is one
abbrev pub or_else : {A : Type 0} → Option A → Option A → Option A
or_else none b = b
or_else (some a) b = some a

-- the message after an ICMP protocol
unfoldable pub icmp_ref : ParsedProtocolOperand → List Text → Option Text
unfolding lower operand_kind_eq list_eq nat_eq
icmp_ref operand [] = none
icmp_ref operand (t ∷ ts) =
    if operand.kind == literal
      && ((operand.protocol == codes "icmp" || operand.protocol == codes "icmp6")
          && not (contains (lower t) (codes "log" ∷ codes "inactive" ∷ codes "time-range" ∷ [])))
    then some t
    else none

-- `_extract_service_ref`
unfoldable pub extract_service_ref : ParsedProtocolOperand → List Text → Option Text
unfolding token_after range_after icmp_ref operand_kind_eq
extract_service_ref operand tail =
    let objects =
      or_else (token_after (codes "object-group") tail) (token_after (codes "object") tail) in
    if operand.kind == ip_protocol_number
    then objects
    else or_else objects (
        or_else (token_after (codes "eq") tail) (
          or_else (token_after (codes "lt") tail) (
            or_else (token_after (codes "gt") tail) (
              or_else (token_after (codes "neq") tail)
                (or_else (range_after tail) (icmp_ref operand tail))))))
