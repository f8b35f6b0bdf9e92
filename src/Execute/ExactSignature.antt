-- ===== src/Execute/ExactSignature.antt =====
-- The full signature of a rule
-- (src/app/modules/execute/services/rule_values_resolver.py, `exact_signature` and
-- `_sorted_signatures`).
use nsp_migrator.Prelude.{Option, none, some, List, [], ◌∷◌, ◌++◌, map}
use nsp_migrator.Prelude.Text.{Text, codes, show, join, text_leb}
use nsp_migrator.Prelude.Sort.{sorted}
use nsp_migrator.Hash.{Json, atom, list, dict, end, field, Builtins, json_hash, text_items}
use nsp_migrator.Execute.Rules.{SdwanRuleAction, accept, reject, drop}
use nsp_migrator.Execute.Services.{proto_text, show_port}
use nsp_migrator.Execute.Signature.{
  Signature, ipv4, fqdn, service, address_signature, service_signature,
}
use nsp_migrator.Execute.Resolver.{NormalizedRuleValues}

-- `action.value`
unfoldable pub action_text : SdwanRuleAction → Text
action_text accept = codes "ACCEPT"
action_text reject = codes "REJECT"
action_text drop = codes "DROP"

module _ (b : Builtins) where
  -- `repr` of an optional tuple of texts
  unfoldable pub repr_codes : Option (List Text) → Text
  unfolding join
  repr_codes none = codes "None"
  repr_codes (some []) = codes "()"
  repr_codes (some (c ∷ [])) = codes "(" ++ (b.repr c ++ codes ",)")
  repr_codes (some (c ∷ d ∷ cs)) =
      codes "(" ++ (join (codes ", ") (map b.repr (c ∷ d ∷ cs)) ++ codes ")")

  -- `repr` of a signature, which is also its `str`
  unfoldable pub repr_signature : Signature → Text
  unfolding repr_codes join show proto_text
  repr_signature (ipv4 s e) =
      codes "(" ++ (join (codes ", ") (b.repr (codes "ipv4") ∷ show s ∷ show e ∷ []) ++ codes ")")
  repr_signature (fqdn d) =
      codes "(" ++ (join (codes ", ") (b.repr (codes "fqdn") ∷ b.repr d ∷ []) ++ codes ")")
  repr_signature (service p s e cs) =
      codes "("
      ++ (join (codes ", ") (b.repr (proto_text p) ∷ show_port s ∷ show_port e ∷ repr_codes cs ∷ [])
          ++ codes ")")

  -- `_sorted_signatures`, as the texts that `json_hash` reads
  unfoldable pub sorted_signatures : List Signature → List Text
  unfolding repr_signature sorted text_leb
  sorted_signatures xs = sorted text_leb (map repr_signature xs)

  -- the payload of `NormalizedRuleValues.exact_signature`
  unfoldable pub signature_payload : NormalizedRuleValues → Json
  unfolding sorted_signatures sorted text_leb action_text text_items address_signature
      service_signature
  signature_payload n = dict (
      field (codes "action") (atom (action_text n.action)) (
        field (codes "src_zones") (list (text_items (sorted text_leb n.src_zones))) (
          field (codes "dst_zones") (list (text_items (sorted text_leb n.dst_zones))) (
            field (codes "src_addresses")
              (list (text_items (sorted_signatures (map address_signature n.src_addresses))))
              (field (codes "dst_addresses")
                (list (text_items (sorted_signatures (map address_signature n.dst_addresses))))
                (field (codes "services")
                  (list (text_items (sorted_signatures (map service_signature n.services))))
                  end))))))

  unfoldable pub exact_signature : NormalizedRuleValues → Text
  unfolding signature_payload json_hash
  exact_signature n = json_hash b (signature_payload n)
