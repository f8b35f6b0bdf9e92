-- ===== src/Cisco/Acls/InOrder.antt =====
-- The access rules in the order of their lines.
use nsp_migrator.Prelude.{
  ℕ, suc, ◌≡◌, ◌≢◌, ◌⊎◌, refl, sym, inl, inr, Bool, true, false, not, some, List, [], ◌∷◌, ◌++◌,
  ◌&&◌, ◌||◌, map, Elem, Option-cases, Bool-cases,
}
use nsp_migrator.Prelude.Eq.{◌==◌, ==-cases, list_eq, nat_eq}
use nsp_migrator.Prelude.Text.{Text, codes, lower, words, show}
use nsp_migrator.Cisco.Config.{ParsedAccessRule}
use nsp_migrator.Cisco.Tree.{ConfigNode, stripped}
use nsp_migrator.Cisco.Zones.{ZoneResolution, ZoneResolver, resolve_all}
use nsp_migrator.Cisco.Usage.{AclUsageClassifier, resolve_usage}
use nsp_migrator.Cisco.Acls.{
  AccessList, access_list, upper, parse_parts, parsed_rule, rules_of_line, extract_rules,
}
use nsp_migrator.Cisco.Acls.Extracted.{resolve_all-some}

-- The words of a line read `access-list ACL extended permit|deny PROTOCOL` and at least one more.
pub record IsAccessRule (ws : List Text) (line : AccessList) : Type 0 where
  pub word : Text
  pub extended : Text
  pub written : ws ≡ word ∷ line.acl ∷ extended ∷ line.action ∷ line.proto ∷ line.rest
  pub access_list_word : lower word ≡ codes "access-list"
  pub extended_word : lower extended ≡ codes "extended"
  pub action_word : (lower line.action ≡ codes "permit") ⊎ (lower line.action ≡ codes "deny")
  pub more : line.rest ≢ []

==-true : (a b : Text) → a ≡ b → (a == b) ≡ true
==-true a b e = elim (==-cases a b) [ inl (t, _) ↦ t | inr (_, differ) ↦ absurd (differ e) ]

true-== : (a b : Text) → (a == b) ≡ true → a ≡ b
true-== a b h = elim (==-cases a b) [ inl (_, e) ↦ e | inr (t, _) ↦ absurd cc ]

and_cases : (a b : Bool) → (a && b) ≡ true → (a ≡ true) × (b ≡ true)
and_cases true true h = (refl, refl)
and_cases true false h = cc
and_cases false b h = cc

or_cases : (a b : Bool) → (a || b) ≡ true → (a ≡ true) ⊎ (b ≡ true)
or_cases true b h = inl refl
or_cases false b h = inr h

access_list-IsAccessRule :
    (ws : List Text) (line : AccessList) → access_list ws ≡ some line → IsAccessRule ws line
unfolding access_list
access_list-IsAccessRule [] line h = absurd cc
access_list-IsAccessRule (_ ∷ []) line h = absurd cc
access_list-IsAccessRule (_ ∷ _ ∷ []) line h = absurd cc
access_list-IsAccessRule (_ ∷ _ ∷ _ ∷ []) line h = absurd cc
access_list-IsAccessRule (_ ∷ _ ∷ _ ∷ _ ∷ []) line h = absurd cc
access_list-IsAccessRule (_ ∷ _ ∷ _ ∷ _ ∷ _ ∷ []) line h = absurd cc
access_list-IsAccessRule (word ∷ acl ∷ extended ∷ action ∷ proto ∷ token ∷ tokens) line h =
    let head = lower word == codes "access-list" && lower extended == codes "extended" in
    let tail = lower action == codes "permit" || lower action == codes "deny" in
    elim (Bool-cases (head && tail)) [
      | inr f ↦ let bad = rw f at h in absurd cc
      | inl t ↦
          let (first, last) = and_cases head tail t in
          let (a, b) =
            and_cases (lower word == codes "access-list") (lower extended == codes "extended")
              first in
          let same : record { acl = acl; action = action; proto = proto; rest = token ∷ tokens }
              ≡ line =
            cc (rw t at h) in
          rw (sym same) (record {
            word = word;
            extended = extended;
            written = refl;
            access_list_word = true-== (lower word) (codes "access-list") a;
            extended_word = true-== (lower extended) (codes "extended") b;
            action_word =
                elim (or_cases (lower action == codes "permit") (lower action == codes "deny")
                  last) [
                    | inl p ↦ inl (true-== (lower action) (codes "permit") p)
                    | inr d ↦ inr (true-== (lower action) (codes "deny") d)
                  ];
            more = λ e. cc;
          })
    ]

or_true : (a b : Bool) → (a ≡ true) ⊎ (b ≡ true) → (a || b) ≡ true
or_true true b h = refl
or_true false b h = elim h [ inl e ↦ cc | inr e ↦ e ]

access_list_of :
    (word acl extended action proto : Text) (rest : List Text)
    → lower word ≡ codes "access-list"
    → lower extended ≡ codes "extended"
    → (lower action == codes "permit" || lower action == codes "deny") ≡ true
    → rest ≢ []
    → access_list (word ∷ acl ∷ extended ∷ action ∷ proto ∷ rest)
      ≡ some (record { acl = acl; action = action; proto = proto; rest = rest })
unfolding access_list
access_list_of word acl extended action proto [] a b t more = absurd (more refl)
access_list_of word acl extended action proto (token ∷ tokens) a b t more =
    rw
      (
        ==-true (lower word) (codes "access-list") a,
        ==-true (lower extended) (codes "extended") b,
        t,
      )
      refl

IsAccessRule-access_list :
    (ws : List Text) (line : AccessList) → IsAccessRule ws line → access_list ws ≡ some line
IsAccessRule-access_list ws line h =
    let action =
      or_true (lower line.action == codes "permit") (lower line.action == codes "deny")
        (elim h.action_word [
          | inl p ↦ inl (==-true (lower line.action) (codes "permit") p)
          | inr d ↦ inr (==-true (lower line.action) (codes "deny") d)
        ]) in
    rw h.written (
      access_list_of h.word line.acl h.extended line.action line.proto line.rest h.access_list_word
        h.extended_word action h.more)

module _ (zones : ZoneResolver) (usage : AclUsageClassifier) where
  -- The rule of a line, with its number and a resolution of the zones of its list.
  pub record IsRuleOf (node : ConfigNode) (line : AccessList) (order : ℕ) (zone : ZoneResolution)
      (r : ParsedAccessRule) : Type 0 where
    pub acl_name : r.acl_name ≡ line.acl
    pub rule_name : r.rule_name ≡ line.acl ++ (codes ":" ++ show order)
    pub action : r.action ≡ upper line.action
    pub protocol : r.protocol ≡ (parse_parts line.proto line.rest).operand.protocol
    pub operand_kind : r.protocol_operand_kind ≡ (parse_parts line.proto line.rest).operand.kind
    pub group_ref : r.protocol_group_ref ≡ (parse_parts line.proto line.rest).operand.group_ref
    pub number : r.protocol_number ≡ (parse_parts line.proto line.rest).operand.protocol_number
    pub src_ref : r.src_ref ≡ (parse_parts line.proto line.rest).src_ref
    pub dst_ref : r.dst_ref ≡ (parse_parts line.proto line.rest).dst_ref
    pub service_ref : r.service_ref ≡ (parse_parts line.proto line.rest).service_ref
    pub enabled : r.enabled ≡ not (parse_parts line.proto line.rest).mods.inactive
    pub log : r.log ≡ (parse_parts line.proto line.rest).mods.log
    pub time_range : r.time_range ≡ (parse_parts line.proto line.rest).mods.time_range
    pub place : r.order ≡ order
    pub line_start : r.line_start ≡ node.line.line_no
    pub line_end : r.line_end ≡ node.line.line_no
    pub raw_line_text : r.raw_line_text ≡ stripped node.line
    pub src_zone : r.src_zone ≡ zone.src_zone
    pub dst_zone : r.dst_zone ≡ zone.dst_zone
    pub unresolved_zone : r.unresolved_zone ≡ zone.unresolved
    pub binding_type : r.acl_binding_type ≡ zone.binding_type
    pub inference_status : r.zone_inference_status ≡ zone.zone_inference_status
    pub binding_context_key : r.binding_context_key ≡ zone.binding_context_key
    pub binding_interface : r.binding_interface ≡ zone.binding_interface
    pub binding_direction : r.binding_direction ≡ zone.binding_direction
    pub usage_type : r.acl_usage_type ≡ (resolve_usage usage line.acl).usage_type
    pub crypto_map_name : r.crypto_map_name ≡ (resolve_usage usage line.acl).crypto_map_name
    pub crypto_map_seq : r.crypto_map_seq ≡ (resolve_usage usage line.acl).crypto_map_seq

  -- One rule for each resolution, in order.
  abbrev pub AreRulesOf :
      ConfigNode → AccessList → ℕ → List ZoneResolution → List ParsedAccessRule → Type 0
  AreRulesOf node line order [] [] = Unit
  AreRulesOf node line order [] (r ∷ rs) = ⊥
  AreRulesOf node line order (z ∷ zs) [] = ⊥
  AreRulesOf node line order (z ∷ zs) (r ∷ rs) =
      IsRuleOf node line order z r × AreRulesOf node line order zs rs

  -- The rules of the nodes after `k` access rules: a line that is none gives nothing; the next that is
  -- one gets the next number and gives the rules of its list's resolutions, of which there is one.
  abbrev pub Extracts : ℕ → List ConfigNode → List ParsedAccessRule → Type 0
  Extracts k [] rs = rs ≡ []
  Extracts k (node ∷ nodes) rs =
      (((line : AccessList) → IsAccessRule (words (stripped node.line)) line → ⊥)
        × Extracts k nodes rs)
      ⊎ ((line : AccessList) × (own : List ParsedAccessRule) × (rest : List ParsedAccessRule)
          × IsAccessRule (words (stripped node.line)) line
          × ((zone : ZoneResolution) × Elem zone (resolve_all zones line.acl))
          × (rs ≡ own ++ rest)
          × AreRulesOf node line (suc k) (resolve_all zones line.acl) own
          × Extracts (suc k) nodes rest)

  parsed_rule-AreRulesOf :
      (node : ConfigNode) (line : AccessList) (order : ℕ) (zs : List ZoneResolution)
      → AreRulesOf node line order zs (
          map
            (parsed_rule node line order
              (parse_parts line.proto line.rest)
              (resolve_usage usage line.acl))
            zs)
  unfolding parsed_rule
  parsed_rule-AreRulesOf node line order [] = tt
  parsed_rule-AreRulesOf node line order (z ∷ zs) = (
    record {
      acl_name = refl;
      rule_name = refl;
      action = refl;
      protocol = refl;
      operand_kind = refl;
      group_ref = refl;
      number = refl;
      src_ref = refl;
      dst_ref = refl;
      service_ref = refl;
      enabled = refl;
      log = refl;
      time_range = refl;
      place = refl;
      line_start = refl;
      line_end = refl;
      raw_line_text = refl;
      src_zone = refl;
      dst_zone = refl;
      unresolved_zone = refl;
      binding_type = refl;
      inference_status = refl;
      binding_context_key = refl;
      binding_interface = refl;
      binding_direction = refl;
      usage_type = refl;
      crypto_map_name = refl;
      crypto_map_seq = refl;
    },
    parsed_rule-AreRulesOf node line order zs,
  )

  extract_rules-Extracts :
      (nodes : List ConfigNode) (k : ℕ) → Extracts k nodes (extract_rules zones usage k nodes)
  unfolding extract_rules rules_of_line
  extract_rules-Extracts [] k = refl
  extract_rules-Extracts (node ∷ nodes) k =
      let ws = words (stripped node.line) in
      elim (Option-cases (access_list ws)) [
        | inl none_such ↦
            rw (none_such, extract_rules)
              (inl (
                λ line h. let bad = IsAccessRule-access_list ws line h in absurd cc,
                extract_rules-Extracts nodes k,
              ))
        | inr (line, read) ↦
            rw (read, extract_rules)
              (inr (
                line,
                rules_of_line zones usage node line (suc k),
                extract_rules zones usage (suc k) nodes,
                access_list-IsAccessRule ws line read,
                resolve_all-some zones line.acl,
                refl,
                parsed_rule-AreRulesOf node line (suc k) (resolve_all zones line.acl),
                extract_rules-Extracts nodes (suc k),
              ))
      ]

  -- The rules are extracted line by line: a line whose words are not `access-list`, a name, `extended`,
  -- `permit` or `deny`, a protocol and at least one word more gives none; each other line gives, in
  -- order, one rule for every zone resolution of its list, of which there is at least one, with the
  -- number of the line among these lines, the action in upper case, the parts that are read from its
  -- words, enabled unless it is inactive, and the usage of its list.
  pub extract_rules_in_order :
      (nodes : List ConfigNode) → Extracts 0 nodes (extract_rules zones usage 0 nodes)
  extract_rules_in_order nodes = extract_rules-Extracts nodes 0
