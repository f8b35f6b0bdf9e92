-- ===== src/Cisco/Acls/Extracted.antt =====
-- The rules that are extracted are those of the lines that match, once for each zone resolution.
use nsp_migrator.Prelude.{
  ℕ, suc, ◌≡◌, refl, sym, ap, subst, inl, inr, Option, some, List, [], ◌∷◌, ◌++◌, map, Elem,
  Elem-append, Elem-append_left, Elem-append_right, Option-cases,
}
use nsp_migrator.Prelude.Text.{Text, words}
use nsp_migrator.Cisco.Config.{ParsedAccessRule}
use nsp_migrator.Cisco.Tree.{ConfigNode, stripped}
use nsp_migrator.Cisco.Zones.{ZoneResolution, ZoneResolver, or_unbound, resolve_all}
use nsp_migrator.Cisco.Usage.{AclUsageClassifier, resolve_usage}
use nsp_migrator.Cisco.Acls.{
  AccessList, access_list, parse_parts, parsed_rule, rules_of_line, extract_rules,
}

module _ {A B : Type 0} (f : A → B) where
  Elem-map : (x : A) (xs : List A) → Elem x xs → Elem (f x) (map f xs)
  Elem-map x [] m = absurd m
  Elem-map x (y ∷ ys) (inl e) = inl (ap f e)
  Elem-map x (y ∷ ys) (inr m) = inr (Elem-map x ys m)

  Elem-of_map : (y : B) (xs : List A) → Elem y (map f xs) → (x : A) × Elem x xs × (y ≡ f x)
  Elem-of_map y [] m = absurd m
  Elem-of_map y (x ∷ xs) (inl e) = (x, inl refl, e)
  Elem-of_map y (x ∷ xs) (inr m) = let (z, k, e) = Elem-of_map y xs m in (z, inr k, e)

some_resolution :
    (rs : List ZoneResolution) (inferred : Option Text × Option Text)
    → (z : ZoneResolution) × Elem z (or_unbound rs inferred)
unfolding or_unbound
some_resolution [] inferred = (_, inl refl)
some_resolution (r ∷ rs) inferred = (r, inl refl)

-- Every list has a resolution.
pub resolve_all-some :
    (zones : ZoneResolver) (acl : Text) → (z : ZoneResolution) × Elem z (resolve_all zones acl)
unfolding resolve_all
resolve_all-some zones acl = some_resolution _ _

module _ (zones : ZoneResolver) (usage : AclUsageClassifier) where
  -- The line of the node is an access rule.
  abbrev pub Matches : ConfigNode → AccessList → Type 0
  Matches node line = access_list (words (stripped node.line)) ≡ some line

  -- The rule of a node and a line, with some order and the given zones.
  unfoldable pub rule_of : ConfigNode → AccessList → ℕ → ZoneResolution → ParsedAccessRule
  unfolding parsed_rule parse_parts resolve_usage
  rule_of node line order zone =
      parsed_rule node line order (parse_parts line.proto line.rest) (resolve_usage usage line.acl)
        zone

  extracted-from :
      (nodes : List ConfigNode) (k : ℕ) (r : ParsedAccessRule)
      → Elem r (extract_rules zones usage k nodes)
      → (node : ConfigNode) × (line : AccessList) × (order : ℕ) × (zone : ZoneResolution) × Elem
          node nodes
        × Matches node line
        × Elem zone (resolve_all zones line.acl)
        × (r ≡ rule_of node line order zone)
  unfolding extract_rules rules_of_line rule_of
  extracted-from [] k r m = absurd m
  extracted-from (x ∷ nodes) k r m = elim (Option-cases (access_list (words (stripped x.line)))) [
    | inl skipped ↦
        let (node, line, order, zone, here, matched, found, e) =
          extracted-from nodes k r (rw (skipped, extract_rules) at m) in
        (node, line, order, zone, inr here, matched, found, e)
    | inr (line, matched) ↦
        elim (Elem-append r (rules_of_line zones usage x line (suc k))
          (extract_rules zones usage (suc k) nodes) (rw (matched, extract_rules) at m)) [
            | inl own ↦
                let (zone, l, e) =
                  Elem-of_map (rule_of x line (suc k)) r (resolve_all zones line.acl) own in
                (x, line, suc k, zone, inl refl, matched, l, e)
            | inr later ↦
                let (node, other, order, zone, here, matched, found, e) =
                  extracted-from nodes (suc k) r later in
                (node, other, order, zone, inr here, matched, found, e)
          ]
  ]

  into-extracted :
      (nodes : List ConfigNode) (k : ℕ) (node : ConfigNode) (line : AccessList)
      → Elem node nodes
      → Matches node line
      → (order : ℕ) × ((zone : ZoneResolution)
          → Elem zone (resolve_all zones line.acl)
          → Elem (rule_of node line order zone) (extract_rules zones usage k nodes))
  unfolding extract_rules rules_of_line rule_of
  into-extracted [] k node line m matched = absurd m
  into-extracted (x ∷ nodes) k node line (inl e) matched =
      let here = subst (λ y. Matches y line) e matched in
      (
        suc k,
        λ zone l.
            rw (here, extract_rules)
              (subst
                (λ y. Elem (rule_of y line (suc k) zone) (
                  rules_of_line zones usage x line (suc k)
                  ++ extract_rules zones usage (suc k) nodes))
                (sym e)
                (Elem-append_left (rule_of x line (suc k) zone)
                  (rules_of_line zones usage x line (suc k))
                  (extract_rules zones usage (suc k) nodes)
                  (Elem-map (rule_of x line (suc k)) zone (resolve_all zones line.acl) l))),
      )
  into-extracted (x ∷ nodes) k node line (inr m) matched =
      elim (Option-cases (access_list (words (stripped x.line)))) [
        | inl skipped ↦
            let (order, listed) = into-extracted nodes k node line m matched in
            (order, λ zone l. rw (skipped, extract_rules) (listed zone l))
        | inr (other, here) ↦
            let (order, listed) = into-extracted nodes (suc k) node line m matched in
            (
              order,
              λ zone l.
                  rw (here, extract_rules)
                    (Elem-append_right (rule_of node line order zone)
                      (rules_of_line zones usage x other (suc k))
                      (extract_rules zones usage (suc k) nodes) (listed zone l)),
            )
      ]

  -- Each extracted rule stems from a line that is an access rule, read with one of the zone
  -- resolutions of its list; and each such line gives a rule for every resolution, of which there is
  -- at least one.
  pub extract_rules_exact :
      (nodes : List ConfigNode)
      → ((r : ParsedAccessRule)
          → Elem r (extract_rules zones usage 0 nodes)
          → (node : ConfigNode) × (line : AccessList) × (order : ℕ) × (zone : ZoneResolution) × Elem
              node nodes
            × Matches node line
            × Elem zone (resolve_all zones line.acl)
            × (r ≡ rule_of node line order zone))
        × ((node : ConfigNode) (line : AccessList)
            → Elem node nodes
            → Matches node line
            → ((zone : ZoneResolution) × Elem zone (resolve_all zones line.acl))
              × ((order : ℕ) × ((zone : ZoneResolution)
                    → Elem zone (resolve_all zones line.acl)
                    → Elem (rule_of node line order zone) (extract_rules zones usage 0 nodes))))
  extract_rules_exact nodes = (
    extracted-from nodes 0,
    λ node line m matched.
        (resolve_all-some zones line.acl, into-extracted nodes 0 node line m matched),
  )
