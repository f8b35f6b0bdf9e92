-- ===== src/Execute/MappingReader/Rules.antt =====
-- What a read of mapped rules gives.
use nsp_migrator.Prelude.{
  ℕ, ◌≡◌, ◌≢◌, refl, sym, subst, ◌∙◌, Bool-cases, inl, inr, true, Option, none, some, List, [], ◌∷◌,
  ◌++◌, arith, Elem, if◌then◌else◌, Option-cases,
}
use mathlib.Core.List.{append-nil, append_assoc}
use nsp_migrator.Prelude.Eq.{◌==◌, ==-cases, nat_eq}
use nsp_migrator.Prelude.Dict.{Dict, lookup, index_by}
use nsp_migrator.Prelude.Result.{ok, err, ◌>>=◌, >>=-eq-ok, ok-injective}
use nsp_migrator.Prelude.Sort.{sorted}
use nsp_migrator.Mapping.Entities.{
  MappingEntityResult, MappingScopeRule, MappingScopeRuleOperand, MappingScopeRuleOperandRole,
  src_zone, dst_zone, src_addr_object, dst_addr_object, service, matched, role_eq, result_status_eq,
}
use nsp_migrator.Execute.MappingReader.{
  MappedRuleData, IdsByRole, no_ids, ids_of_role, append_id, collect_operands, missing, check_roles,
  mapped_rule, any_unmatched, unmatched_objects, read_rule, read_rules, by_rule_priority,
  get_mapping_scope_rules,
}

-- The identifier that an operand stands for, if its result has one.
abbrev pub operand_id : Dict ℕ MappingEntityResult → MappingScopeRuleOperand → Option ℕ
operand_id results o = elim (lookup o.mapping_entity_result_id results) [
  | none ↦ none
  | some r ↦ r.selected_sdwan_entity_id
]

-- The identifiers of the operands with a role, in their order.
abbrev pub ids_with_role :
    Dict ℕ MappingEntityResult → MappingScopeRuleOperandRole → List MappingScopeRuleOperand → List ℕ
ids_with_role results role [] = []
ids_with_role results role (o ∷ os) =
    let rest = ids_with_role results role os in
    elim (operand_id results o) [
      | none ↦ rest
      | some id ↦ if role == o.role then id ∷ rest else rest
    ]

ids_of_role-append_id :
    (role r : MappingScopeRuleOperandRole) (id : ℕ) (d : IdsByRole)
    → ids_of_role role (append_id r id d)
      ≡ (if role == r then ids_of_role role d ++ (id ∷ []) else ids_of_role role d)
unfolding append_id role_eq
ids_of_role-append_id src_zone src_zone id d = refl
ids_of_role-append_id dst_zone dst_zone id d = refl
ids_of_role-append_id src_addr_object src_addr_object id d = refl
ids_of_role-append_id dst_addr_object dst_addr_object id d = refl
ids_of_role-append_id service service id d = refl
ids_of_role-append_id role r id d = refl

module _ (results : Dict ℕ MappingEntityResult) where
  -- The loop goes on only with operands that have an identifier.
  collect_operands-cons :
      (o : MappingScopeRuleOperand) (os : List MappingScopeRuleOperand) (d d' : IdsByRole)
      → collect_operands results (o ∷ os) d ≡ ok d'
      → (id : ℕ) × (operand_id results o ≡ some id)
        × (collect_operands results os (append_id o.role id d) ≡ ok d')
  unfolding collect_operands
  collect_operands-cons o os d d' h =
      elim (Option-cases (lookup o.mapping_entity_result_id results)) [
        | inl t ↦ absurd (ground arith)
        | inr (r, t) ↦ elim (Option-cases r.selected_sdwan_entity_id) [
          | inl u ↦ absurd (ground arith)
          | inr (id, u) ↦ (id, ground arith, ground arith)
        ]
      ]

  ids_with_role-cons :
      (role : MappingScopeRuleOperandRole) (o : MappingScopeRuleOperand)
      (os : List MappingScopeRuleOperand) (id : ℕ)
      → operand_id results o ≡ some id
      → ids_with_role results role (o ∷ os) ≡ (
          if role == o.role
          then id ∷ ids_with_role results role os
          else ids_with_role results role os)
  ids_with_role-cons role o os id h = ground arith

  collect_operands_ids :
      (role : MappingScopeRuleOperandRole) (os : List MappingScopeRuleOperand) (d d' : IdsByRole)
      → collect_operands results os d ≡ ok d'
      → ids_of_role role d' ≡ ids_of_role role d ++ ids_with_role results role os
  unfolding collect_operands
  collect_operands_ids role [] d d' h = let e : d' ≡ d = cc in rw (e, append-nil)
  collect_operands_ids role (o ∷ os) d d' h =
      let (id, found, rest) = collect_operands-cons o os d d' h in
      collect_operands_ids role os (append_id o.role id d) d' rest
      ∙ rw (ids_of_role-append_id role o.role id d, ids_with_role-cons role o os id found)
          (elim (==-cases role o.role) [
            | inl (t, _) ↦
                rw t (append_assoc (ids_of_role role d) (id ∷ []) (ids_with_role results role os))
            | inr (t, _) ↦ rw t
          ])

  -- `m` is what the reader makes of `rule`.
  pub record IsRead (rule : MappingScopeRule) (m : MappedRuleData) : Type 0 where
    pub operands : List MappingScopeRuleOperand
    pub given : rule.operands ≡ some operands
    pub same_id : m.id ≡ rule.id
    pub same_name : m.name ≡ rule.name
    pub same_action : m.action ≡ rule.action
    pub same_priority : m.priority ≡ rule.priority
    pub src_zones : m.src_zones ≡ ids_with_role results src_zone operands
    pub dst_zones : m.dst_zones ≡ ids_with_role results dst_zone operands
    pub src_addr_objects : m.src_addr_objects ≡ ids_with_role results src_addr_object operands
    pub dst_addr_objects : m.dst_addr_objects ≡ ids_with_role results dst_addr_object operands
    pub services : m.services ≡ ids_with_role results service operands
    pub complete :
        (m.src_zones ≢ [])
        × (m.dst_zones ≢ [])
        × (m.src_addr_objects ≢ [])
        × (m.dst_addr_objects ≢ [])
        × (m.services ≢ [])

  missing-eq-nil :
      (d : IdsByRole)
      → missing d ≡ []
      → (d.src_zones ≢ [])
        × (d.dst_zones ≢ [])
        × (d.src_addr_objects ≢ [])
        × (d.dst_addr_objects ≢ [])
        × (d.services ≢ [])
  unfolding missing
  missing-eq-nil d h = ground arith

  check_roles-eq-ok :
      (rule : MappingScopeRule) (d : IdsByRole) (rs : List MappingScopeRuleOperandRole)
      (m : MappedRuleData)
      → check_roles rule d rs ≡ ok m
      → (rs ≡ []) × (m ≡ mapped_rule rule d)
  unfolding check_roles
  check_roles-eq-ok rule d [] m h = (refl, sym (ok-injective h))
  check_roles-eq-ok rule d (r ∷ rs) m h = cc

  mapped_rule-IsRead :
      (rule : MappingScopeRule) (os : List MappingScopeRuleOperand) (d : IdsByRole)
      → rule.operands ≡ some os
      → collect_operands results os no_ids ≡ ok d
      → missing d ≡ []
      → IsRead rule (mapped_rule rule d)
  mapped_rule-IsRead rule os d given collected full = record {
    operands = os;
    given = given;
    same_id = refl;
    same_name = refl;
    same_action = refl;
    same_priority = refl;
    src_zones = collect_operands_ids src_zone os no_ids d collected;
    dst_zones = collect_operands_ids dst_zone os no_ids d collected;
    src_addr_objects = collect_operands_ids src_addr_object os no_ids d collected;
    dst_addr_objects = collect_operands_ids dst_addr_object os no_ids d collected;
    services = collect_operands_ids service os no_ids d collected;
    complete = missing-eq-nil d full;
  }

  read_rule-IsRead :
      (rule : MappingScopeRule) (m : MappedRuleData) → read_rule results rule ≡ ok m → IsRead rule m
  unfolding read_rule
  read_rule-IsRead rule m h = elim (Option-cases rule.operands) [
    | inl t ↦ absurd (ground arith)
    | inr (os, given) ↦
        let step : (collect_operands results os no_ids >>= λ d. check_roles rule d (missing d))
            ≡ ok m =
          ground arith in
        let (d, collected, checked) = >>=-eq-ok (collect_operands results os no_ids) _ step in
        let (full, same) = check_roles-eq-ok rule d (missing d) m checked in
        subst (IsRead rule) (sym same) (mapped_rule-IsRead rule os d given collected full)
  ]

  abbrev pub AllRead : List MappingScopeRule → List MappedRuleData → Type 0
  AllRead [] [] = Unit
  AllRead (rule ∷ rules) (m ∷ ms) = IsRead rule m × AllRead rules ms
  AllRead _ _ = ⊥

  read_rules-AllRead :
      (rules : List MappingScopeRule) (ms : List MappedRuleData)
      → read_rules results rules ≡ ok ms
      → AllRead rules ms
  unfolding read_rules
  read_rules-AllRead [] ms h = rw (sym (ok-injective h)) tt
  read_rules-AllRead (rule ∷ rules) ms h =
      let (m, p, q) = >>=-eq-ok (read_rule results rule) _ h in
      let (rest, p', q') = >>=-eq-ok (read_rules results rules) _ q in
      rw (sym (ok-injective q')) (read_rule-IsRead rule m p, read_rules-AllRead rules rest p')

-- A successful read gives one mapped rule for each rule of the scope, in the order of priorities:
-- its name, action and priority, and for each role the selected SD-WAN identifiers of the operands
-- with that role, in their order, of which there is at least one.
pub get_mapping_scope_rules_exact :
    (rules : List MappingScopeRule) (results : List MappingEntityResult) (ms : List MappedRuleData)
    → get_mapping_scope_rules rules results ≡ ok ms
    → AllRead (index_by (λ r. r.id) results) (sorted by_rule_priority rules) ms
unfolding get_mapping_scope_rules
get_mapping_scope_rules_exact rules results ms h = elim (Bool-cases (any_unmatched results)) [
  | inl t ↦ absurd (ground arith)
  | inr t ↦ read_rules-AllRead _ (sorted by_rule_priority rules) ms (rw t at h)
]

any_unmatched-Elem :
    (results : List MappingEntityResult) (r : MappingEntityResult)
    → Elem r results
    → r.result_status ≢ matched
    → any_unmatched results ≡ true
unfolding any_unmatched
any_unmatched-Elem [] r m n = absurd m
any_unmatched-Elem (x ∷ xs) r (inl e) n = ground arith
any_unmatched-Elem (x ∷ xs) r (inr m) n = ground (arith, any_unmatched-Elem xs r m n)

-- If any result of the scope is not matched, nothing is read for execution.
pub unmatched_blocks_execution :
    (rules : List MappingScopeRule) (results : List MappingEntityResult) (r : MappingEntityResult)
    → Elem r results
    → r.result_status ≢ matched
    → get_mapping_scope_rules rules results ≡ err unmatched_objects
unfolding get_mapping_scope_rules
unmatched_blocks_execution rules results r m n = rw (any_unmatched-Elem results r m n)
