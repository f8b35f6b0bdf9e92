-- ===== src/Cisco/Tokens.antt =====
-- The modifiers of an access rule (src/app/modules/imports/cisco_asa/parsing/tokens.py).
use nsp_migrator.Prelude.{Bool, true, false, Option, none, some, List, [], ◌∷◌, if◌then◌else◌}
use nsp_migrator.Prelude.Eq.{◌==◌, list_eq, nat_eq}
use nsp_migrator.Prelude.Text.{Text, codes, lower}

pub record AclModifiers : Type 0 where
  pub inactive : Bool
  pub log : Bool
  pub time_range : Option Text

abbrev pub no_modifiers : AclModifiers
no_modifiers = record { inactive = false; log = false; time_range = none }

-- the loop of `parse_modifiers`: the tokens that are kept, and the modifiers after all tokens
unfoldable pub scan_modifiers : List Text → AclModifiers → List Text × AclModifiers
unfolding lower list_eq nat_eq
scan_modifiers [] mods = ([], mods)
scan_modifiers (t ∷ []) mods =
    if lower t == codes "inactive"
    then ([], record mods { inactive = true })
    else if lower t == codes "log"
    then (t ∷ [], record mods { log = true })
    else (t ∷ [], mods)
scan_modifiers (t ∷ u ∷ ts) mods = elim (lower t == codes "inactive") [
  | true ↦ scan_modifiers (u ∷ ts) (record mods { inactive = true })
  | false ↦ elim (lower t == codes "log") [
    | true ↦
        let (filtered, result) = scan_modifiers (u ∷ ts) (record mods { log = true }) in
        (t ∷ filtered, result)
    | false ↦ elim (lower t == codes "time-range") [
      | true ↦ scan_modifiers ts (record mods { time_range = some u })
      | false ↦ let (filtered, result) = scan_modifiers (u ∷ ts) mods in (t ∷ filtered, result)
    ]
  ]
]

unfoldable pub parse_modifiers : List Text → List Text × AclModifiers
unfolding scan_modifiers
parse_modifiers tokens = scan_modifiers tokens no_modifiers
