-- ===== src/Cisco/ServiceCatalog.antt =====
-- The services that are known by name
-- (src/app/modules/imports/cisco_asa/parsing/service_catalog.py).
use nsp_migrator.Prelude.{ℕ, ◌≡◌, refl, ◌&&◌, ◌||◌, not, Option, none, some, [], ◌∷◌, if◌then◌else◌}
use nsp_migrator.Prelude.Eq.{◌==◌, contains, list_eq, nat_eq}
use nsp_migrator.Prelude.Dict.{Dict, lookup}
use native.Mathlib.Decide.{ℕ_discrete}
use nsp_migrator.Prelude.Text.{Text, codes, strip, lower, truthy, is_digits, to_number}

pub record ServiceCatalogEntry : Type 0 where
  pub protocol : Text
  pub port_from : ℕ
  pub port_to : ℕ

-- The entry of a single port.
abbrev entry : Text → ℕ → ServiceCatalogEntry
entry protocol port = record { protocol = protocol; port_from = port; port_to = port }

-- `_BUILTIN_SERVICES`
abbrev pub builtin_services : Dict Text ServiceCatalogEntry
builtin_services =
    (codes "bootps", entry (codes "udp") 67)
    ∷ (codes "bootpc", entry (codes "udp") 68)
    ∷ (codes "echo", entry (codes "tcp") 7)
    ∷ (codes "ftp-data", entry (codes "tcp") 20)
    ∷ (codes "www", entry (codes "tcp") 80)
    ∷ (codes "http", entry (codes "tcp") 80)
    ∷ (codes "https", entry (codes "tcp") 443)
    ∷ (codes "ssh", entry (codes "tcp") 22)
    ∷ (codes "telnet", entry (codes "tcp") 23)
    ∷ (codes "rsh", entry (codes "tcp") 514)
    ∷ (codes "lpd", entry (codes "tcp") 515)
    ∷ (codes "smtp", entry (codes "tcp") 25)
    ∷ (codes "domain", entry (codes "udp") 53)
    ∷ (codes "dns", entry (codes "udp") 53)
    ∷ (codes "ntp", entry (codes "udp") 123)
    ∷ (codes "snmp", entry (codes "udp") 161)
    ∷ (codes "snmptrap", entry (codes "udp") 162)
    ∷ (codes "syslog", entry (codes "udp") 514)
    ∷ (codes "sunrpc", entry (codes "tcp") 111)
    ∷ (codes "nfs", entry (codes "tcp") 2049)
    ∷ (codes "radius", entry (codes "udp") 1812)
    ∷ (codes "radius-acct", entry (codes "udp") 1813)
    ∷ (codes "rtsp", entry (codes "tcp") 554)
    ∷ (codes "netbios-ssn", entry (codes "tcp") 139)
    ∷ (codes "tftp", entry (codes "udp") 69)
    ∷ (codes "ftp", entry (codes "tcp") 21)
    ∷ (codes "pop3", entry (codes "tcp") 110)
    ∷ (codes "imap4", entry (codes "tcp") 143)
    ∷ (codes "imap", entry (codes "tcp") 143)
    ∷ (codes "ldap", entry (codes "tcp") 389)
    ∷ (codes "ldaps", entry (codes "tcp") 636)
    ∷ (codes "rdp", entry (codes "tcp") 3389)
    ∷ (codes "ms-sql", entry (codes "tcp") 1433)
    ∷ (codes "mssql", entry (codes "tcp") 1433)
    ∷ (codes "mysql", entry (codes "tcp") 3306)
    ∷ (codes "postgresql", entry (codes "tcp") 5432)
    ∷ (codes "postgres", entry (codes "tcp") 5432)
    ∷ []

-- `lookup_builtin_service`
unfoldable pub lookup_builtin_service : Text → Option Text → Option ServiceCatalogEntry
unfolding strip lower lookup list_eq nat_eq
lookup_builtin_service name protocol_hint =
    let key = lower (strip name) in
    elim (lookup key builtin_services) [
      | none ↦ none
      | some found ↦ elim (truthy protocol_hint) [
        | none ↦ some found
        | some hint ↦
            let hinted = lower hint in
            if hinted == codes "tcp" || hinted == codes "udp"
            then (if not (found.protocol == hinted)
                  && contains key (
                      codes "domain" ∷ codes "dns" ∷ codes "ntp" ∷ codes "snmp" ∷ codes "tftp" ∷ [])
                then some found
                else some (record found { protocol = hinted }))
            else some found
      ]
    ]

-- `parse_port_token`
unfoldable pub parse_port_token : Text → Option ℕ
unfolding strip is_digits to_number lookup_builtin_service
parse_port_token token =
    let name = strip token in
    if is_digits name
    then some (to_number 0 name)
    else elim (lookup_builtin_service name none) [ none ↦ none | some found ↦ some found.port_from ]

https_test : parse_port_token (codes " https") ≡ some 443
unfolding parse_port_token ℕ_discrete
https_test = refl
