-- ===== src/Cisco/Acls/Written.antt =====
-- An access rule as it is written, and what each of its parts reads as.
use nsp_migrator.Prelude.{
  ℕ, ◌≤◌, ◌≡◌, refl, inl, inr, true, false, List, [], ◌∷◌, ◌++◌, arith, Bool-cases,
}
use nsp_migrator.Prelude.Eq.{◌==◌, ==-cases, list_eq, nat_eq}
use nsp_migrator.Prelude.Text.{Text, codes, lower, lower_char, is_digit}
use nsp_migrator.Cisco.Endpoints.{is_ipv4, ipv4_parts, parse_endpoint}
use native.Mathlib.Decide.{ℕ_discrete}

pub data Endpoint : Type 0 where
  anywhere : Endpoint
  object_named group_named host_at interface_named : Text → Endpoint
  network_at : Text → Text → Endpoint

abbrev pub endpoint_tokens : Endpoint → List Text
endpoint_tokens anywhere = codes "any" ∷ []
endpoint_tokens (object_named name) = codes "object" ∷ name ∷ []
endpoint_tokens (group_named name) = codes "object-group" ∷ name ∷ []
endpoint_tokens (host_at ip) = codes "host" ∷ ip ∷ []
endpoint_tokens (interface_named name) = codes "interface" ∷ name ∷ []
endpoint_tokens (network_at ip mask) = ip ∷ mask ∷ []

abbrev pub endpoint_ref : Endpoint → Text
endpoint_ref anywhere = codes "any"
endpoint_ref (object_named name) = name
endpoint_ref (group_named name) = name
endpoint_ref (host_at ip) = codes "host:" ++ ip
endpoint_ref (interface_named name) = codes "interface:" ++ name
endpoint_ref (network_at ip mask) = codes "net:" ++ (ip ++ (codes "/" ++ mask))

-- A network is written as two addresses.
abbrev pub IsEndpoint : Endpoint → Type 0
IsEndpoint anywhere = Unit
IsEndpoint (object_named name) = Unit
IsEndpoint (group_named name) = Unit
IsEndpoint (host_at ip) = Unit
IsEndpoint (interface_named name) = Unit
IsEndpoint (network_at ip mask) = (is_ipv4 ip ≡ true) × (is_ipv4 mask ≡ true)

is_ipv4-first_digit : (d : ℕ) (t : Text) → is_ipv4 (d ∷ t) ≡ true → is_digit d ≡ true
unfolding is_ipv4 ipv4_parts ℕ_discrete
is_ipv4-first_digit d t e = elim (Bool-cases (is_digit d)) [
  | inl digit ↦ digit
  | inr other ↦ elim (Bool-cases (d == b'.')) [
    | inl dot ↦ let bad = rw (other, dot, is_ipv4, ipv4_parts) at e in absurd cc
    | inr none_such ↦ let bad = rw (other, none_such, is_ipv4, ipv4_parts) at e in absurd cc
  ]
]

-- An address is no keyword, since it starts with a digit.
pub is_ipv4-not_word :
    (t : Text) (c : ℕ) (w : Text) → 58 ≤ c → is_ipv4 t ≡ true → (lower t == (c ∷ w)) ≡ false
unfolding is_ipv4 ipv4_parts lower lower_char is_digit
is_ipv4-not_word [] c w h e = elim (==-cases (lower []) (c ∷ w)) [
  | inr (differs, _) ↦ differs
  | inl (_, same) ↦ absurd cc
]
is_ipv4-not_word (d ∷ t) c w h e = elim (==-cases (lower (d ∷ t)) (c ∷ w)) [
  | inr (differs, _) ↦ differs
  | inl (_, same) ↦
      let digit = is_ipv4-first_digit d t e in
      let first : lower_char d ≡ c = cc in absurd (ground arith)
]

pub parse_endpoint-tokens :
    (e : Endpoint) (rest : List Text)
    → IsEndpoint e
    → parse_endpoint (endpoint_tokens e ++ rest) ≡ (endpoint_ref e, rest)
unfolding parse_endpoint ℕ_discrete
parse_endpoint-tokens anywhere [] h = refl
parse_endpoint-tokens anywhere (t ∷ ts) h = refl
parse_endpoint-tokens (object_named name) rest h = refl
parse_endpoint-tokens (group_named name) rest h = refl
parse_endpoint-tokens (host_at ip) rest h = refl
parse_endpoint-tokens (interface_named name) rest h = refl
parse_endpoint-tokens (network_at ip mask) rest h =
    let no_word = λ (c : ℕ) (w : Text) (le : 58 ≤ c). is_ipv4-not_word ip c w le h.0 in
    rw
      (
        no_word b'a' (codes "ny") (omega arith),
        no_word b'a' (codes "ny4") (omega arith),
        no_word b'a' (codes "ny6") (omega arith),
        no_word b'o' (codes "bject-group") (omega arith),
        no_word b'o' (codes "bject") (omega arith),
        no_word b'h' (codes "ost") (omega arith),
        no_word b'i' (codes "nterface") (omega arith),
        h.0,
        h.1,
      )
      refl
