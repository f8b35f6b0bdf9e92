-- ===== src/Execute/Coverage/Meaning.antt =====
-- The traffic that a rule matches, and coverage as inclusion of traffic.
use nsp_migrator.Prelude.{
  or_empty, ℕ, ◌≤◌, ◌≡◌, ◌≢◌, refl, sym, subst, ◌⊎◌, inl, inr, true, Option, some, List, [], ◌∷◌,
  arith, Elem,
}
use nsp_migrator.Prelude.Eq.{Eq, ==-cases, contains, list_eq, nat_eq}
use nsp_migrator.Prelude.Text.{Text}
use nsp_migrator.Catalog.{SdwanServiceL4Proto, tcp, udp, icmp, any, ip_ip, proto_eq}
use nsp_migrator.Execute.Rules.{action_eq}
use nsp_migrator.Execute.Values.{AddressValue, span, name, address_covers}
use nsp_migrator.Execute.Names.{is_superset, str_set_covers}
use nsp_migrator.Execute.Services.{ServiceValue, ports_cover, service_covers}
use nsp_migrator.Execute.Signature.{address_coverable, service_coverable}

-- An end of a connection, by its address or by its name.
pub data Endpoint : Type 0 where
  address : ℕ → Endpoint
  domain : Text → Endpoint

-- What is sent: to a port, as an ICMP message of some code, or by another protocol.
pub data Flow : Type 0 where
  port : SdwanServiceL4Proto → ℕ → Flow
  message : Text → Flow
  encapsulated : Flow
  other : Flow

abbrev pub MatchesAddress : AddressValue → Endpoint → Type 0
MatchesAddress (span a) (address n) = (a.start ≤ n) × (n ≤ a.end)
MatchesAddress (name a) (domain d) = a.domain ≡ d
MatchesAddress _ _ = ⊥

abbrev pub InPorts : Option ℕ → Option ℕ → ℕ → Type 0
InPorts (some s) (some e) n = (s ≤ n) × (n ≤ e)
InPorts _ _ n = ⊥

abbrev pub MatchesProto : ServiceValue → SdwanServiceL4Proto → Flow → Type 0
MatchesProto s any f = Unit
MatchesProto s tcp (port tcp n) = InPorts s.port_start s.port_end n
MatchesProto s udp (port udp n) = InPorts s.port_start s.port_end n
MatchesProto s icmp (message m) = Elem m (or_empty s.codes)
MatchesProto s ip_ip encapsulated = Unit
MatchesProto s _ _ = ⊥

abbrev pub MatchesService : ServiceValue → Flow → Type 0
MatchesService s f = MatchesProto s s.proto f

pub address_covers_sound :
    (a b : AddressValue) (x : Endpoint)
    → address_covers a b ≡ true
    → MatchesAddress b x
    → MatchesAddress a x
unfolding address_covers
address_covers_sound (span a) (span b) (address n) h m = ground arith
address_covers_sound (name a) (name b) (domain d) h m = ground arith
address_covers_sound (span a) (name b) x h m = cc
address_covers_sound (name a) (span b) x h m = cc
address_covers_sound (span a) (span b) (domain d) h m = absurd m
address_covers_sound (name a) (name b) (address n) h m = absurd m

module _ {A : Type 0} ⦃e : Eq A⦄ where
  pub contains→Elem : (x : A) (xs : List A) → contains x xs ≡ true → Elem x xs
  contains→Elem x [] h = cc
  contains→Elem x (y ∷ ys) h = elim (==-cases x y) [
    | inl (_, same) ↦ inl same
    | inr (t, _) ↦ inr (contains→Elem x ys (rw t at h))
  ]

  pub Elem→contains : (x : A) (xs : List A) → Elem x xs → contains x xs ≡ true
  Elem→contains x [] m = absurd m
  Elem→contains x (y ∷ ys) (inl same) = ground arith
  Elem→contains x (y ∷ ys) (inr m) = ground (arith, Elem→contains x ys m)

  is_superset_sound : (a b : List A) (x : A) → is_superset a b ≡ true → Elem x b → Elem x a
  unfolding is_superset
  is_superset_sound a [] x h m = absurd m
  is_superset_sound a (y ∷ b) x h (inl same) = contains→Elem x a (rw same (ground arith))
  is_superset_sound a (y ∷ b) x h (inr m) = is_superset_sound a b x (ground arith) m

pub str_set_covers_sound :
    (a b : List Text) (x : Text) → str_set_covers a b ≡ true → Elem x b → Elem x a
unfolding str_set_covers
str_set_covers_sound [] [] x h m = m
str_set_covers_sound (e ∷ a) [] x h m = absurd m
str_set_covers_sound [] (t ∷ b) x h m = cc
str_set_covers_sound (e ∷ a) (t ∷ b) x h m = is_superset_sound (e ∷ a) (t ∷ b) x h m

ports_cover_sound :
    (a b : ServiceValue) (n : ℕ)
    → ports_cover a b ≡ true
    → InPorts b.port_start b.port_end n
    → InPorts a.port_start a.port_end n
unfolding ports_cover
ports_cover_sound a b n h m = ground arith

-- Unless the covering value is `any`, both have one protocol.
covers_same_proto :
    (a b : ServiceValue)
    → service_covers a b ≡ true
    → (a.proto ≡ any) ⊎ ((a.proto ≢ any) × (a.proto ≡ b.proto))
unfolding service_covers
covers_same_proto a b h = elim (==-cases a.proto any) [
  | inl (_, e) ↦ inl e
  | inr (t, n) ↦ inr (n, ground arith)
]

service_covers_at :
    (a b : ServiceValue) (f : Flow) (p : SdwanServiceL4Proto)
    → a.proto ≡ p
    → b.proto ≡ p
    → service_covers a b ≡ true
    → MatchesProto b p f
    → MatchesProto a p f
unfolding service_covers
service_covers_at a b f any ea eb h m = tt
service_covers_at a b (port tcp n) tcp ea eb h m = ports_cover_sound a b n (ground arith) m
service_covers_at a b (port udp n) udp ea eb h m = ports_cover_sound a b n (ground arith) m
service_covers_at a b (message t) icmp ea eb h m =
    is_superset_sound (or_empty a.codes) (or_empty b.codes) t (ground arith) m
service_covers_at a b encapsulated ip_ip ea eb h m = tt
service_covers_at a b _ _ ea eb h m = absurd m

pub service_covers_sound :
    (a b : ServiceValue) (f : Flow)
    → service_covers a b ≡ true
    → MatchesService b f
    → MatchesService a f
service_covers_sound a b f h m = elim (covers_same_proto a b h) [
  | inl e ↦ subst (λ p. MatchesProto a p f) (sym e) tt
  | inr (_, e) ↦
      service_covers_at a b f a.proto refl (sym e) h (subst (λ p. MatchesProto b p f) (sym e) m)
]
