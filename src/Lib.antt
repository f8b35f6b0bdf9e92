-- ===== src/Lib.antt =====
-- The decision core of the firewall policy migrator: what it reads, compares, plans and pushes.
--
-- The program reads a foreign firewall configuration, maps its rules to objects of an SD-WAN system,
-- compares each mapped rule with the policies that the system already has, and pushes those that are
-- new. This library models the reading of a Cisco ASA configuration up to its access rules, and the
-- part from the mapping of objects on. The path of a source is given from the root of the repository.
--
-- Prelude holds lists, results, texts and Python's dictionaries and stable sort over the native
-- numbers; its modules model the interpreter and not the program.
--
-- Hash: `json_hash` (src/app/core/hashers.py). SHA-256 and the quoting of one text are the parameter
-- `Builtins`, of which no law is assumed.
--
-- Catalog: the objects of the SD-WAN system and their checks
-- (src/app/integrations/sdwan_csp_api/gateways/enums.py, models.py). Catalog.Groups is the expansion
-- of address groups (address_group_resolver.py there); its recursion takes fuel, and four calls are
-- enough, since a fourth nested group is refused. Catalog.Fingerprint is `get_fingerprint`.
--
-- Mapping.Entities: scopes, rules and results of the mapping module
-- (src/app/modules/mapping/domain/entities.py, enums.py, value_objects.py). Mapping.Candidates: the
-- finalizer of candidates and the result that they lead to. Mapping.Zones, Services and Addresses: the
-- indexes of the catalog and the matchers over them; Mapping.Normalizer and Icmp hold their helpers
-- (matchers, sdwan_catalog_indexes and normalizer.py in
-- src/app/modules/mapping/services/mapping_objects). Mapping.Results: `build_results` and
-- `build_results_summary` (mapping_objects_service.py there) over the entities of Mapping.Canonical
-- (src/app/modules/mapping/ports/canonical_reader/schemas.py).
--
-- Cisco (src/app/modules/imports/cisco_asa): Config and Objects are domain/enums.py and
-- parsed_config.py; Tree is parsing/tree.py and lines.py; Index, Tokens, Operands, Zones and Usage are
-- index.py, tokens.py, protocol_operands.py, extractors/zones.py and extractors/usage.py there;
-- Endpoints and Acls are extractors/acls.py; Addresses is extractors/addresses.py and
-- address_group_members.py; ServiceCatalog and ProtocolGroups are service_catalog.py and
-- extractors/protocol_groups.py; Processing is adapters/rules/processing.py and key_builder.py. A
-- regular expression over white space is matched on the words of the line. The walk of a subtree takes
-- fuel, as many steps as there are nodes, since a child stands after its parent.
--
-- Runtime.Cache: the store of the runtime caches (src/app/infrastructure/cache/ttl_store.py). The
-- `TTLCache` of cachetools is the parameter `TtlCache`; Runtime.Cache.Laws states what its
-- documentation promises.
--
-- Execute (src/app/modules/execute): Rules, Plan are domain/enums.py, value_objects.py, entities.py;
-- Values, Names, Services, Signature, Resolver, Coverage and ExactSignature are
-- services/rule_values_resolver.py, in the order of that file but split by kind of value; Comparer is
-- services/rules_comparer.py; MappingReader is adapters/mapping_reader.py; Repository is
-- adapters/runtime_cache/repositories.py; Gateway is adapters/sdwan_gateway.py with the validator of
-- `CreatePolicyRequest`; Report is adapters/reports_writer.py; Prepare and Push are the use cases
-- application/use_cases/prepare_execute_plan.py and push_execute_plan_rules.py.
--
-- How the parts interact: Prepare reads the rules through MappingReader, checks the fingerprint of the
-- current catalog, loads the policies through Gateway, compares each rule through Comparer, and adds
-- the plan to Repository. Push reads the plan, repeats the checks of the fingerprint, marks the plan,
-- sends its new rules through Gateway, records each outcome in Repository and writes the report.
--
-- State is passed explicitly. The SD-WAN system is the parameter `Sdwan`: a type of states and what
-- each request does to them, with no laws assumed; the requests that read leave the state alone. A
-- UUID and a time are numbers given by the caller. An exception is a constructor of an error type that
-- carries what its text names, not the text. An IPv4 address is its number. White space, case and
-- digits are those of ASCII. The repository is a dictionary of the entries that have not expired. The
-- storing of a report, which may raise, is a function that the world holds.
--
-- Not modelled: the extractor of services, the normalization of parsed configurations, the canonical
-- store, the building of scope rules, the HTTP client, the database, the web API and the user
-- interface.
pub mod Prelude
pub mod Hash
pub mod Catalog
pub mod Mapping
pub mod Cisco
pub mod Runtime
pub mod Execute
pub mod Tests
