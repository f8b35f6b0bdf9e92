-- ===== src/Cisco/Index.antt =====
-- The headers of a configuration by name
-- (src/app/modules/imports/cisco_asa/parsing/index.py). A pattern over white space is matched on the
-- words of a line.
use nsp_migrator.Prelude.{
  ℕ, true, false, ◌&&◌, Option, none, some, List, [], ◌∷◌, ltb, if◌then◌else◌,
}
use nsp_migrator.Prelude.Eq.{◌==◌, list_eq, nat_eq}
use nsp_migrator.Prelude.Dict.{Dict, insert, append_at}
use nsp_migrator.Prelude.Text.{
  Text, codes, strip, lower, lstrip, words, split, starts_with, is_digits, to_number, is_space,
  truthy,
}
use nsp_migrator.Cisco.Config.{CryptoMapLink}
use nsp_migrator.Cisco.Tree.{ConfigNode, stripped}

pub record AsaIndex : Type 0 where
  pub object_network : Dict Text (List ℕ)
  pub object_group_network : Dict Text ℕ
  pub object_service : Dict Text ℕ
  pub object_group_service : Dict Text ℕ
  pub object_group_icmp_type : Dict Text ℕ
  pub object_group_protocol : Dict Text ℕ
  pub interfaces_nameif : Dict Text Text
  pub crypto_map_by_acl : Dict Text (List CryptoMapLink)

-- The index, and the interface whose header was read last.
pub record Scan : Type 0 where
  pub index : AsaIndex
  pub current_interface : Option Text

-- what follows the first word, without the space before it
unfoldable pub after_word : Text → Text
unfolding is_space lstrip
after_word [] = []
after_word (c ∷ s) = elim (is_space c) [ true ↦ lstrip s | false ↦ after_word s ]

-- `s.split(maxsplit=1)[1].strip()` of a line that starts with a word and a space
unfoldable pub one_after : Text → Text
unfolding strip after_word
one_after s = strip (after_word s)

-- `s.split(maxsplit=2)[2].strip()`; an `IndexError` stays out, since a line ends in no space
unfoldable pub two_after : Text → Text
unfolding strip after_word
two_after s = strip (after_word (after_word s))

abbrev third : List Text → Option Text
third (_ ∷ _ ∷ t ∷ _) = some t
third [] = none
third (_ ∷ []) = none
third (_ ∷ _ ∷ []) = none

-- `_CRYPTO_MAP_MATCH_RE`
abbrev crypto_link : List Text → ℕ → Option CryptoMapLink
unfolding lower is_digits to_number list_eq nat_eq
crypto_link (crypto ∷ map_word ∷ name ∷ seq ∷ match_word ∷ address ∷ acl ∷ _) line_no =
    if (lower crypto == codes "crypto" && lower map_word == codes "map")
      && (is_digits seq && (lower match_word == codes "match" && lower address == codes "address"))
    then some (record {
      map_name = name;
      sequence = to_number 0 seq;
      acl_name = acl;
      source_line = line_no;
    })
    else none
crypto_link [] line_no = none
crypto_link (_ ∷ []) line_no = none
crypto_link (_ ∷ _ ∷ []) line_no = none
crypto_link (_ ∷ _ ∷ _ ∷ []) line_no = none
crypto_link (_ ∷ _ ∷ _ ∷ _ ∷ []) line_no = none
crypto_link (_ ∷ _ ∷ _ ∷ _ ∷ _ ∷ []) line_no = none
crypto_link (_ ∷ _ ∷ _ ∷ _ ∷ _ ∷ _ ∷ []) line_no = none

-- `parts[2]` as a key, if there are three parts
abbrev with_third : Text → ℕ → Dict Text ℕ → Dict Text ℕ
unfolding strip insert list_eq nat_eq split
with_third s idx d = elim (third (words s)) [ none ↦ d | some name ↦ insert (strip name) idx d ]

-- one node of `from_tree`
unfoldable pub scan_node : ConfigNode → Scan → Scan
unfolding stripped lower starts_with strip after_word insert append_at list_eq nat_eq split
    is_digits to_number
scan_node node scan =
    let s = stripped node.line in
    let low = lower s in
    let index = scan.index in
    if starts_with (codes "interface ") low
    then record scan { current_interface = some (one_after s) }
    else elim (if ltb 0 node.line.indent && starts_with (codes "nameif ") low
        then truthy scan.current_interface
        else none) [
          | some current ↦ record scan {
            index = record index {
              interfaces_nameif = insert current (one_after s) index.interfaces_nameif;
            };
          }
          | none ↦
              if starts_with (codes "object network ") low
              then record scan {
                index = record index {
                  object_network = append_at (two_after s) node.idx index.object_network;
                };
              }
              else if starts_with (codes "object-group network ") low
              then record scan {
                index = record index {
                  object_group_network = with_third s node.idx index.object_group_network;
                };
              }
              else if starts_with (codes "object service ") low
              then record scan {
                index = record index {
                  object_service = insert (two_after s) node.idx index.object_service;
                };
              }
              else if starts_with (codes "object-group service ") low
              then record scan {
                index = record index {
                  object_group_service = with_third s node.idx index.object_group_service;
                };
              }
              else if starts_with (codes "object-group icmp-type ") low
              then record scan {
                index = record index {
                  object_group_icmp_type =
                      insert (two_after s) node.idx index.object_group_icmp_type;
                };
              }
              else if starts_with (codes "object-group protocol ") low
              then record scan {
                index = record index {
                  object_group_protocol = insert (two_after s) node.idx index.object_group_protocol;
                };
              }
              else elim (crypto_link (words s) node.line.line_no) [
                | none ↦ scan
                | some link ↦ record scan {
                  index = record index {
                    crypto_map_by_acl = append_at link.acl_name link index.crypto_map_by_acl;
                  };
                }
              ]
        ]

unfoldable pub scan_nodes : List ConfigNode → Scan → Scan
unfolding scan_node
scan_nodes [] scan = scan
scan_nodes (node ∷ nodes) scan = scan_nodes nodes (scan_node node scan)

-- `AsaIndex.from_tree`
unfoldable pub index_from_tree : List ConfigNode → AsaIndex
unfolding scan_nodes
index_from_tree nodes =
    (scan_nodes nodes (record {
      index = record {
        object_network = [];
        object_group_network = [];
        object_service = [];
        object_group_service = [];
        object_group_icmp_type = [];
        object_group_protocol = [];
        interfaces_nameif = [];
        crypto_map_by_acl = [];
      };
      current_interface = none;
    })).index
