-- ===== src/Netip.antt =====
-- The addresses of Go's package `net/netip`, a parameter of the model: what the program calls of
-- it, and that the printed form of an address parses back to it.
use dialtone_watcher.Prelude.{Bool, Option, none, some, [], ◌≡◌, Text}

pub record Netip : Type 1 where
  pub Addr : Type 0
  pub parse_addr : Text → Option Addr
  pub to_text : Addr → Text
  pub is_loopback : Addr → Bool
  pub is_private : Addr → Bool
  pub is_link_local_unicast : Addr → Bool
  pub is_link_local_multicast : Addr → Bool
  pub is_multicast : Addr → Bool
  pub is_unspecified : Addr → Bool
  pub parse_addr-to_text : (a : Addr) → parse_addr (to_text a) ≡ some a
  pub parse_addr-nil : parse_addr [] ≡ none
