-- ===== src/Network.antt =====
-- network.go: the addresses of the modules that are deployed on a network.
use go_sequence.Ethkit.{Address}

pub record WalletContext : Type 0 where
  pub factory_address : Address
  pub main_module_address : Address
  pub main_module_upgradable_address : Address
  pub guest_module_address : Address
  pub utils_address : Address

-- `sequenceContext`
abbrev pub sequence_context : WalletContext
sequence_context = record {
  factory_address = 0xf9D09D634Fb818b05149329C1dcCFAeA53639d96;
  main_module_address = 0xd01F11855bCcb95f88D7A48492F66410d4637313;
  main_module_upgradable_address = 0x7EFE6cE415956c5f80C6530cC6cc81b4808F6118;
  guest_module_address = 0x02390F3E6E5FD1C6786CB78FD3027C117a9955A7;
  utils_address = 0xd130B43062D875a4B7aF3f8fc036Bc6e9D3E1B3E;
}
