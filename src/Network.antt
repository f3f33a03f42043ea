-- ===== src/Network.antt =====
-- network/src/network.rs: the networks and their parameters. The genesis blocks and
-- `default_verification_edge` are not modelled.
use rust_randchain_prototype.Prelude.{ℕ, ◌-◌, ◌^◌, Run, ok, ◌>>=◌}
use rust_randchain_prototype.Primitives.Compact.{Bigint, Compact, from_u256, into_u256, max_value}

pub data Network : Type 0 where
  mainnet testnet regtest unitest : Network
  other : ℕ → Network

abbrev pub magic : Network → ℕ
magic mainnet = 3652501241
magic testnet = 118034699
magic regtest = 3669344250
magic unitest = 0
magic (other value) = value

abbrev pub port : Network → ℕ
port mainnet = 8333
port testnet = 18333
port regtest = 18444
port unitest = 18444
port (other value) = 8333

abbrev pub rpc_port : Network → ℕ
rpc_port mainnet = 8332
rpc_port testnet = 18332
rpc_port regtest = 18443
rpc_port unitest = 18443
rpc_port (other value) = 8332

-- 0x7fff..ff with 64 digits.
abbrev pub max_bits_mainnet : ℕ
max_bits_mainnet = 2 ^ 255 - 1

abbrev pub max_bits_testnet : ℕ
max_bits_testnet = 2 ^ 255 - 1

abbrev pub max_bits_regtest : ℕ
max_bits_regtest = 2 ^ 255 - 1

unfoldable pub max_bits : Bigint → Network → Run ℕ
max_bits big mainnet = ok max_bits_mainnet
max_bits big testnet = ok max_bits_testnet
max_bits big regtest = ok max_bits_regtest
max_bits big unitest = do compact ← max_value big; ok (into_u256 big compact)
max_bits big (other value) = ok max_bits_mainnet

-- `network.max_bits().into()` where a `Compact` is wanted.
unfoldable pub max_compact : Bigint → Network → Run Compact
unfolding max_bits
max_compact big network = do bits ← max_bits big network; from_u256 big bits
