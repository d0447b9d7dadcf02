-- ===== src/Merkle.antt =====
-- internal/merkle/tree.go: an OpenZeppelin-compatible Merkle tree over (address, amount) leaves.
-- Keccak-256 is go-ethereum's: it is the parameter `keccak256` of the definitions. A hash is the
-- list of its 32 bytes; addresses are lists of 20 bytes, amounts are below 2 ^ 256.
pub mod Hash
pub mod Hex
pub mod Tree
pub mod Levels
pub mod Proofs
pub mod Order
pub mod Encoding
pub mod Collision
pub mod Sound
pub mod Security
