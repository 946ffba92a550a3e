-- ===== src/Trie.antt =====
-- trie/: the state tree, a radix tree over the nibbles of its keys. `Nibbles`, `Node`, `Branch` and
-- `Walk` follow the files of that folder, `State` the methods of `Trie`; the others prove.
pub mod Nibbles
pub mod Node
pub mod Branch
pub mod Walk
pub mod Valid
pub mod State
pub mod Delete
pub mod Map
pub mod Examples
