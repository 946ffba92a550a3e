-- ===== src/Trie/Examples.antt =====
-- The trie on small inputs.
use block_preempt.Prelude.{replicate, ◌≡◌, refl, ◌≢◌, true, none, some, [], ◌∷◌, arith}
use block_preempt.Trie.Nibbles.{Bytes, prefix_matched_len, from_bytes, from_byte}
use block_preempt.Trie.Node.{Node, leaf, branch, extension, nil, cons}
use block_preempt.Trie.Branch.{new_branch_node, set_branch}
use block_preempt.Trie.Walk.{put_node, set_leaf, put_leaf_branch, put_leaf}
use block_preempt.Trie.State.{Trie, new_trie, get, put}
use block_preempt.Trie.Delete.{delete_node}
use block_preempt.Trie.Delete.Undo.{delete_node-put_leaf}
use block_preempt.Trie.Map.{IsTrie, put-IsTrie, get-put_self, get-put_ne}

abbrev key_a : Bytes
key_a = 18 ∷ 52 ∷ []

abbrev key_b : Bytes
key_b = 18 ∷ 86 ∷ []

abbrev trie_a : Trie
trie_a = record { root = some (leaf (1 ∷ 2 ∷ 3 ∷ 4 ∷ []) (some (7 ∷ []))) }

put_a : put new_trie key_a (some (7 ∷ [])) ≡ some trie_a
unfolding put from_bytes from_byte
put_a = refl

trie_a-IsTrie : IsTrie trie_a
trie_a-IsTrie = put-IsTrie new_trie key_a (7 ∷ []) trie_a tt (omega arith, (omega arith, tt)) put_a

abbrev trie_ab : Trie
trie_ab = record {
  root = some (
      extension (1 ∷ 2 ∷ []) (
        branch none (none ∷ none ∷ none ∷ some 0 ∷ none ∷ some 1 ∷ replicate 10 none)
          (cons (leaf (4 ∷ []) (some (7 ∷ []))) (cons (leaf (6 ∷ []) (some (8 ∷ []))) nil))));
}

put_ab : put trie_a key_b (some (8 ∷ [])) ≡ some trie_ab
unfolding put from_bytes from_byte put_node put_leaf put_leaf_branch set_leaf set_branch
    prefix_matched_len new_branch_node
put_ab = refl

get-put_self_example : get trie_ab key_b ≡ some (some (8 ∷ []), true)
get-put_self_example =
    get-put_self trie_a key_b (8 ∷ []) trie_ab trie_a-IsTrie (omega arith, (omega arith, tt)) put_ab

keys_differ : key_a ≢ key_b
keys_differ e = cc

get-put_ne_example : get trie_ab key_a ≡ get trie_a key_a
get-put_ne_example =
    get-put_ne trie_a key_b (8 ∷ []) trie_ab trie_a-IsTrie (omega arith, (omega arith, tt)) put_ab
      key_a (omega arith, (omega arith, tt)) keys_differ

put-IsTrie_example : IsTrie trie_ab
put-IsTrie_example =
    put-IsTrie trie_a key_b (8 ∷ []) trie_ab trie_a-IsTrie (omega arith, (omega arith, tt)) put_ab

abbrev nibbles_1 : Bytes
nibbles_1 = 1 ∷ 2 ∷ []

abbrev nibbles_2 : Bytes
nibbles_2 = 1 ∷ 3 ∷ 4 ∷ []

nibbles_differ : nibbles_1 ≢ nibbles_2
nibbles_differ e = cc

delete_node-put_leaf_example :
    (n : Node) × (put_leaf (1 ∷ 2 ∷ []) (some (7 ∷ [])) (1 ∷ 3 ∷ 4 ∷ []) (some (8 ∷ [])) ≡ some n)
    × (delete_node n (1 ∷ 3 ∷ 4 ∷ []) ≡ some (some (leaf (1 ∷ 2 ∷ []) (some (7 ∷ [])))))
delete_node-put_leaf_example =
    delete_node-put_leaf (1 ∷ 2 ∷ []) (7 ∷ []) (1 ∷ 3 ∷ 4 ∷ []) (8 ∷ [])
      (omega arith, (omega arith, tt)) (omega arith, (omega arith, (omega arith, tt)))
      nibbles_differ
