-- ===== src/Harbor/Hash.antt =====
-- The table of global names of ztask/server/service_harbor.c.
use ztask.Base.{
  ℕ, zero, suc, ◌%◌, ◌≡◌, refl, sym, ◌∙◌, inl, inr, true, false, some, List, [], ◌∷◌, ◌==◌, ==_self,
  update_self, Bool-cases,
}
use ztask.Harbor.{
  KeyValue, Map, strncmp_equal, name_hash, names_node, name_hash_size, search_chain, hash_search,
  new_node, hash_insert, set_chain, hash_set, globalname_length,
}

strncmp_equal_self : (n : ℕ) (name : List ℕ) → strncmp_equal n name name ≡ true
unfolding strncmp_equal
strncmp_equal_self zero name = refl
strncmp_equal_self (suc n) [] = refl
strncmp_equal_self (suc n) (x ∷ name) = elim (Bool-cases (x == 0)) [
  | inl end ↦ rw (==_self x, end) refl
  | inr inside ↦ rw (==_self x, inside) (strncmp_equal_self n name)
]

-- A node with the key of a name is found by that name.
pub names_node_self :
    (name : List ℕ) (node : KeyValue)
    → node.key ≡ name
    → node.hash ≡ name_hash name
    → names_node name node ≡ true
names_node_self name node k h =
    rw (k, h, ==_self (name_hash name), strncmp_equal_self globalname_length name) refl

pub hash_search-hash_insert :
    (map : Map) (name : List ℕ) → hash_search (hash_insert map name) name ≡ some (new_node name)
unfolding hash_search hash_insert
hash_search-hash_insert map name =
    rw
      (
        update_self map (name_hash name % name_hash_size)
            (new_node name ∷ map (name_hash name % name_hash_size)),
        names_node_self name (new_node name) refl refl,
      )
      refl

search_next :
    (name : List ℕ) (first : KeyValue) (nodes : List KeyValue)
    → names_node name first ≡ false
    → search_chain name (first ∷ nodes) ≡ search_chain name nodes
search_next name first nodes there = rw there refl

search-set_chain :
    (name : List ℕ) (node old : KeyValue) (nodes : List KeyValue)
    → names_node name node ≡ true
    → search_chain name nodes ≡ some old
    → search_chain name (set_chain name node nodes) ≡ some node
search-set_chain name node old [] named e = cc
search-set_chain name node old (first ∷ nodes) named e = elim (Bool-cases (names_node name first)) [
  | inl here ↦ rw (here, named) refl
  | inr there ↦
      rw (there, there)
        (search-set_chain name node old nodes named (sym (search_next name first nodes there) ∙ e))
]

-- What is assigned to a node is found by its name.
pub hash_search-hash_set :
    (map : Map) (name : List ℕ) (node old : KeyValue)
    → names_node name node ≡ true
    → hash_search map name ≡ some old
    → hash_search (hash_set map name node) name ≡ some node
unfolding hash_search hash_set
hash_search-hash_set map name node old named e =
    let i = name_hash name % name_hash_size in
    rw (update_self map i (set_chain name node (map i)))
      (search-set_chain name node old (map i) named e)
