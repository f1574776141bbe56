-- ===== src/Cli/Services/Peers.antt =====
-- The list of reserved peers.
use habs.Base.{ℕ, ◌+◌, ◌≡◌, refl, ◌∙◌, ap, sym, String, List, [], ◌∷◌, ◌<>◌, join}
use habs.Cli.Substrate.{NodeId}
use habs.Cli.Services.{drop_last, peer_address, push_peers, reserved_peers}

assoc : (a b c : String) → (a <> b) <> c ≡ a <> (b <> c)
assoc String.[] b c = refl
assoc (String.◌∷◌ x a) b c = ap (λ t. String.◌∷◌ x t) (assoc a b c)

drop_last-comma : (s : String) → drop_last (s <> ",") ≡ s
unfolding drop_last
drop_last-comma String.[] = refl
drop_last-comma (String.◌∷◌ c String.[]) = refl
drop_last-comma (String.◌∷◌ c (String.◌∷◌ d s)) =
    ap (λ t. String.◌∷◌ c t) (drop_last-comma (String.◌∷◌ d s))

-- The addresses of the nodes, numbered from `index + 1` on.
abbrev pub peer_addresses : String → ℕ → List NodeId → List String
peer_addresses port index [] = []
peer_addresses port index (node ∷ nodes) =
    peer_address port index node ∷ peer_addresses port (index + 1) nodes

join_onto :
    (acc port : String) (index : ℕ) (node : NodeId) (nodes : List NodeId)
    → push_peers port acc index (node ∷ nodes)
      ≡ (acc <> join "," (peer_addresses port index (node ∷ nodes))) <> ","
unfolding push_peers join
join_onto acc port index node [] = sym (assoc acc (peer_address port index node) ",")
join_onto acc port index node (next ∷ nodes) =
    let address : String = peer_address port index node in
    let rest : String = join "," (peer_addresses port (index + 1) (next ∷ nodes)) in
    join_onto (acc <> address <> ",") port (index + 1) next nodes
    ∙ ap (λ t. t <> ",")
        (assoc acc (address <> ",") rest ∙ ap (λ t. acc <> t) (assoc address "," rest))

-- The list of reserved peers is the addresses of the nodes, numbered from one, with commas between
-- them: the comma after the last is dropped, and without nodes the list is empty.
pub reserved_peers-join :
    (port : String) (nodes : List NodeId)
    → reserved_peers port nodes ≡ join "," (peer_addresses port 0 nodes)
unfolding reserved_peers push_peers drop_last join
reserved_peers-join port [] = refl
reserved_peers-join port (node ∷ nodes) =
    ap drop_last (join_onto "" port 0 node nodes) ∙ drop_last-comma _
