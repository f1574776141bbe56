-- ===== src/Utils/Options.antt =====
-- The lists that utils.js makes from one text: options, commands and nodes.
use habs.Base.{
  ℕ, zero, suc, ◌+◌, ◌≤◌, ◌≡◌, refl, ◌∙◌, ap, sym, String, false, ◌||◌, some, List, [], ◌∷◌, ◌++◌,
  length, get_elem?, if◌then◌else◌, is_empty, split, arith, ◌<>◌, show_nat,
}
use habs.Utils.{
  Node, push_option, push_items, push_nodes, format_option_list, format_option_cmds,
  construct_nodes_list,
}

append_assoc {ℓ} : {A : Type ℓ} (xs ys zs : List A) → (xs ++ ys) ++ zs ≡ xs ++ (ys ++ zs)
append_assoc [] ys zs = refl
append_assoc (x ∷ xs) ys zs = ap (λ t. x ∷ t) (append_assoc xs ys zs)

append_nil {ℓ} : {A : Type ℓ} (xs : List A) → xs ++ [] ≡ xs
append_nil [] = refl
append_nil (x ∷ xs) = ap (λ t. x ∷ t) (append_nil xs)

-- The option before every item.
abbrev pub with_option : String → List String → List String
with_option option [] = []
with_option option (item ∷ items) = option ∷ item ∷ with_option option items

push_option_lem :
    (option : String) (result items : List String)
    → push_option option result items ≡ result ++ with_option option items
unfolding push_option
push_option_lem option result [] = sym (append_nil result)
push_option_lem option result (item ∷ items) =
    push_option_lem option (result ++ option ∷ item ∷ []) items
    ∙ append_assoc result (option ∷ item ∷ []) (with_option option items)

push_items_lem : (result items : List String) → push_items result items ≡ result ++ items
unfolding push_items
push_items_lem result [] = sym (append_nil result)
push_items_lem result (item ∷ items) =
    push_items_lem (result ++ item ∷ []) items ∙ append_assoc result (item ∷ []) items

split_nonempty : (sep : ℕ) (s : String) → 1 ≤ length (split sep s)
unfolding split
split_nonempty sep String.[] = omega arith
split_nonempty sep (String.◌∷◌ c s) = ground (arith, split_nonempty sep s)

-- A text without the separator is its only part.
split_one : (sep : ℕ) (s : String) → length (split sep s) ≡ 1 → split sep s ≡ s ∷ []
unfolding split
split_one sep String.[] h = refl
split_one sep (String.◌∷◌ c s) h = ground (arith, split_nonempty sep s, split_one sep s)

-- `formatOptionList` puts the option before every part of the text between commas, in their order,
-- and `formatOptionCmds` gives the parts between spaces; an empty text gives nothing, and so does
-- an empty option.
pub format_options_lem :
    (option input : String)
    → (format_option_list option input
        ≡ (if is_empty option || is_empty input then [] else with_option option (split 44 input)))
      × (format_option_cmds input ≡ (if is_empty input then [] else split 32 input))
unfolding format_option_list format_option_cmds
format_options_lem option input = (
  ground (arith, push_option_lem option [] (split 44 input)),
  ground (arith, push_items_lem [] (split 32 input), split_one 32 input),
)

-- The nodes of a list of wallets, numbered from `index + 1` on.
abbrev pub numbered : String → ℕ → List String → List Node
numbered archipel_name index [] = []
numbered archipel_name index (item ∷ items) =
    record { wallet = item; name = archipel_name <> "-NODE-" <> show_nat (index + 1) }
    ∷ numbered archipel_name (index + 1) items

push_nodes_lem :
    (archipel_name : String) (result : List Node) (items : List String) (index : ℕ)
    → push_nodes archipel_name result items index ≡ result ++ numbered archipel_name index items
unfolding push_nodes
push_nodes_lem archipel_name result [] index = sym (append_nil result)
push_nodes_lem archipel_name result (item ∷ items) index =
    push_nodes_lem archipel_name (result ++ _ ∷ []) items (index + 1)
    ∙ append_assoc result (_ ∷ []) (numbered archipel_name (index + 1) items)

numbered-get_elem? :
    (archipel_name : String) (index i : ℕ) (items : List String) (wallet : String)
    → get_elem? items i ≡ some wallet
    → get_elem? (numbered archipel_name index items) i
      ≡ some
          (record { wallet = wallet; name = archipel_name <> "-NODE-" <> show_nat (index + i + 1) })
numbered-get_elem? archipel_name index i [] wallet h = absurd (ground arith)
numbered-get_elem? archipel_name index zero (item ∷ items) wallet h =
    let same : item ≡ wallet = ground arith in
    let place : index + 1 ≡ index + 0 + 1 = omega arith in rw (same, place) refl
numbered-get_elem? archipel_name index (suc i) (item ∷ items) wallet h =
    let place : index + 1 + i + 1 ≡ index + suc i + 1 = omega arith in
    numbered-get_elem? archipel_name (index + 1) i items wallet h ∙ rw place refl

length-numbered :
    (archipel_name : String) (index : ℕ) (items : List String)
    → length (numbered archipel_name index items) ≡ length items
length-numbered archipel_name index [] = refl
length-numbered archipel_name index (item ∷ items) =
    ap suc (length-numbered archipel_name (index + 1) items)

construct_nodes_list-numbered :
    (wallets archipel_name : String)
    → is_empty wallets ≡ false
    → is_empty archipel_name ≡ false
    → construct_nodes_list wallets archipel_name ≡ numbered archipel_name 0 (split 44 wallets)
unfolding construct_nodes_list
construct_nodes_list-numbered wallets archipel_name some_wallets named =
    ground (arith, some_wallets, named, push_nodes_lem archipel_name [] (split 44 wallets) 0)

-- With a text of wallets and a name of the federation, `constructNodesList` gives one node for each
-- wallet between commas, and the wallet at index i has the name of the federation with the number
-- i + 1.
pub construct_nodes_list_lem :
    (wallets archipel_name : String)
    → is_empty wallets ≡ false
    → is_empty archipel_name ≡ false
    → (length (construct_nodes_list wallets archipel_name) ≡ length (split 44 wallets))
      × ((i : ℕ) (wallet : String)
          → get_elem? (split 44 wallets) i ≡ some wallet
          → get_elem? (construct_nodes_list wallets archipel_name) i
            ≡ some
                (record { wallet = wallet; name = archipel_name <> "-NODE-" <> show_nat (i + 1) }))
construct_nodes_list_lem wallets archipel_name some_wallets named =
    let e = construct_nodes_list-numbered wallets archipel_name some_wallets named in
    (
      ap length e ∙ length-numbered archipel_name 0 (split 44 wallets),
      λ i wallet h.
          let place : 0 + i + 1 ≡ i + 1 = omega arith in
          ap (λ ns. get_elem? ns i) e
          ∙ numbered-get_elem? archipel_name 0 i (split 44 wallets) wallet h
          ∙ rw place refl,
    )
