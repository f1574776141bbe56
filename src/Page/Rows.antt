-- ===== src/Page/Rows.antt =====
-- The list of heartbeats that ui/src/ArchipelModule.js shows.
use habs.Base.{
  String, Bool, false, not, ◌&&◌, Option, none, some, List, [], ◌∷◌, if◌then◌else◌, ◌<>◌, Number,
  nan, num, minus, same, show, parse_int,
}
use habs.Heartbeats.{Value, text, number}
use habs.Heartbeats.Listing.{Listed}
use habs.Page.{PageData, is_text}

-- One row of the list of heartbeats: its texts, and the labels that it has.
pub record Row : Type 0 where
  pub current_node : Bool
  pub name : String
  pub wallet : String
  pub last_heartbeat : String
  pub active_label : Bool
  pub passive_label : Bool

-- The number is not 0 and not NaN.
abbrev truthy : Number → Bool
truthy nan = false
truthy n = not (same n (num 0))

-- `' ' + best - block + 'Blocks Ago'`: the space goes with the subtraction.
blocks_ago : Option Number → Number → String
blocks_ago none block = ""
blocks_ago (some best) block =
    if truthy block && truthy best then show (minus best block) <> "Blocks Ago" else ""

-- `parseInt(heartbeat.nodeStatus)`
abbrev status_number : Value → Number
status_number (text s) = parse_int s
status_number (number n) = n

unfoldable pub row : PageData → Listed → Row
unfolding blocks_ago
row d h = record {
  current_node = is_text d.orchestrator_address h.wallet;
  name = h.name;
  wallet = h.wallet;
  last_heartbeat = blocks_ago d.best_number h.block_number;
  active_label = is_text d.leader h.wallet;
  passive_label = not (is_text d.leader h.wallet) && same (status_number h.node_status) (num 2);
}

rows_of : PageData → List Listed → List Row
rows_of d [] = []
rows_of d (h ∷ hs) = row d h ∷ rows_of d hs

abbrev listed_rows : PageData → Option (List Listed) → List Row
listed_rows d none = []
listed_rows d (some hs) = if is_text d.status "200" then rows_of d hs else []

-- The list of heartbeats of the page
unfoldable pub rows : Option PageData → List Row
unfolding rows_of
rows none = []
rows (some d) = listed_rows d d.heartbeats
