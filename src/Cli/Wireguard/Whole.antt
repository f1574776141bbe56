-- ===== src/Cli/Wireguard/Whole.antt =====
-- When a wireguard configuration is made.
use habs.Base.{ℕ, zero, suc, ◌≡◌, List, [], ◌∷◌, ok, if◌then◌else◌}
use habs.Cli.Shell.{Tools}
use habs.Cli.Wireguard.{WireguardKey, is_whole, generate_wireguard_key}

module _ {W : Type 0} (tools : Tools W) where
  -- The keys that `n` rounds from `w` on make, those that are not whole included.
  pub data Made : ℕ → W → List WireguardKey → Type 0 where
    none_made : {w : W} → Made zero w []
    one_made :
        {n : ℕ} {w : W} {keys : List WireguardKey} (key : WireguardKey)
        → (generate_wireguard_key tools w).0 ≡ ok key
        → Made n (generate_wireguard_key tools w).1 keys
        → Made (suc n) w (key ∷ keys)

  abbrev pub whole : List WireguardKey → List WireguardKey
  whole [] = []
  whole (key ∷ keys) = if is_whole key then key ∷ whole keys else whole keys
