-- ===== src/Redis/Client/Tests.antt =====
-- The theorems on clients at a cluster of two addresses.
use txova_go_db.Prelude.{◌≡◌, refl, true, false, [], ◌∷◌, ok}
use txova_go_db.Text.{codes}
use txova_go_db.Redis.Client.{
  Mode, Config, default_config, validate, options_of, Client, client_of, new_with_config,
}
use txova_go_db.Redis.Client.Made.{new_with_config-tls}

abbrev clustered : Config
clustered = record default_config {
  addresses = codes "a:6379" ∷ codes "b:6379" ∷ [];
  mode = Mode.cluster;
  tls_enabled = true;
}

abbrev client : Client
client = record { config = clustered; options = options_of Mode.cluster clustered }

made : new_with_config clustered ≡ ok client
unfolding new_with_config client_of validate
made = refl

new_with_config-tls_example :
    (other : Client) × (new_with_config (record clustered { tls_enabled = false }) ≡ ok other)
    × (other.options ≡ client.options)
new_with_config-tls_example = new_with_config-tls clustered false made
