-- ===== src/Redis/Client/Made.antt =====
-- redis/client.go: when a client is made, and of which options.
use txova_go_db.Prelude.{
  ◌≡◌, ◌≢◌, refl, sym, ap, ◌∙◌, ◌↔◌, ◌⊎◌, inl, Bool, false, List, [], ◌∷◌, Option, none, some, ok,
  length, if◌then◌else◌, arith,
}
use txova_go_db.Prelude.Int.{ℤ, pos, ◌<ℤ◌, leb_ℤ}
use txova_go_db.Redis.Errors.{Error}
use txova_go_db.Redis.Client.{
  Mode, standalone, cluster, sentinel, is_sentinel, default_limits, Config, validate,
  standalone_options, options_of, Client, client_of, new_with_config, RedisConfig,
  new_from_core_config,
}

abbrev pub IsValid : Config → Type 0
IsValid c =
    (c.addresses ≢ [])
    × ((is_sentinel c.mode ≡ false) ⊎ (c.master_name ≢ []))
    × (pos 0 <ℤ c.limits.pool_size)

empty_iff : {A : Type 0} (xs : List A) → (length xs ≡ 0) ↔ (xs ≡ [])
empty_iff [] = (λ e. refl, λ e. refl)
empty_iff (x ∷ xs) = (λ e. absurd (omega (arith, e)), λ e. cc)

pub validate_iff : (c : Config) → (validate c ≡ none) ↔ IsValid c
unfolding validate
validate_iff c = ground (arith, empty_iff c.addresses, empty_iff c.master_name)

client_of-ok :
    (c : Config) (checked : Option Error)
    → ((client : Client) × (client_of c checked ≡ ok client)
        × (client.config ≡ c)
        × (client.options ≡ options_of c.mode c))
      ↔ (checked ≡ none)
unfolding client_of
client_of-ok c none =
    (λ h. refl, λ h. (record { config = c; options = options_of c.mode c }, refl, refl, refl))
client_of-ok c (some e) = (λ (client, h, _, _). cc, λ h. cc)

-- NewWithConfig makes a client exactly if there is an address, a master name in sentinel mode, and a
-- positive pool size; the client has the configuration and was made of the options for its mode.
pub new_with_config_iff :
    (c : Config)
    → ((client : Client) × (new_with_config c ≡ ok client)
        × (client.config ≡ c)
        × (client.options ≡ options_of c.mode c))
      ↔ IsValid c
unfolding new_with_config
new_with_config_iff c =
    let made = client_of-ok c (validate c) in
    let valid = validate_iff c in (λ h. valid.0 (made.0 h), λ v. made.1 (valid.1 v))

-- The size of the pool of a core configuration.
core_pool_size : (n : ℤ) → pos 0 <ℤ (if leb_ℤ n (pos 0) then pos 10 else n)
core_pool_size n = ground arith

-- NewFromCoreConfig makes a client of any core configuration: a standalone one, of the address, the
-- password and the database, with the default limits but for a pool size, which is positive.
pub new_from_core_config-connects :
    (core : RedisConfig)
    → (client : Client) × (new_from_core_config core ≡ ok client)
      × ((n : ℤ) × (pos 0 <ℤ n)
          × (client.options
              ≡ standalone_options core.address core.password core.db
                  (record default_limits { pool_size = n })))
unfolding new_from_core_config new_with_config client_of options_of
new_from_core_config-connects core =
    let n = if leb_ℤ core.pool_size (pos 0) then pos 10 else core.pool_size in
    let c : Config = record {
      addresses = core.address ∷ [];
      password = core.password;
      db = core.db;
      limits = record default_limits { pool_size = n };
      mode = standalone;
      master_name = [];
      tls_enabled = false;
    } in
    let passed = (validate_iff c).1 ((λ e. cc), inl refl, core_pool_size core.pool_size) in
    (
      record { config = c; options = options_of standalone c },
      rw passed refl,
      (n, core_pool_size core.pool_size, refl),
    )

options_of-tls :
    (mode : Mode) (c : Config) (tls : Bool)
    → options_of mode (record c { tls_enabled = tls }) ≡ options_of mode c
unfolding options_of
options_of-tls standalone c tls = refl
options_of-tls cluster c tls = refl
options_of-tls sentinel c tls = refl
options_of-tls (Mode.unnamed n) c tls = refl

client_of-made :
    (c : Config) (checked : Option Error) {client : Client}
    → client_of c checked ≡ ok client
    → (checked ≡ none) × (client.options ≡ options_of c.mode c)
unfolding client_of
client_of-made c none {client} h =
    let made : record { config = c; options = options_of c.mode c } ≡ client = cc in
    (refl, sym (ap (λ (x : Client). x.options) made))
client_of-made c (some e) h = cc

-- TLSEnabled has no effect: if NewWithConfig makes a client with TLS enabled, then it makes one
-- without, and both clients of go-redis are made of the same options.
pub new_with_config-tls :
    (c : Config) (tls : Bool) {client : Client}
    → new_with_config c ≡ ok client
    → (other : Client) × (new_with_config (record c { tls_enabled = tls }) ≡ ok other)
      × (other.options ≡ client.options)
unfolding new_with_config
new_with_config-tls c tls h =
    let d : Config = record c { tls_enabled = tls } in
    let (passed, before) = client_of-made c (validate c) h in
    let valid : IsValid d = (validate_iff c).0 passed in
    let (other, made, _, after) = (new_with_config_iff d).1 valid in
    (other, made, after ∙ options_of-tls c.mode c tls ∙ sym before)
