-- ===== src/Tests/Fixtures.antt =====
-- A small world: its state counts the lines of the log, connections open, nothing fails.
use yukimi.Apis.Crossplane.{Crossplane}
use yukimi.Apis.SnowflakeAccount.{SnowflakeAccountSpec, SnowflakeAccount}
use yukimi.Account.Module.Existing.{Keys, Platform, ModuleConfig}
use yukimi.Account.Outcome.{Outcome}
use yukimi.Account.Pipeline.{Module}
use yukimi.Account.ResourceData.{Db, ResourceData, new_resource_data}
use yukimi.Config.Backplane.{Region}
use yukimi.Logger.{op_update, Logger, Logging}
use yukimi.Secrets.Credentials.{Credentials}
use yukimi.Snowflake.Statement.Runner.{Cursor, Executor}
use yukimi.Base.{Str, ℕ, suc, Bool, true, false, Option, none, List, [], ◌∷◌}
use yukimi.Errors.{Error, Result, ok}

-- The conditions of a resource are whether it is ready; the last one set holds.
abbrev pub set_ready : List Bool → Bool → Bool
set_ready [] s = s
set_ready (c ∷ cs) s = set_ready cs c

abbrev pub small_crossplane : Crossplane
small_crossplane = record {
  Condition = Bool;
  Conditions = Bool;
  Event = Error;
  available = true;
  unavailable = λ msg. false;
  set_conditions = set_ready;
  is_ready = λ s. s;
  warning = λ reason e. e;
}

abbrev pub frankfurt : Str
frankfurt = b'f' ∷ b'r' ∷ b'a' ∷ []

abbrev pub spec : SnowflakeAccountSpec
spec = record {
  description = [];
  contact = [];
  region = frankfurt;
  environment = [];
  credit_quota = 5;
  identity_integration = record { groups = []; role_bindings = [] };
  custom_network_rules = none;
  custom_auth_rules = none;
  management_policies = [];
}

abbrev pub account : Str → Option ℕ → SnowflakeAccount small_crossplane
account locator deleted = record {
  name = b's' ∷ b'h' ∷ b'o' ∷ b'p' ∷ [];
  namespace = b't' ∷ b'm' ∷ [];
  generation = 2;
  creation_timestamp = 10;
  deletion_timestamp = deleted;
  spec = spec;
  status = record {
    conditions = false;
    observed_generation = 1;
    account_name = [];
    account_locator = locator;
    account_created_at = none;
    account_url = [];
  };
}

abbrev pub small_logging : Logging ℕ
small_logging = record { emit = λ e w. suc w; generate_incident_id = λ w. (b'i' ∷ b'd' ∷ [], w) }

abbrev pub small_credentials : Credentials
small_credentials = record {
  username = b'u' ∷ [];
  public_key = b'k' ∷ [];
  private_key = b's' ∷ [];
  rotated_at = 9;
}

abbrev pub small_keys : Keys ℕ
small_keys = record {
  create_credentials = λ id username w. (ok small_credentials, w);
  get_credentials = λ id w. (ok small_credentials, w);
  delete_credentials = λ id w. (ok tt, w);
}

abbrev pub no_rows : Cursor
no_rows = record { columns = ok []; scans = []; final = none }

abbrev pub small_executor : Executor ℕ
small_executor = record {
  exec_context = λ sql args w. (ok tt, w);
  query_context = λ sql args w. (ok no_rows, w);
}

abbrev pub small_platform : Result Db → Platform ℕ
small_platform org_admin = record {
  clock = λ w. w;
  show_time = λ t. [];
  pool = record {
    org_admin_db = λ w. (org_admin, w);
    tenant_db = λ namespace name locator region w. (ok 2, w);
    evict_tenant = λ namespace name w. w;
  };
  keys = small_keys;
  executor = λ db. small_executor;
  logging = small_logging;
}

abbrev pub small_region : Region
small_region = record {
  available = true;
  inventory = [];
  regional_parameters = [];
  regional_allowlist = [];
}

abbrev pub small_config : ModuleConfig
small_config = record {
  org = b'a' ∷ b'c' ∷ b'm' ∷ b'e' ∷ [];
  grace_period = 0;
  deletion_grace_period_days = 3;
  use_private_link = false;
  backplane = record { global_parameters = []; regions = (frankfurt, small_region) ∷ [] };
}

abbrev pub small_log : Logger
small_log = record { namespace = []; kind = []; name = []; op = op_update }

abbrev pub data_of : SnowflakeAccount small_crossplane → ResourceData small_crossplane ℕ
data_of cr = new_resource_data (λ name namespace. name) cr [] small_log 5

-- A module that applies, observes and tears down with given results.
abbrev pub fixed_module :
    Str → Outcome small_crossplane → Result (Unit {0}) → Module small_crossplane ℕ
fixed_module name o r = record {
  name = name;
  observe = λ d. (o, d);
  apply = λ d. (o, d);
  teardown = λ d. (r, d);
}
