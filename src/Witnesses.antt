-- ===== src/Witnesses.antt =====
-- Concrete data of the model, the tests of it, and the theorems at concrete inputs. The children
-- go by the part of the program.
mod Bindings
mod Locks
mod Pipelines
mod Applications
mod Logs
mod Configurations
mod Catalogs
mod Manifests
mod Services
mod Values
use lumic.Prelude.{String, ℕ, List, [], ◌∷◌, none, some, true, false, Bool}
use lumic.Json.{Sample}
use lumic.Resource.{ResourceRef, ResourceRecord, ResourceOutput, application, managed_service}
use lumic.Binding.{Binding, BindingGraph}
use lumic.Service.{ServiceInstance, lumic_owned, managed, running}
use lumic.Framework.{FrameworkState, schema_version}
use lumic.Lock.{regular}
use lumic.Framework.Store.{Directory, StateFile}

abbrev pub shop : ResourceRef
shop = record { kind = application; id = "shop" }

abbrev pub mysql : ResourceRef
mysql = record { kind = managed_service; id = "mysql" }

abbrev pub to_shop : Binding
to_shop = record {
  id = "db";
  producer = mysql;
  output = "url";
  consumer = shop;
  input = "database";
  created_at_unix_ms = 1;
}

abbrev pub to_mysql : Binding
to_mysql = record {
  id = "back";
  producer = shop;
  output = "domain";
  consumer = mysql;
  input = "client";
  created_at_unix_ms = 2;
}

abbrev pub one_way : BindingGraph
one_way = to_shop ∷ []

abbrev pub both_ways : BindingGraph
both_ways = to_shop ∷ to_mysql ∷ []

abbrev pub mysql_service : ServiceInstance Sample
mysql_service = record {
  id = "mysql";
  definition_id = "mysql";
  definition_version = 1;
  display_name = "MySQL";
  ownership = lumic_owned;
  management_status = managed;
  desired_state = running;
  configuration = [];
  outputs =
      (
        "url",
        record { value = Sample.text "secret://mysql"; sensitive = true; updated_at_unix_ms = 1 },
      )
      ∷ [];
  platform_metadata = [];
  installed_version = none;
  created_at_unix_ms = 1;
  updated_at_unix_ms = 1;
}

abbrev pub shop_record : ResourceRecord Sample
shop_record = record {
  resource = shop;
  attributes = [];
  outputs = [];
  created_at_unix_ms = 1;
  updated_at_unix_ms = 1;
}

abbrev pub with_bindings : BindingGraph → FrameworkState Sample
with_bindings bindings = record {
  version = schema_version;
  services = mysql_service ∷ [];
  resources = shop_record ∷ [];
  bindings = bindings;
  pipeline_executions = [];
  migrations = [];
}

abbrev pub holding : BindingGraph → Directory Sample
holding bindings = record {
  file = StateFile.stored (with_bindings bindings);
  is_absolute = true;
  is_writable = true;
  held = [];
  locks = λ value. regular;
}
