-- ===== src/Tests/Fleet.antt =====
-- The registry and the inventory at concrete rows.
use magnemite.Prelude.{◌≡◌, refl, true, false, some, none, All, [], ◌∷◌, List}
use magnemite.AutoUpdate.{AutoTarget, Build, Decision, input_for, installed}
use magnemite.Tests.Samples.{atlas, atlas_two}
use magnemite.Registry.{is_online}
use magnemite.Registry.Liveness.{
  SocketEvent, opened, closed, connections_after, is_live, is_online_lem,
}
use magnemite.Inventory.{PackageInfo, PackageRow, Presence, sync_packages}
use magnemite.Inventory.Laws.{is_gone, sync_packages_inventory}

-- The box reconnects before its first socket is seen to close.
abbrev reconnect : List SocketEvent
reconnect = closed 1 100 ∷ opened 1 101 ∷ opened 1 100 ∷ []

is_online_lem_example : is_online 1 (connections_after reconnect) ≡ is_live 1 [] reconnect
is_online_lem_example = is_online_lem 1 reconnect

reconnected : is_live 1 [] reconnect ≡ true
unfolding is_live
reconnected = refl

abbrev report : List PackageInfo
report =
    record {
      package_name = "com.example.atlas";
      version_name = none;
      version_code = some 7;
      installed = true;
    }
    ∷ []

abbrev seen : List PackageRow
seen =
    record {
      package_name = "com.example.atlas";
      version_name = some "2.0";
      version_code = some 6;
      installed = true;
    }
    ∷ record {
      package_name = "com.example.old";
      version_name = some "1.0";
      version_code = none;
      installed = true;
    }
    ∷ []

sync_packages_inventory_example :
    All (λ r. is_gone report r ≡ false) (sync_packages true report seen)
sync_packages_inventory_example = sync_packages_inventory report seen

abbrev boxes : List Presence
boxes =
    record { id = 1; online = true; last_seen_at = some 1000 }
    ∷ record { id = 2; online = true; last_seen_at = some 900000 }
    ∷ record { id = 3; online = true; last_seen_at = none }
    ∷ []

abbrev auto_atlas : AutoTarget
auto_atlas = record {
  app = atlas;
  enabled = true;
  auto_update_enabled = true;
  update_cooldown_minutes = 60;
  canary_count = 1;
  soak_minutes = 30;
  max_concurrency = none;
}

abbrev build : Build
build = record { row = atlas_two; approved = true; source = "feed" }

abbrev decision : Decision
decision = record { latest = build; caches_first = false; input = input_for auto_atlas build }
