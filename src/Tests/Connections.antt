-- ===== src/Tests/Connections.antt =====
-- The registry of connectors.
use nightswatch.Prelude.{◌≡◌, []}
use nightswatch.Action.{return}
use nightswatch.Connectors.{prometheus}
use nightswatch.Connectors.Registry.{Setup, ConnectorRegistry, build, get}
use nightswatch.Connectors.Registry.Transparent.{Step, Reach, get-build}
use nightswatch.Tests.Secrets.{aead, codec, store}

abbrev pub setup : Setup
setup = record {
  codec = codec;
  aead = aead;
  py = record { str = λ value. "http://p/"; upper = λ s. s; int = λ value. return 1 };
  query_timeout_seconds = 10;
  max_points = 10000;
  max_series = 100;
}

abbrev pub empty : ConnectorRegistry
empty = record { cache = []; closed = [] }

-- The connector was built and kept.
abbrev used : ConnectorRegistry
used = (get setup 1 prometheus store empty).1

used-Reach : Reach setup (store, used)
used-Reach = Reach.next (Reach.new store) (Step.asked 1 prometheus)

get-build_example : (get setup 1 prometheus store used).0 ≡ build setup 1 prometheus store
get-build_example = get-build setup store used 1 prometheus used-Reach
