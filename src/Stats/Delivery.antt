-- ===== src/Stats/Delivery.antt =====
-- Who receives the counters, and which (internal/hub/stats.go).
use wirefan.Prelude.{nat_eq}
use wirefan.Registry.{Registry}
