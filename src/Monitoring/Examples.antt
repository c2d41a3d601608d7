-- ===== src/Monitoring/Examples.antt =====
-- Tests of internal/monitoring/prom.go.
use event_api.Base.{◌≡◌, refl, some, bytes_dec, codes}
use event_api.Monitoring.Samples.{labels}
use event_api.Monitoring.Registering.{last_value}

last_wins : last_value (codes "pod") labels ≡ some (codes "c")
unfolding last_value bytes_dec
last_wins = refl
