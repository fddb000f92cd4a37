-- ===== src/Ws/Counts.antt =====
-- The counters that handleChatMsg of internal/ws/client.go increments, by label.
use im_system.Common.{suc}
use im_system.Ws.State.{Metrics}

abbrev pub count_failed_lookup : Metrics → Metrics
count_failed_lookup m = record m { failed_redis_lookup = suc m.failed_redis_lookup }

abbrev pub count_offline : Metrics → Metrics
count_offline m = record m { delivered_offline = suc m.delivered_offline }

abbrev pub count_ghost : Metrics → Metrics
count_ghost m = record m { failed_ghost_online = suc m.failed_ghost_online }

abbrev pub count_forward_failed : Metrics → Metrics
count_forward_failed m = record m { failed_forward_publish = suc m.failed_forward_publish }

abbrev pub count_forwarded : Metrics → Metrics
count_forwarded m = record m {
  delivered_cross_instance = suc m.delivered_cross_instance;
  forward_published = suc m.forward_published;
}

abbrev pub count_local : Metrics → Metrics
count_local m = record m { delivered_local = suc m.delivered_local }

abbrev pub count_full : Metrics → Metrics
count_full m = record m { failed_chan_full = suc m.failed_chan_full }

abbrev pub count_persisted : Metrics → Metrics
count_persisted m = record m { persisted_success = suc m.persisted_success }

abbrev pub count_not_persisted : Metrics → Metrics
count_not_persisted m = record m { persisted_failure = suc m.persisted_failure }
