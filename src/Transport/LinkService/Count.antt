-- ===== src/Transport/LinkService/Count.antt =====
-- transport/link_service.cpp: the updates of one counter of the statistics, `next.c = add_traffic(next.c, n)`.
use nexus_lab.Prelude.Except.{Result, ok, err}
use nexus_lab.Transport.Statistics.{TrafficCount, add_traffic, LinkStatistics}

abbrev pub enqueue : TrafficCount → LinkStatistics → Result LinkStatistics
enqueue n t = elim (add_traffic t.enqueued n) [
  | ok c ↦ ok (record t { enqueued = c })
  | err e ↦ err e
]

abbrev pub start : TrafficCount → LinkStatistics → Result LinkStatistics
start n t = elim (add_traffic t.started n) [ ok c ↦ ok (record t { started = c }) | err e ↦ err e ]

abbrev pub complete : TrafficCount → LinkStatistics → Result LinkStatistics
complete n t = elim (add_traffic t.completed n) [
  | ok c ↦ ok (record t { completed = c })
  | err e ↦ err e
]

abbrev pub mark : TrafficCount → LinkStatistics → Result LinkStatistics
mark n t = elim (add_traffic t.marked n) [ ok c ↦ ok (record t { marked = c }) | err e ↦ err e ]

abbrev pub drop_full : TrafficCount → LinkStatistics → Result LinkStatistics
drop_full n t = elim (add_traffic t.dropped_buffer_full n) [
  | ok c ↦ ok (record t { dropped_buffer_full = c })
  | err e ↦ err e
]

abbrev pub drop_down : TrafficCount → LinkStatistics → Result LinkStatistics
drop_down n t = elim (add_traffic t.dropped_link_down n) [
  | ok c ↦ ok (record t { dropped_link_down = c })
  | err e ↦ err e
]
